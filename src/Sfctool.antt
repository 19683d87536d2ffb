-- ===== src/Sfctool.antt =====
-- coverage/sfctool/sfctool.cc: a picture of which strings of a domain an input covers, drawn along
-- a curve that fills a square.
pub mod Curve
pub mod Lines
pub mod Spiral
pub mod Hilbert
pub mod Colors
pub mod Picture
mod Tests
