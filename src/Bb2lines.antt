-- ===== src/Bb2lines.antt =====
-- coverage/bb2lines/main.cpp: which source lines the basic blocks at given addresses cover.
pub mod Table
pub mod Notes
pub mod Search
pub mod Modes
pub mod Covers
pub mod Regular
pub mod Within
pub mod Agree
pub mod Totals
pub mod Ordered
pub mod Nearest
pub mod Again
mod Tests
