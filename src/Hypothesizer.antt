-- ===== src/Hypothesizer.antt =====
-- hypothesizer/hypothesizer.cc: which locks protect a member, by the lock combinations that its
-- accesses were seen with.
pub mod Combination
pub mod Graph
pub mod Search
pub mod Input
pub mod Report
pub mod Pipeline
pub mod Docs
pub mod Winner
mod Tests
mod InputTests
