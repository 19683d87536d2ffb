-- ===== src/Convert.antt =====
-- convert/main
pub mod Result
pub mod Lock
pub mod Manager
pub mod Members
pub mod Finish
pub mod Transition
pub mod Locks
pub mod Invariant
pub mod Accesses
pub mod Driver
pub mod Allocs
pub mod Events
pub mod Blacklists
pub mod Run
mod Tests
mod EventTests
mod RunTests
mod MemberTests
mod BlacklistTests
