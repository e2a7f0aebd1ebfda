-- ===== src/Tests.antt =====
-- Concrete runs of the models, each of which applies a theorem at an input where its conditions hold.
pub mod Machine
pub mod Memory
pub mod Lookup
pub mod Open
pub mod Network
pub mod Start
pub mod Windows
pub mod Objects
pub mod Locking
pub mod Engine
pub mod Crowd
pub mod Threads
pub mod Running
pub mod Building
