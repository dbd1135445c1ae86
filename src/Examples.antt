-- ===== src/Examples.antt =====
-- Concrete worlds and packs, and the theorems at them.
pub mod Millis
pub mod Worlds
pub mod Packs
mod Graphs
mod Admissions
mod Pools
mod Stores
mod Rounds
mod Episodes
mod Chains
mod Suites
