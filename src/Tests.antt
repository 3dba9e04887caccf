-- ===== src/Tests.antt =====
-- A small world of locks, and the theorems of the other modules at inputs in it.
pub mod Demo
mod Locks
mod Collections
mod Retrying
mod Guards
mod Threads
mod Poisonable
mod Whole
mod Boxing
mod Owners
pub mod Simulation
pub mod Unit
pub mod Evil
mod Examples
mod Single
