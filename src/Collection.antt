-- ===== src/Collection.antt =====
-- src/collection.rs and the modules below it: the four kinds of collection.
pub mod Utils
pub mod Retry
pub mod Access
pub mod Sorted
pub mod Boxing
pub mod Duplicates
pub mod Contract
pub mod Mutexes
pub mod Values
