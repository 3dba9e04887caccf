-- ===== src/Lib.antt =====
-- HappyLock (src/ of the repository): locks that cannot deadlock, because a thread needs its one
-- `ThreadKey` to lock anything, and locks several locks only as one collection.
--
-- A thread gets its key from a thread-local cell (src/key.rs). With the key it calls the methods of
-- a lock: a `Mutex`, an `RwLock`, or a collection of locks. Every lock implements the trait
-- `RawLock` (src/lockable.rs), which locks without a key, and the trait `Lockable` or `Sharable`,
-- which lists the raw locks of a value and makes its guard. The collections call the raw locks of
-- their members: `RefLockCollection` and `BoxedLockCollection` in the order of their addresses,
-- `OwnedLockCollection` in the order of its data, and `RetryingLockCollection` without any order,
-- by backing off. A panic in one of those calls unlocks what the call has locked.
--
-- The model follows one thread. A computation `M S A` runs on a state and returns a value, panics
-- with the state it leaves, or does not return; `handle_unwind` is the code of
-- src/handle_unwind.rs. The state of the locks is a parameter `S`, which a call changes together
-- with whatever the other threads do while it runs, so that every theorem is about all
-- interleavings. A lock is the record of its methods, as behind a `&dyn RawLock`, together with
-- its address. `lock_api::RawMutex` and `lock_api::RawRwLock` are parameters, with their documented
-- behaviour as a hypothesis: what the calling thread holds after each method. What a thread holds is
-- a function from addresses to modes. The code for writing and the code for reading, which are the
-- same up to the names of the methods, are one definition with the mode as an argument.
--
-- The files, by component:
--   Base                the library names in use, lists and tests over the native numbers
--   Exec                src/handle_unwind.rs, and the computations
--   Key                 src/key.rs
--   Shared              src/poisonable/flag.rs, and the state of mutexes and read-write locks
--   RawLock             the trait `RawLock` of src/lockable.rs, and what its methods promise
--   Lockable            the other traits of src/lockable.rs, with the
--                       implementations for references, arrays, vectors, boxes and pairs
--   Mutex, RwLock       src/mutex/ and src/rwlock/
--   Poisonable          src/poisonable.rs and src/poisonable/
--   Threads             many threads that lock collections
--   Collection.Utils    src/collection/utils.rs, but for its scoped functions
--   Collection.Access   the scoped functions, and the methods of the collections that take a key
--   Collection.Sorted   src/collection/ref.rs, boxed.rs and owned.rs
--   Collection.Boxing   the box of a `BoxedLockCollection` in src/collection/boxed.rs
--   Collection.Retry    src/collection/retry.rs
--   Collection.Duplicates, Collection.Contract, Collection.Mutexes    theorems about the collections
--   Tests               a world in which the hypotheses of the theorems hold, and runs in it
--
-- Addresses are natural numbers, and so are the lengths and indices of vectors, which fit into a
-- `usize` since the vectors do. Sorting compares addresses: `get_locks` of src/collection/utils.rs
-- compares the v-tables too when addresses are equal, and no theorem depends on the order of those.
-- The only loop that need not end is that of `raw_write` and `raw_read` in src/collection/retry.rs.
-- It runs for at most `fuel` rounds, and running out of them is a call that does not return. Fuel
-- above the number of times that other threads can still make an attempt to lock fail is enough.
--
-- Collection.Sorted.RefMethods, BoxedMethods and OwnedMethods and Collection.Retry.Methods are the
-- methods of each collection that take a key, which call the code in Collection.Access.
--
-- Threads.antt puts many threads side by side. There a thread is what it holds and what it still
-- asks for, and the second is the list of calls that the code of `raw_write` makes when it runs on
-- mutexes that record them. A thread takes the next mutex when no thread holds it; panics, killed
-- mutexes and shared locking are left out of that module.
--
-- RawLock.Killing says what may come after a panic of a mutex or a read-write lock: any calls of its
-- methods, and everything that leaves its private flag as it is.
--
-- Collection.Values holds what the collections do as owners of their data. There a lock is a value
-- with its data in it, as Rust moves it; a mutable reference is what is seen through it, and the
-- lock that a write through it leaves. Single.antt is about mutexes and read-write locks on their
-- own, and Threads.Philosophers about examples/dining_philosophers.rs.
--
-- Tests.Simulation is a world of raw locks in which threads can be run one after the other.
-- Tests.Unit has the unit tests of src/, which return there as they do in Rust, Tests.Evil those of
-- tests/evil_mutex.rs, evil_try_mutex.rs and evil_unlock_mutex.rs, whose mutexes panic, and
-- Tests.Examples what basic.rs, double_mutex.rs and fibonacci.rs of examples/ print.
--
-- Not modelled: the text that formatting produces and what hashing computes, for which the code
-- calls the data; `mut` iterators, beside the shared ones; the data that the locks protect, which
-- only the closures of the user change; src/thread.rs, which src/lib.rs does not include; tests that
-- depend on how long threads sleep (tests/retry.rs, retry_rw.rs). The build is the one with
-- `panic = "unwind"`.

pub mod Base
pub mod Exec
pub mod RawLock
pub mod Lockable
pub mod Collection
pub mod Key
pub mod Shared
pub mod Mutex
pub mod RwLock
pub mod Poisonable
pub mod Single
pub mod Threads
pub mod Tests
