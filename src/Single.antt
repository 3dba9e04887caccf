-- ===== src/Single.antt =====
-- Mutexes and read-write locks on their own: a critical section with a guard beside one with a
-- closure (src/mutex/, src/rwlock/), and `Debug`, which locks without a key.
pub mod Peek
use happylock.Base.{some, List}
use happylock.Exec.{◌>>=◌, ◌>>◌}
use happylock.Shared.{Shared}
use happylock.RawLock.{Mode, raw_lock, raw_unlock, raw_try_lock}
use happylock.RawLock.Holding.{claim}
use happylock.RawLock.Contract.{Holding}
