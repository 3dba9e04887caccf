-- ===== src/Tests/Simulation.antt =====
-- Raw locks that keep count of their holders, data by address, and threads that run one after the
-- other: a world to run programs in. A lock that would block is a call that does not return.
use happylock.Base.{ℕ, ◌+◌, ◌-◌, Bool, true, false, not, ◌||◌, none, some, ◌==◌, if◌then◌else◌}
use happylock.Exec.{M, Res, ok, panic, hang, ret, throw, ◌>>=◌, handle_unwind}
use happylock.Key.{KeyCell, ThreadKey, thread_key_get}
use happylock.Shared.{Shared}
use happylock.Mutex.{RawMutex}
use happylock.RwLock.{RawRwLock}
use happylock.Collection.Access.{Result}

pub record Sim : Type 0 where
  pub writer : ℕ → Bool
  pub readers : ℕ → ℕ
  pub values : ℕ → ℕ

abbrev pub at {ℓ} : {A : Type ℓ} → (ℕ → A) → ℕ → A → ℕ → A
at f a x b = if b == a then x else f b

-- What a test runs in: the key cell of its thread, and what the threads share.
abbrev pub Program {ℓ} : Type ℓ → Type ℓ
Program A = M (KeyCell × Shared Sim) A

abbrev is_taken : ℕ → Sim → Bool
is_taken a w = w.writer a || not (w.readers a == 0)

abbrev put_writer : ℕ → Bool → Shared Sim → Shared Sim
put_writer a b s = record s { world = record s.world { writer = at s.world.writer a b } }

abbrev put_readers : ℕ → ℕ → Shared Sim → Shared Sim
put_readers a n s = record s { world = record s.world { readers = at s.world.readers a n } }

abbrev lock_exclusive : ℕ → M (Shared Sim) (Unit {0})
lock_exclusive a s = if is_taken a s.world then hang else ok tt (put_writer a true s)

abbrev try_lock_exclusive : ℕ → M (Shared Sim) Bool
try_lock_exclusive a s = if is_taken a s.world then ok false s else ok true (put_writer a true s)

abbrev unlock_exclusive : ℕ → M (Shared Sim) (Unit {0})
unlock_exclusive a s = ok tt (put_writer a false s)

abbrev lock_shared : ℕ → M (Shared Sim) (Unit {0})
lock_shared a s = if s.world.writer a then hang else ok tt (put_readers a (s.world.readers a + 1) s)

abbrev try_lock_shared : ℕ → M (Shared Sim) Bool
try_lock_shared a s =
    if s.world.writer a then ok false s else ok true (put_readers a (s.world.readers a + 1) s)

abbrev unlock_shared : ℕ → M (Shared Sim) (Unit {0})
unlock_shared a s = ok tt (put_readers a (s.world.readers a - 1) s)

abbrev pub sim_mutex : RawMutex Sim
sim_mutex = record {
  lock = lock_exclusive;
  try_lock = try_lock_exclusive;
  unlock = unlock_exclusive;
}

abbrev pub sim_rwlock : RawRwLock Sim
sim_rwlock = record {
  lock_exclusive = lock_exclusive;
  try_lock_exclusive = try_lock_exclusive;
  unlock_exclusive = unlock_exclusive;
  lock_shared = lock_shared;
  try_lock_shared = try_lock_shared;
  unlock_shared = unlock_shared;
}

-- `is_locked`, and the data behind an address.
abbrev pub is_locked : ℕ → Program Bool
is_locked a cs = ok (is_taken a cs.1.world) cs

abbrev pub load : ℕ → Program ℕ
load a cs = ok (cs.1.world.values a) cs

abbrev pub store : ℕ → ℕ → Program (Unit {0})
store a v (cell, s) =
    ok tt (cell, record s { world = record s.world { values = at s.world.values a v } })

abbrev pub assert : Bool → Program (Unit {0})
assert b = if b then ret tt else throw

-- `assert_eq!` of data behind a reference.
abbrev pub assert_holds : ℕ → ℕ → Program (Unit {0})
assert_holds a v = do x ← load a; assert (x == v)

-- `ThreadKey::get().unwrap()`
unfoldable pub get_key : Program ThreadKey
unfolding thread_key_get
get_key = do k ← thread_key_get; elim k [ none ↦ throw | some key ↦ ret key ]

abbrev joined :
    KeyCell → Res (KeyCell × Shared Sim) (Unit {0}) → Res (KeyCell × Shared Sim) (Unit {0})
joined cell (ok _ (c, s)) = ok tt (cell, s)
joined cell (panic (c, s)) = panic (cell, s)
joined cell hang = hang

-- `thread::scope(|s| { s.spawn(...); })`: a new thread has its own key cell, and is joined.
abbrev pub in_thread : Program (Unit {0}) → Program (Unit {0})
in_thread body cs = joined cs.0 (body (record { is_locked = false }, cs.1))

-- `catch_unwind`: whether the body returned.
abbrev pub catch_unwind : Program (Unit {0}) → Program Bool
catch_unwind body cs = elim (body cs) [ ok _ t ↦ ok true t | panic t ↦ ok false t | hang ↦ hang ]

-- A test that a body panics: `.unwrap_err()` of `catch_unwind` or of the `join` of a thread.
abbrev pub panics : Program (Unit {0}) → Program (Unit {0})
panics body = do returned ← catch_unwind body; assert (not returned)

-- `panic!()`, where something is dropped on the way.
abbrev pub panic_dropping : Program (Unit {0}) → Program (Unit {0})
panic_dropping dropped = handle_unwind throw dropped

abbrev pub is_ok {ℓ κ} : {A : Type ℓ} {E : Type κ} → Result A E → Bool
is_ok (Result.ok a) = true
is_ok (Result.err e) = false

-- A thread without its key, and locks that nobody holds, around the given data.
abbrev pub around : (ℕ → ℕ) → KeyCell × Shared Sim
around values = (
  record { is_locked = false },
  record {
    flags = λ a. false;
    world = record { writer = λ a. false; readers = λ a. 0; values = values };
  },
)

abbrev returned : {S : Type 0} → Res S (Unit {0}) → Bool
returned (ok _ s) = true
returned (panic s) = false
returned hang = false

-- Whether a test passes.
abbrev pub passes : (ℕ → ℕ) → Program (Unit {0}) → Bool
passes values test = returned (test (around values))
