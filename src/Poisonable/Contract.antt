-- ===== src/Poisonable/Contract.antt =====
-- A `Poisonable` keeps the contracts of what it wraps.
use happylock.Base.{ℕ, Bool, true, false, none, some, List}
use happylock.Shared.{Shared}
use happylock.RawLock.{Mode, write, read}
use happylock.RawLock.Holding.{claim, AllAt}
use happylock.RawLock.Contract.{Holding, Unlocks, IsRawLock}
use happylock.RawLock.Leaf.{mine}
use happylock.Lockable.Guarded.{IsGuarded}
use happylock.Poisonable.{
  Poisonable, PoisonRef, report, poison_ref_drop, poison_result_drop, poisonable_lockable,
  poisonable_raw,
}

module _ {W G D : Type 0} (held : W → Holding) (p : Poisonable W G D) where
  poisonable_raw-same :
      (m : Mode) (foot : List ℕ) (a : ℕ)
      → IsRawLock (mine held) m foot p.inner_lock
      → IsRawLock (mine held) m foot (poisonable_raw p a)
  unfolding poisonable_raw
  poisonable_raw-same write foot a law = record {
    locks = λ s free. law.locks s free;
    tries = λ s free. law.tries s free;
    unlocks = λ s taken. law.unlocks s taken;
  }
  poisonable_raw-same read foot a law = record {
    locks = λ s free. law.locks s free;
    tries = λ s free. law.tries s free;
    unlocks = λ s taken. law.unlocks s taken;
  }

  -- Setting the flag on the way does not change what the thread holds.
  pub poison_ref_drop-Unlocks :
      (m : Mode) (foot : List ℕ) (g : G)
      → ((panicking : Bool) (s : Shared W)
          → AllAt (some m) foot (mine held s)
          → Unlocks (mine held) (claim none foot (mine held s)) (p.inner.drop_guard panicking g s))
      → (fl : ℕ) (panicking : Bool) (s : Shared W) → AllAt (some m) foot (mine held s)
      → Unlocks
          (mine held)
          (claim none foot (mine held s))
          (poison_ref_drop p panicking (record { guard = g; flag = fl }) s)
  unfolding poison_ref_drop
  poison_ref_drop-Unlocks m foot g drops fl true s taken = drops true _ taken
  poison_ref_drop-Unlocks m foot g drops fl false s taken = drops false s taken

  result_drop-Unlocks :
      (m : Mode) (foot : List ℕ) (r : PoisonRef G) (b panicking : Bool) (s : Shared W)
      → Unlocks (mine held) (claim none foot (mine held s)) (poison_ref_drop p panicking r s)
      → Unlocks
          (mine held)
          (claim none foot (mine held s))
          (poison_result_drop p panicking (report b r) s)
  unfolding poison_result_drop
  result_drop-Unlocks m foot r true panicking s u = u
  result_drop-Unlocks m foot r false panicking s u = u

  -- If the wrapped value keeps the contract of a raw lock and its guards release its addresses,
  -- then so do the `Poisonable` and its guards, poisoned or not, dropped in a panic or not.
  pub poisonable-IsGuarded :
      (m : Mode) (foot : List ℕ) (a : ℕ)
      → IsRawLock (mine held) m foot p.inner_lock
      → IsGuarded (mine held) m foot p.inner
      → IsRawLock (mine held) m foot (poisonable_raw p a)
        × IsGuarded (mine held) m foot (poisonable_lockable p)
  unfolding poisonable_lockable
  poisonable-IsGuarded m foot a law guards = (
    poisonable_raw-same m foot a law,
    record {
      made = λ s.
          let (g, eg, drops) = guards.made s in
          let r : PoisonRef G = record { guard = g; flag = p.poisoned } in
          (
            report (s.flags p.poisoned) r,
            rw eg,
            λ panicking s' taken.
                result_drop-Unlocks m foot r (s.flags p.poisoned) panicking s'
                  (poison_ref_drop-Unlocks m foot g drops p.poisoned panicking s' taken),
          );
    },
  )
