-- ===== src/Shared.antt =====
-- What the threads share: `PoisonFlag`s (src/poisonable/flag.rs, built with `panic = "unwind"`) by
-- address, and a `world` with the raw locks, the protected data and the other threads, which the
-- program reaches only through the methods of `lock_api`.
use happylock.Base.{ℕ, Bool, true, false, ◌==◌, if◌then◌else◌}
use happylock.Exec.{M, ok}

pub record Shared (W : Type 0) : Type 0 where
  pub flags : ℕ → Bool
  pub world : W

abbrev pub store_flag : ℕ → Bool → (ℕ → Bool) → ℕ → Bool
store_flag a b flags x = if x == a then b else flags x

module _ {W : Type 0} where
  unfoldable pub is_poisoned : ℕ → M (Shared W) Bool
  is_poisoned a s = ok (s.flags a) s

  unfoldable pub clear_poison : ℕ → M (Shared W) (Unit {0})
  clear_poison a s = ok tt (record s { flags = store_flag a false s.flags })

  unfoldable pub poison : ℕ → M (Shared W) (Unit {0})
  poison a s = ok tt (record s { flags = store_flag a true s.flags })
