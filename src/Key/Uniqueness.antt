-- ===== src/Key/Uniqueness.antt =====
-- One key for each thread: histories of `ThreadKey::get` and of drops of keys that are alive.
use happylock.Base.{ℕ, zero, suc, ◌≡◌, Option, none, some, List, [], ◌∷◌, if◌then◌else◌}
use happylock.Exec.{Res, ok, panic, hang}
use happylock.Key.{
  KeyCell, ThreadKey, thread_key, key_cell_default, thread_key_get, thread_key_drop,
}

pub data KeyEvent : Type 0 where
  gets drops : KeyEvent

-- The thread's cell, and the number of its keys that are alive.
pub record Keys : Type 0 where
  pub cell : KeyCell
  pub live : ℕ

got : Keys → Res (KeyCell × ℕ) (Option ThreadKey) → Keys
got k (ok none (cell, _)) = record { cell = cell; live = k.live }
got k (ok (some key) (cell, _)) = record { cell = cell; live = suc k.live }
got k (panic s) = k
got k hang = k

dropped : Keys → ℕ → Res (KeyCell × ℕ) (Unit {0}) → Keys
dropped k n (ok _ (cell, _)) = record { cell = cell; live = n }
dropped k n (panic s) = k
dropped k n hang = k

-- Only a key that is alive can be dropped.
drop_live : Keys → ℕ → Keys
unfolding dropped
drop_live k zero = k
drop_live k (suc n) = dropped k n (thread_key_drop thread_key (k.cell, 0))

pub key_step : Keys → KeyEvent → Keys
unfolding got drop_live
key_step k gets = got k (thread_key_get (k.cell, 0))
key_step k drops = drop_live k k.live

pub key_run : Keys → List KeyEvent → Keys
key_run k [] = k
key_run k (e ∷ es) = key_run (key_step k e) es

abbrev pub fresh_thread : Keys
fresh_thread = record { cell = key_cell_default; live = 0 }

-- The cell is locked exactly while the one key is alive.
abbrev pub IsTracked : Keys → Type 0
IsTracked k = k.live ≡ (if k.cell.is_locked then 1 else 0)
