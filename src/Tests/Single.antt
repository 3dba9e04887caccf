-- ===== src/Tests/Single.antt =====
-- The theorems about single locks, and about the indices of the retrying loop.
use happylock.Base.{ℕ, refl, List, [], ◌∷◌, length, arith}
use happylock.Exec.{M, ret, ◌>>=◌, ◌>>◌}
use happylock.Key.{KeyCell}
use happylock.Shared.{Shared}
use happylock.RawLock.{RawLock, write}
use happylock.Collection.Retry.{Cells, retry_loop}
use happylock.Collection.Retry.Range.{LoopInRange, retry_loop-LoopInRange}
use happylock.Tests.Demo.{Demo, start}
use happylock.Tests.Collections.{leaf}

abbrev visit : ℕ → M (KeyCell × Shared Demo) ℕ
visit a = ret a

abbrev two_leaves : List (RawLock (Shared Demo))
two_leaves = leaf 7 ∷ leaf 4 ∷ []

abbrev fresh_cells : Cells
fresh_cells = record { first_index = 0; locked = 0 }

retry_loop-LoopInRange_example :
    LoopInRange (length two_leaves) (retry_loop write two_leaves 3 (fresh_cells, start))
retry_loop-LoopInRange_example =
    retry_loop-LoopInRange write two_leaves 3 fresh_cells start (omega arith) refl
