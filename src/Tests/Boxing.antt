-- ===== src/Tests/Boxing.antt =====
-- The theorem about the box of a boxed collection, for a mutex in an empty heap.
use happylock.Base.{ℕ, ◌≡◌, refl, none, some, []}
use happylock.Mutex.{mutex_lockable}
use happylock.Collection.Boxing.{Heap, boxing_child, boxing_into_child, boxing_drop, boxing_try_new}
use happylock.Collection.Boxing.Owning.{Dropped, MovedOut, made, Tried, boxing-owns}
use happylock.Tests.Demo.{demo_mutex}

abbrev empty : Heap ℕ
empty = record { next = 0; boxes = λ p. none; dropped = [] }

boxing-owns_example :
    (boxing_child
        (made (mutex_lockable demo_mutex) 7 empty).0
        (made (mutex_lockable demo_mutex) 7 empty).1
      ≡ some 7)
    × Dropped 7 empty (
        boxing_drop
          (made (mutex_lockable demo_mutex) 7 empty).0
          (made (mutex_lockable demo_mutex) 7 empty).1)
    × MovedOut 7 empty (
        boxing_into_child
          (made (mutex_lockable demo_mutex) 7 empty).0
          (made (mutex_lockable demo_mutex) 7 empty).1)
    × Tried (mutex_lockable demo_mutex) 7 empty (boxing_try_new (mutex_lockable demo_mutex) 7 empty)
boxing-owns_example = boxing-owns (mutex_lockable demo_mutex) 7 empty (λ p le. refl)
