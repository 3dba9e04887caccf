-- ===== src/RwLock/Data.antt =====
-- The constructors of src/rwlock/rwlock.rs and its access to the data without locking.
use happylock.Base.{Bool, false, refl}
use happylock.Lockable.Inner.{Inner, IsFaithful, Anything}

-- `RwLock`, as a value.
pub record RwLock (R T : Type 0) : Type 0 where
  pub raw : R
  pub poison : Bool
  pub data_ : T

module _ {R T : Type 0} where
  -- `new`; `R::INIT` is an argument. `From` and `Default` call it.
  unfoldable pub rwlock_new : R → T → RwLock R T
  rwlock_new init data_ = record { raw = init; poison = false; data_ = data_ }

  unfoldable pub rwlock_from : R → T → RwLock R T
  unfolding rwlock_new
  rwlock_from init value = rwlock_new init value

  unfoldable pub rwlock_default : R → T → RwLock R T
  unfolding rwlock_new
  rwlock_default init default = rwlock_new init default

  unfoldable pub rwlock_into_inner : RwLock R T → T
  rwlock_into_inner l = l.data_

  unfoldable pub rwlock_get_mut : RwLock R T → T
  rwlock_get_mut l = l.data_

  unfoldable pub rwlock_as_mut : RwLock R T → T
  rwlock_as_mut l = l.data_

  -- `LockableIntoInner` and `LockableGetMut`
  unfoldable pub rwlock_inner : Inner (RwLock R T) T
  unfolding rwlock_into_inner rwlock_as_mut
  rwlock_inner = record {
    into_inner = rwlock_into_inner;
    get_mut = rwlock_as_mut;
    write_back = λ l v. record l { data_ = v };
  }

  pub rwlock_inner-IsFaithful : IsFaithful rwlock_inner Anything
  unfolding rwlock_inner
  rwlock_inner-IsFaithful = record {
    seen = λ l. refl;
    seen_fits = λ l. tt;
    written = λ l v f. refl;
    unchanged = λ l. refl;
  }
