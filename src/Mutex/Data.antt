-- ===== src/Mutex/Data.antt =====
-- The constructors of src/mutex/mutex.rs and its access to the data without locking.
use happylock.Base.{refl, Bool, false}
use happylock.Lockable.Inner.{Inner, IsFaithful, Anything}

-- `Mutex`, as a value.
pub record Mutex (R T : Type 0) : Type 0 where
  pub raw : R
  pub poison : Bool
  pub data_ : T

module _ {R T : Type 0} where
  -- `new`; `R::INIT` is an argument. `From` and `Default` call it.
  unfoldable pub mutex_new : R → T → Mutex R T
  mutex_new init data_ = record { raw = init; poison = false; data_ = data_ }

  unfoldable pub mutex_from : R → T → Mutex R T
  unfolding mutex_new
  mutex_from init value = mutex_new init value

  unfoldable pub mutex_default : R → T → Mutex R T
  unfolding mutex_new
  mutex_default init default = mutex_new init default

  unfoldable pub mutex_into_inner : Mutex R T → T
  mutex_into_inner m = m.data_

  unfoldable pub mutex_get_mut : Mutex R T → T
  mutex_get_mut m = m.data_

  unfoldable pub mutex_as_mut : Mutex R T → T
  unfolding mutex_get_mut
  mutex_as_mut m = mutex_get_mut m

  -- `LockableIntoInner` and `LockableGetMut`
  unfoldable pub mutex_inner : Inner (Mutex R T) T
  unfolding mutex_into_inner mutex_get_mut
  mutex_inner = record {
    into_inner = mutex_into_inner;
    get_mut = mutex_get_mut;
    write_back = λ m v. record m { data_ = v };
  }

  pub mutex_inner-IsFaithful : IsFaithful mutex_inner Anything
  unfolding mutex_inner
  mutex_inner-IsFaithful = record {
    seen = λ l. refl;
    seen_fits = λ l. tt;
    written = λ l v f. refl;
    unchanged = λ l. refl;
  }
