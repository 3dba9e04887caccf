-- ===== src/Exec.antt =====
-- Running code: src/handle_unwind.rs, and the monad that the other modules write the program in.
--
-- A computation takes a state and returns (`ok`), unwinds with a panic (`panic`), or does not come
-- back (`hang`: it blocks for ever, or the fuel given to a loop ran out). The state survives a
-- panic. `Cell`s that a function declares for itself are a component beside the state, so that
-- what a closure has stored in them is there when it unwinds.

pub data Res {ℓ κ} (S : Type ℓ) (A : Type κ) : Type (ℓ ⊔ κ) where
  ok : A → S → Res S A
  panic : S → Res S A
  hang : Res S A

abbrev pub M {ℓ κ} : Type ℓ → Type κ → Type (ℓ ⊔ κ)
M S A = S → Res S A

abbrev pub ret {ℓ κ} : {S : Type ℓ} {A : Type κ} → A → M S A
ret a s = ok a s

-- What follows a computation runs only if that returned.
abbrev pub and_then {ℓ κ μ} :
    {S : Type ℓ} {A : Type κ} {B : Type μ} → Res S A → (A → M S B) → Res S B
and_then (ok a s) f = f a s
and_then (panic s) f = panic s
and_then hang f = hang

infixl 5 ◌>>=◌ ◌>>◌
abbrev pub ◌>>=◌ {ℓ κ μ} : {S : Type ℓ} {A : Type κ} {B : Type μ} → M S A → (A → M S B) → M S B
◌>>=◌ m f s = and_then (m s) f

abbrev pub ◌>>◌ {ℓ κ} : {S : Type ℓ} {B : Type κ} → M S (Unit {0}) → M S B → M S B
◌>>◌ m k s = and_then (m s) (λ _. k)

abbrev pub throw {ℓ κ} : {S : Type ℓ} {A : Type κ} → M S A
throw s = panic s

-- `resume_unwind` after the clean-up: the panic goes on, whether or not the clean-up panicked.
abbrev pub resume_unwind {ℓ κ} : {S : Type ℓ} {A : Type κ} → Res S (Unit {0}) → Res S A
resume_unwind (ok _ s) = panic s
resume_unwind (panic s) = panic s
resume_unwind hang = hang

abbrev pub on_unwind {ℓ κ} : {S : Type ℓ} {A : Type κ} → Res S A → M S (Unit {0}) → Res S A
on_unwind (ok a s) g = ok a s
on_unwind (panic s) g = resume_unwind (g s)
on_unwind hang g = hang

abbrev pub handle_unwind {ℓ κ} : {S : Type ℓ} {A : Type κ} → M S A → M S (Unit {0}) → M S A
handle_unwind try_fn catch s = on_unwind (try_fn s) catch

-- A computation of the enclosing state, run beside the cells of type `C`.
abbrev pub beside {ℓ κ μ} : {C : Type μ} {S : Type ℓ} {A : Type κ} → C → Res S A → Res (C × S) A
beside c (ok a s) = ok a (c, s)
beside c (panic s) = panic (c, s)
beside c hang = hang

abbrev pub lift {ℓ κ μ} : {C : Type μ} {S : Type ℓ} {A : Type κ} → M S A → M (C × S) A
lift m cs = beside cs.0 (m cs.1)

abbrev pub get_cell {ℓ μ} : {C : Type μ} {S : Type ℓ} → M (C × S) C
get_cell cs = ok cs.0 cs

abbrev pub set_cell {ℓ μ} : {C : Type μ} {S : Type ℓ} → C → M (C × S) (Unit {0})
set_cell c cs = ok tt (c, cs.1)

abbrev pub drop_cell {ℓ κ μ} : {C : Type μ} {S : Type ℓ} {A : Type κ} → Res (C × S) A → Res S A
drop_cell (ok a cs) = ok a cs.1
drop_cell (panic cs) = panic cs.1
drop_cell hang = hang

-- `let cell = Cell::new(c);` in front of a body.
abbrev pub with_cell {ℓ κ μ} : {C : Type μ} {S : Type ℓ} {A : Type κ} → C → M (C × S) A → M S A
with_cell c m s = drop_cell (m (c, s))
