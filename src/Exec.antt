-- ===== src/Exec.antt =====
-- Go code that changes a state and may return early: an action maps the state to a result and the
-- state that it leaves. What was written before an early return stays written.
pub mod Respects
use clawgard.Prelude.{Bool, true, false}

pub data Result {ℓ κ} (E : Type ℓ) (A : Type κ) : Type (ℓ ⊔ κ) where
  ok : A → Result E A
  err : E → Result E A

abbrev pub Exec : Type 0 → Type 0 → Type 0 → Type 0
Exec E S A = S → Result E A × S

module _ {E S A : Type 0} where
  abbrev pub pure : A → Exec E S A
  pure a s = (ok a, s)

  -- `return` before the end of the function
  abbrev pub leave : E → Exec E S A
  leave e s = (err e, s)

  abbrev pub reads : (S → A) → Exec E S A
  reads f s = (ok (f s), s)

module _ {E S A B : Type 0} where
  abbrev pub resume : Result E A → (A → Exec E S B) → Exec E S B
  resume (ok a) f s = f a s
  resume (err e) f s = (err e, s)

  infixl 10 ◌>>=◌ ◌>>◌
  unfoldable pub ◌>>=◌ : Exec E S A → (A → Exec E S B) → Exec E S B
  ◌>>=◌ m f s = let (r, s') = m s in resume r f s'

  abbrev pub ◌>>◌ : Exec E S A → Exec E S B → Exec E S B
  m >> n = m >>= λ _. n

-- `if !b { return e }`
abbrev pub guard : {E S : Type 0} → Bool → E → Exec E S (Unit {0})
guard true e s = (ok tt, s)
guard false e s = (err e, s)
