-- ===== src/Base/Outcome.antt =====
-- What a call may return and what it may raise, with the rule for a sequence of calls.
use ee_kernel.Base.{◌≡◌, subst, Result, ok, err, Error, ◌>>=◌}

-- `P` holds of what is returned, and `E` of what is raised.
pub data Outcome {ℓ κ} {A : Type ℓ} (P : A → Type κ) (E : Error → Type 0)
    : Result A → Type (ℓ ⊔ κ) where
  returns : {a : A} → P a → Outcome P E (ok a)
  raises : {e : Error} → E e → Outcome P E (err e)

module _ {ℓ κ} {A : Type ℓ} {P : A → Type κ} {E : Error → Type 0} where
  pub Outcome-ok : {r : Result A} {a : A} → Outcome P E r → r ≡ ok a → P a
  Outcome-ok (returns h) e = subst P (cc) h
  Outcome-ok (raises h) e = cc

  pub Outcome-err : {r : Result A} {x : Error} → Outcome P E r → r ≡ err x → E x
  Outcome-err (returns h) e = cc
  Outcome-err (raises h) e = subst E (cc) h

  pub Outcome-bind {ℓ' κ'} :
      {B : Type ℓ'} {Q : B → Type κ'} {r : Result A} {f : A → Result B}
      → Outcome P E r
      → ((a : A) → P a → Outcome Q E (f a))
      → Outcome Q E (r >>= f)
  Outcome-bind (returns {a} h) k = k a h
  Outcome-bind (raises h) k = raises h

module _ {ℓ κ} {A : Type ℓ} {P Q : A → Type κ} {E : Error → Type 0} where
  pub Outcome-imp : {r : Result A} → ((a : A) → P a → Q a) → Outcome P E r → Outcome Q E r
  Outcome-imp k (returns {a} h) = returns (k a h)
  Outcome-imp k (raises h) = raises h
