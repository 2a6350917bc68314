-- ===== src/Base/Iterators.antt =====
-- Python's iterators as the code uses them: `next_item` is next(it, None), with the iterator
-- behind it.
use mathlib.Core.Option.{some-injective}
use ee_kernel.Base.{
  ℕ, zero, suc, ◌≡◌, refl, sym, ap, subst, ◌∙◌, Option, none, some, List, [], ◌∷◌, ◌++◌, length,
  get_elem?, set_elem, erase_idx,
}

-- The iterator gives these items, in order, and then ends.
pub data Drains {ℓ κ} {It : Type ℓ} {A : Type κ} (next_item : It → Option (A × It))
    : It → List A → Type (ℓ ⊔ κ) where
  ends : {it : It} → next_item it ≡ none → Drains next_item it []
  gives :
      {it it' : It} {a : A} {xs : List A}
      → next_item it ≡ some (a, it')
      → Drains next_item it' xs
      → Drains next_item it (a ∷ xs)

-- The iterator gives these items, in order, and is the second iterator behind them.
pub data Takes {ℓ κ} {It : Type ℓ} {A : Type κ} (next_item : It → Option (A × It))
    : It → List A → It → Type (ℓ ⊔ κ) where
  stops : {it : It} → Takes next_item it [] it
  takes :
      {it it' it'' : It} {a : A} {xs : List A}
      → next_item it ≡ some (a, it')
      → Takes next_item it' xs it''
      → Takes next_item it (a ∷ xs) it''

module _ {ℓ κ} {It : Type ℓ} {A : Type κ} {next_item : It → Option (A × It)} where
  pub Takes-append :
      {it it' it'' : It} {xs ys : List A}
      → Takes next_item it xs it'
      → Takes next_item it' ys it''
      → Takes next_item it (xs ++ ys) it''
  Takes-append stops t = t
  Takes-append (takes e s) t = takes e (Takes-append s t)

  pub Takes-ends :
      {it it' : It} {xs : List A}
      → Takes next_item it xs it'
      → next_item it' ≡ none
      → Drains next_item it xs
  Takes-ends stops e = ends e
  Takes-ends (takes given t) e = gives given (Takes-ends t e)

  pub Drains-none : {it : It} {xs : List A} → Drains next_item it xs → next_item it ≡ none → xs ≡ []
  Drains-none (ends e) e' = refl
  Drains-none (gives e d) e' = cc

  pub Drains-some :
      {i i' : It} {x : A} {all : List A}
      → Drains next_item i all
      → next_item i ≡ some (x, i')
      → (rest : List A) × (all ≡ x ∷ rest) × Drains next_item i' rest
  Drains-some (ends e) e' = cc
  Drains-some {i} {i'} {x} (gives {it} {it'} {a} {xs} e d) e' =
      let same : (a, it') ≡ (x, i') = some-injective _ _ (sym e ∙ e') in
      (
        xs,
        ap (λ y. y ∷ xs) (ap (λ (p : A × It). p.0) same),
        subst (λ j. Drains next_item j xs) (ap (λ (p : A × It). p.1) same) d,
      )

-- Two lists whose items belong together one by one.
pub data Along {ℓ κ μ} {A : Type ℓ} {B : Type κ} (R : A → B → Type μ)
    : List A → List B → Type (ℓ ⊔ κ ⊔ μ) where
  done : Along R [] []
  both :
      {a : A} {b : B} {xs : List A} {ys : List B}
      → R a b
      → Along R xs ys
      → Along R (a ∷ xs) (b ∷ ys)

module _ {ℓ κ μ} {A : Type ℓ} {B : Type κ} {R : A → B → Type μ} where
  pub Along-get :
      {xs : List A} {ys : List B} (i : ℕ) {x : A}
      → Along R xs ys
      → get_elem? xs i ≡ some x
      → (y : B) × (get_elem? ys i ≡ some y) × R x y
  Along-get i done e = cc
  Along-get zero (both {a} {b} r al) e = (b, refl, subst (λ x. R x b) (some-injective _ _ e) r)
  Along-get (suc i) (both r al) e = Along-get i al e

  pub Along-set :
      {xs : List A} {ys : List B} (i : ℕ) {a : A} {b : B}
      → Along R xs ys
      → R a b
      → Along R (set_elem xs i a) (set_elem ys i b)
  Along-set i done r = done
  Along-set zero (both r al) r' = both r' al
  Along-set (suc i) (both r al) r' = both r (Along-set i al r')

  pub Along-erase :
      {xs : List A} {ys : List B} (i : ℕ)
      → Along R xs ys
      → Along R (erase_idx xs i) (erase_idx ys i)
  Along-erase i done = done
  Along-erase zero (both r al) = al
  Along-erase (suc i) (both r al) = both r (Along-erase i al)

  pub Along-length : {xs : List A} {ys : List B} → Along R xs ys → length xs ≡ length ys
  Along-length done = refl
  Along-length (both r al) = ap suc (Along-length al)
