-- ===== src/Perm/Root/Preprocess.antt =====
-- `preprocess` of perm/perm.py: the keys of the tree and their options.
use ee_kernel.Base.{
  All, length-append, text_eq, ℕ, ◌<◌, arith, lookup, insert, Text, List, [], ◌∷◌, length,
  Bool-cases, inl, inr,
}
use ee_kernel.Perm.Tree.{
  Perm, PermList, text_perm, ignore_perm, pretend_perm, combine_perm, randomizer_perm,
  force_sameline_perm, general_perm, once_perm, var_read, var_write, line_swap_perm,
  line_swap_ast_perm, int_perm, nil, cons,
}
use ee_kernel.Perm.Keys.{
  HasKey, HasKey-insert, HasKey-insert_self, HasChoices, AllHaveChoices, HasChoices-imp,
}
use ee_kernel.Perm.Root.{options_of, OnceOptions, add_option, preprocess, preprocess_all}

-- What every new option keeps, preprocessing keeps.
module _ (P : OnceOptions → Type 0)
    (keep : (k : Text) (id : ℕ) (d : OnceOptions) → P d → P (add_option k id d)) where
  mutual
    unfolding preprocess

    pub preprocess_inv : (p : Perm) (d : OnceOptions) → P d → P (preprocess p d)
    preprocess_inv (text_perm t) d h = h
    preprocess_inv (ignore_perm p) d h = preprocess_inv p d h
    preprocess_inv (pretend_perm p) d h = preprocess_inv p d h
    preprocess_inv (combine_perm ps) d h = preprocess_all_inv ps d h
    preprocess_inv (randomizer_perm p) d h = preprocess_inv p d h
    preprocess_inv (force_sameline_perm p) d h = preprocess_inv p d h
    preprocess_inv (general_perm ps) d h = preprocess_all_inv ps d h
    preprocess_inv (once_perm id key p) d h = preprocess_inv p _ (keep key id d h)
    preprocess_inv (var_read p) d h = preprocess_inv p d h
    preprocess_inv (var_write p q) d h = preprocess_inv q _ (preprocess_inv p d h)
    preprocess_inv (line_swap_perm ps) d h = preprocess_all_inv ps d h
    preprocess_inv (line_swap_ast_perm ps) d h = preprocess_all_inv ps d h
    preprocess_inv (int_perm low n) d h = h

    pub preprocess_all_inv : (ps : PermList) (d : OnceOptions) → P d → P (preprocess_all ps d)
    preprocess_all_inv nil d h = h
    preprocess_all_inv (cons p ps) d h = preprocess_all_inv ps _ (preprocess_inv p d h)

add_option-keeps :
    (j k : Text) (id : ℕ) (d : OnceOptions) → HasKey j d → HasKey j (add_option k id d)
unfolding add_option
add_option-keeps j k id d h = HasKey-insert j k _ d h

-- Preprocessing loses no key, and finds every key of the tree.
preprocess-keeps : (k : Text) (p : Perm) (d : OnceOptions) → HasKey k d → HasKey k (preprocess p d)
preprocess-keeps k = preprocess_inv (HasKey k) (add_option-keeps k)

preprocess_all-keeps :
    (k : Text) (ps : PermList) (d : OnceOptions) → HasKey k d → HasKey k (preprocess_all ps d)
preprocess_all-keeps k = preprocess_all_inv (HasKey k) (add_option-keeps k)

mutual
  unfolding preprocess add_option HasChoices

  pub preprocess-HasChoices : (p : Perm) (d : OnceOptions) → HasChoices p (preprocess p d)
  preprocess-HasChoices (text_perm t) d = tt
  preprocess-HasChoices (ignore_perm p) d = preprocess-HasChoices p d
  preprocess-HasChoices (pretend_perm p) d = preprocess-HasChoices p d
  preprocess-HasChoices (combine_perm ps) d = preprocess_all-HasChoices ps d
  preprocess-HasChoices (randomizer_perm p) d = preprocess-HasChoices p d
  preprocess-HasChoices (force_sameline_perm p) d = preprocess-HasChoices p d
  preprocess-HasChoices (general_perm ps) d = preprocess_all-HasChoices ps d
  preprocess-HasChoices (once_perm id key p) d =
      (preprocess-keeps key p _ (HasKey-insert_self key _ d), preprocess-HasChoices p _)
  preprocess-HasChoices (var_read p) d = preprocess-HasChoices p d
  preprocess-HasChoices (var_write p q) d = (
    HasChoices-imp _ _ (λ k. preprocess-keeps k q (preprocess p d)) p (preprocess-HasChoices p d),
    preprocess-HasChoices q (preprocess p d),
  )
  preprocess-HasChoices (line_swap_perm ps) d = preprocess_all-HasChoices ps d
  preprocess-HasChoices (line_swap_ast_perm ps) d = preprocess_all-HasChoices ps d
  preprocess-HasChoices (int_perm low n) d = tt

  preprocess_all-HasChoices :
      (ps : PermList) (d : OnceOptions) → AllHaveChoices ps (preprocess_all ps d)
  preprocess_all-HasChoices nil d = tt
  preprocess_all-HasChoices (cons p ps) d = (
    HasChoices-imp _ _ (λ k. preprocess_all-keeps k ps (preprocess p d)) p
        (preprocess-HasChoices p d),
    preprocess_all-HasChoices ps (preprocess p d),
  )

-- Every key has an option.
abbrev pub HaveOptions : OnceOptions → Type 0
HaveOptions = All (λ (key, options). 0 < length options)

insert-HaveOptions :
    (k : Text) (options : List ℕ) (d : OnceOptions)
    → 0 < length options
    → HaveOptions d
    → HaveOptions (insert k options d)
unfolding insert
insert-HaveOptions k options [] lt h = (lt, tt)
insert-HaveOptions k options ((j, o) ∷ d) lt h = elim (Bool-cases (text_eq j k)) [
  | inl same ↦ rw same (lt, h.1)
  | inr other ↦ rw other (h.0, insert-HaveOptions k options d lt h.1)
]

add_option-HaveOptions :
    (k : Text) (id : ℕ) (d : OnceOptions) → HaveOptions d → HaveOptions (add_option k id d)
unfolding add_option
add_option-HaveOptions k id d =
    insert-HaveOptions k _ d (omega (arith, length-append (options_of (lookup k d)) (id ∷ [])))

pub preprocess-HaveOptions : (p : Perm) → HaveOptions (preprocess p [])
preprocess-HaveOptions p = preprocess_inv HaveOptions add_option-HaveOptions p [] tt
