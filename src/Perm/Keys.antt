-- ===== src/Perm/Keys.antt =====
-- The keys of a tree's PERM_ONCE macros, and dictionaries that have them all.
use ee_kernel.Base.{
  ◌≡◌, some, Dict, lookup, insert, lookup-insert, Text, text_eq, text_eq_refl, Bool-cases, inl, inr,
}
use ee_kernel.Perm.Tree.{
  Perm, PermList, text_perm, ignore_perm, pretend_perm, combine_perm, randomizer_perm,
  force_sameline_perm, general_perm, once_perm, var_read, var_write, line_swap_perm,
  line_swap_ast_perm, int_perm, nil, cons,
}

abbrev pub HasKey : {V : Type 0} → Text → Dict V → Type 0
HasKey {V} key d = (v : V) × (lookup key d ≡ some v)

pub HasKey-insert_self : {V : Type 0} (k : Text) (v : V) (d : Dict V) → HasKey k (insert k v d)
HasKey-insert_self k v d = (v, simp (lookup-insert, text_eq_refl))

pub HasKey-insert :
    {V : Type 0} (j k : Text) (v : V) (d : Dict V) → HasKey j d → HasKey j (insert k v d)
HasKey-insert j k v d (w, found) = elim (Bool-cases (text_eq k j)) [
  | inl same ↦ (v, rw (lookup-insert k j v d, same))
  | inr other ↦ (w, rw (lookup-insert k j v d, other) found)
]

-- The dictionary has every key that the tree's PERM_ONCE macros name.
unfoldable mutual
  pub HasChoices : {V : Type 0} → Perm → Dict V → Type 0
  HasChoices (ignore_perm p) choices = HasChoices p choices
  HasChoices (pretend_perm p) choices = HasChoices p choices
  HasChoices (combine_perm ps) choices = AllHaveChoices ps choices
  HasChoices (randomizer_perm p) choices = HasChoices p choices
  HasChoices (force_sameline_perm p) choices = HasChoices p choices
  HasChoices (general_perm ps) choices = AllHaveChoices ps choices
  HasChoices (once_perm id key p) choices = HasKey key choices × HasChoices p choices
  HasChoices (var_read p) choices = HasChoices p choices
  HasChoices (var_write p q) choices = HasChoices p choices × HasChoices q choices
  HasChoices (line_swap_perm ps) choices = AllHaveChoices ps choices
  HasChoices (line_swap_ast_perm ps) choices = AllHaveChoices ps choices
  HasChoices _ choices = Unit

  pub AllHaveChoices : {V : Type 0} → PermList → Dict V → Type 0
  AllHaveChoices nil choices = Unit
  AllHaveChoices (cons p ps) choices = HasChoices p choices × AllHaveChoices ps choices

mutual
  unfolding HasChoices

  pub HasChoices-imp :
      {V W : Type 0} (d : Dict V) (d' : Dict W)
      → ((k : Text) → HasKey k d → HasKey k d')
      → (p : Perm) → HasChoices p d
      → HasChoices p d'
  HasChoices-imp d d' f (text_perm t) h = tt
  HasChoices-imp d d' f (ignore_perm p) h = HasChoices-imp d d' f p h
  HasChoices-imp d d' f (pretend_perm p) h = HasChoices-imp d d' f p h
  HasChoices-imp d d' f (combine_perm ps) h = AllHaveChoices-imp d d' f ps h
  HasChoices-imp d d' f (randomizer_perm p) h = HasChoices-imp d d' f p h
  HasChoices-imp d d' f (force_sameline_perm p) h = HasChoices-imp d d' f p h
  HasChoices-imp d d' f (general_perm ps) h = AllHaveChoices-imp d d' f ps h
  HasChoices-imp d d' f (once_perm id key p) h = (f key h.0, HasChoices-imp d d' f p h.1)
  HasChoices-imp d d' f (var_read p) h = HasChoices-imp d d' f p h
  HasChoices-imp d d' f (var_write p q) h =
      (HasChoices-imp d d' f p h.0, HasChoices-imp d d' f q h.1)
  HasChoices-imp d d' f (line_swap_perm ps) h = AllHaveChoices-imp d d' f ps h
  HasChoices-imp d d' f (line_swap_ast_perm ps) h = AllHaveChoices-imp d d' f ps h
  HasChoices-imp d d' f (int_perm low n) h = tt

  pub AllHaveChoices-imp :
      {V W : Type 0} (d : Dict V) (d' : Dict W)
      → ((k : Text) → HasKey k d → HasKey k d')
      → (ps : PermList) → AllHaveChoices ps d
      → AllHaveChoices ps d'
  AllHaveChoices-imp d d' f nil h = tt
  AllHaveChoices-imp d d' f (cons p ps) h =
      (HasChoices-imp d d' f p h.0, AllHaveChoices-imp d d' f ps h.1)
