-- ===== src/Perm/Tree.antt =====
-- The Perm classes of perm/perm.py, one constructor for each class below RootPerm.
use ee_kernel.Base.{
  ℕ, suc, ◌+◌, ◌*◌, Bool, true, false, ◌&&◌, ◌||◌, ◌∷◌, Result, ok, err, assertion_error, ◌==◌,
  if◌then◌else◌, Text,
}
use ee_kernel.Base.Int.{ℤ, leb_ℤ, distance}
use ee_kernel.Perm.Shuffle.{factorial}

-- `children` of the classes that hold a list is a `PermList`. A OncePerm is compared by identity,
-- so it carries the number of its allocation. A VarPerm with one child reads its variable, and one
-- with two writes it. An IntPerm holds `low` and `perm_count`.
mutual
  pub data Perm : Type 0 where
    text_perm : Text → Perm
    ignore_perm : Perm → Perm
    pretend_perm : Perm → Perm
    combine_perm : PermList → Perm
    randomizer_perm : Perm → Perm
    force_sameline_perm : Perm → Perm
    general_perm : PermList → Perm
    once_perm : ℕ → Text → Perm → Perm
    var_read : Perm → Perm
    var_write : Perm → Perm → Perm
    line_swap_perm : PermList → Perm
    line_swap_ast_perm : PermList → Perm
    int_perm : ℤ → ℕ → Perm

  pub data PermList : Type 0 where
    nil : PermList
    cons : Perm → PermList → PermList

unfoldable pub size_list : PermList → ℕ
size_list nil = 0
size_list (cons p ps) = suc (size_list ps)

-- `perm_count` as each constructor sets it, with `_count_all` and `_count_either`.
unfoldable mutual
  pub perm_count : Perm → ℕ
  perm_count (text_perm t) = 1
  perm_count (ignore_perm p) = perm_count p
  perm_count (pretend_perm p) = perm_count p
  perm_count (combine_perm ps) = count_all ps
  perm_count (randomizer_perm p) = perm_count p
  perm_count (force_sameline_perm p) = perm_count p
  perm_count (general_perm ps) = count_either ps
  perm_count (once_perm id key p) = perm_count p
  perm_count (var_read name) = perm_count name * 1
  perm_count (var_write name value) = perm_count name * (perm_count value * 1)
  perm_count (line_swap_perm ps) = factorial (size_list ps) * count_all ps
  perm_count (line_swap_ast_perm ps) = factorial (size_list ps) * count_all ps
  perm_count (int_perm low n) = n

  pub count_all : PermList → ℕ
  count_all nil = 1
  count_all (cons p ps) = perm_count p * count_all ps

  pub count_either : PermList → ℕ
  count_either nil = 0
  count_either (cons p ps) = perm_count p + count_either ps

unfoldable mutual
  pub is_random : Perm → Bool
  is_random (text_perm t) = false
  is_random (ignore_perm p) = is_random p || false
  is_random (pretend_perm p) = is_random p || false
  is_random (combine_perm ps) = any_random ps
  is_random (randomizer_perm p) = true
  is_random (force_sameline_perm p) = is_random p || false
  is_random (general_perm ps) = any_random ps
  is_random (once_perm id key p) = is_random p || false
  is_random (var_read name) = is_random name || false
  is_random (var_write name value) = is_random name || is_random value || false
  is_random (line_swap_perm ps) = any_random ps
  is_random (line_swap_ast_perm ps) = any_random ps
  is_random (int_perm low n) = false

  pub any_random : PermList → Bool
  any_random nil = false
  any_random (cons p ps) = is_random p || any_random ps

-- text.replace("(,)", ","), the comma escape of TextPerm.__init__
unfoldable pub unescape_commas : Text → Text
unescape_commas (a ∷ b ∷ c ∷ rest) =
    let escaped = b',' ∷ unescape_commas rest in
    let other = a ∷ unescape_commas (b ∷ c ∷ rest) in
    if a == b'(' && b == b',' && c == b')' then escaped else other
unescape_commas t = t

-- TextPerm(text)
unfoldable pub make_text : Text → Perm
unfolding unescape_commas
make_text text = text_perm (unescape_commas text)

-- IntPerm(low, high)
unfoldable pub make_int : ℤ → ℤ → Result Perm
make_int low high =
    if leb_ℤ low high then ok (int_perm low (suc (distance low high))) else err assertion_error
