-- ===== src/Perm/Root.antt =====
-- RootPerm of perm/perm.py: the PERM_ONCE macros of the tree, grouped by their keys.
pub mod Preprocess
pub mod Choices
use ee_kernel.Base.{
  ℕ, ◌*◌, ◌==◌, if◌then◌else◌, Text, List, [], ◌∷◌, ◌++◌, Dict, lookup, insert, Option, some, none,
  Result, ok, err, ◌>>=◌, exception, index_error, length, get_elem?,
}
use ee_kernel.Perm.Tree.{
  Perm, PermList, text_perm, ignore_perm, pretend_perm, combine_perm, randomizer_perm,
  force_sameline_perm, general_perm, once_perm, var_read, var_write, line_swap_perm,
  line_swap_ast_perm, int_perm, nil, cons, perm_count,
}
use ee_kernel.Perm.State.{EvalState, divmod}
use ee_kernel.Perm.Evaluate.{evaluate}

-- PreprocessState.once_options: the allocation numbers of the OncePerms of each key.
abbrev pub OnceOptions : Type 0
OnceOptions = Dict (List ℕ)

abbrev pub options_of : Option (List ℕ) → List ℕ
options_of none = []
options_of (some ids) = ids

-- state.once_options[key].append(self), on a defaultdict(list)
unfoldable pub add_option : Text → ℕ → OnceOptions → OnceOptions
add_option key id options = insert key (options_of (lookup key options) ++ id ∷ []) options

-- preprocess, over the children in order
unfoldable mutual
  pub preprocess : Perm → OnceOptions → OnceOptions
  preprocess (text_perm t) options = options
  preprocess (ignore_perm p) options = preprocess p options
  preprocess (pretend_perm p) options = preprocess p options
  preprocess (combine_perm ps) options = preprocess_all ps options
  preprocess (randomizer_perm p) options = preprocess p options
  preprocess (force_sameline_perm p) options = preprocess p options
  preprocess (general_perm ps) options = preprocess_all ps options
  preprocess (once_perm id key p) options = preprocess p (add_option key id options)
  preprocess (var_read p) options = preprocess p options
  preprocess (var_write p q) options = preprocess q (preprocess p options)
  preprocess (line_swap_perm ps) options = preprocess_all ps options
  preprocess (line_swap_ast_perm ps) options = preprocess_all ps options
  preprocess (int_perm low n) options = options

  pub preprocess_all : PermList → OnceOptions → OnceOptions
  preprocess_all nil options = options
  preprocess_all (cons p ps) options = preprocess_all ps (preprocess p options)

pub record RootPerm : Type 0 where
  pub inner : Perm
  pub once_options : OnceOptions
  pub root_count : ℕ

-- The loop of __init__ over the keys: the product of the numbers of options.
unfoldable pub count_options : OnceOptions → ℕ → Result ℕ
count_options [] count = ok count
count_options ((key, options) ∷ rest) count =
    let go_on = count_options rest (count * length options) in
    if length options == 1 then err exception else go_on

-- RootPerm(inner)
unfoldable pub make_root : Perm → Result RootPerm
unfolding count_options
make_root inner =
    let options = preprocess inner [] in
    count_options options (perm_count inner) >>= λ count.
    ok (record { inner = inner; once_options = options; root_count = count })

-- options[choice]; an index past the end is an IndexError, which divmod rules out.
unfoldable pub pick : List ℕ → ℕ → Result ℕ
pick options choice = elim (get_elem? options choice) [ none ↦ err index_error | some id ↦ ok id ]

-- The loop of RootPerm.evaluate: what is left of the seed, and the choices.
unfoldable pub choose : OnceOptions → ℕ → Dict ℕ → Result (ℕ × Dict ℕ)
choose [] seed choices = ok (seed, choices)
choose ((key, options) ∷ rest) seed choices = divmod seed (length options) >>= λ (seed', choice).
    pick options choice >>= λ id. choose rest seed' (insert key id choices)

-- RootPerm.evaluate
unfoldable pub evaluate_root : RootPerm → ℕ → EvalState → Result (Text × EvalState)
unfolding choose
evaluate_root root seed state =
    choose root.once_options seed state.once_choices >>= λ (seed', choices).
    evaluate root.inner seed' (record state { once_choices = choices })
