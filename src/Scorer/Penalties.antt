-- ===== src/Scorer/Penalties.antt =====
-- The six counters of `score`, and what they add up to.
use ee_kernel.Base.{ℕ, ◌+◌, ◌*◌, ◌^◌}

pub record Penalties : Type 0 where
  pub stack : ℕ
  pub branch : ℕ
  pub regalloc : ℕ
  pub reordering : ℕ
  pub insertion : ℕ
  pub deletion : ℕ

abbrev pub penalty_inf : ℕ
penalty_inf = 10 ^ 9

abbrev penalty_stackdiff : ℕ
penalty_stackdiff = 1

abbrev penalty_branchdiff : ℕ
penalty_branchdiff = 1

abbrev penalty_regalloc : ℕ
penalty_regalloc = 5

abbrev penalty_reordering : ℕ
penalty_reordering = 60

abbrev penalty_insertion : ℕ
penalty_insertion = 100

abbrev penalty_deletion : ℕ
penalty_deletion = 100

unfoldable pub final_score : Penalties → ℕ
final_score p =
    p.stack * penalty_stackdiff
    + p.branch * penalty_branchdiff
    + p.regalloc * penalty_regalloc
    + p.reordering * penalty_reordering
    + p.insertion * penalty_insertion
    + p.deletion * penalty_deletion
