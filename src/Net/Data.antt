-- ===== src/Net/Data.antt =====
-- PermuterData of net/core.py, what a client sends of a permuter, and its JSON form.
pub mod RoundTrip
use ee_kernel.Base.{Bool, true, none, some, [], ◌∷◌, Text, lit, Dict, Result, ok, ◌>>=◌}
use ee_kernel.Base.Int.{ℤ}
use ee_kernel.Helpers.Json.{Float, Json, bool, int, float, str, obj, end, entry, entries, props}
use ee_kernel.Helpers.Typed.{
  int_prop, str_prop, bool_prop, float_prop, dict_prop, floats, of_floats,
}

pub record PermuterData : Type 0 where
  pub base_score : ℤ
  pub base_hash : Text
  pub fn_name : Text
  pub filename : Text
  pub keep_prob : Float
  pub need_profiler : Bool
  pub stack_differences : Bool
  pub algorithm : Text
  pub randomization_weights : Dict Float
  pub compile_script : Text
  pub source : Text
  pub target_o_bin : Text
  pub ign_branch_targets : Bool
  pub objdump_command : Text

unfoldable pub permuter_data_from_json : Dict Json → Text → Text → Result PermuterData
unfolding int_prop str_prop bool_prop float_prop dict_prop floats
permuter_data_from_json o source target_o_bin = do
  base_score ← int_prop o (lit "base_score")
  base_hash ← str_prop o (lit "base_hash") none
  fn_name ← str_prop o (lit "fn_name") none
  filename ← str_prop o (lit "filename") none
  keep_prob ← float_prop o (lit "keep_prob")
  need_profiler ← bool_prop o (lit "need_profiler") none
  stack_differences ← bool_prop o (lit "stack_differences") none
  algorithm ← str_prop o (lit "algorithm") none
  compile_script ← str_prop o (lit "compile_script") none
  weights ← dict_prop o (lit "randomization_weights") (some (obj end))
  randomization_weights ← floats weights
  ign_branch_targets ← bool_prop o (lit "ign_branch_targets") (some (bool true))
  objdump_command ← str_prop o (lit "objdump_command") (some (str []))
  ok (record {
    base_score = base_score;
    base_hash = base_hash;
    fn_name = fn_name;
    filename = filename;
    keep_prob = keep_prob;
    need_profiler = need_profiler;
    stack_differences = stack_differences;
    algorithm = algorithm;
    randomization_weights = randomization_weights;
    compile_script = compile_script;
    source = source;
    target_o_bin = target_o_bin;
    ign_branch_targets = ign_branch_targets;
    objdump_command = objdump_command;
  })

unfoldable pub permuter_data_to_json : PermuterData → Dict Json
permuter_data_to_json perm =
    (lit "base_score", int perm.base_score)
    ∷ (lit "base_hash", str perm.base_hash)
    ∷ (lit "fn_name", str perm.fn_name)
    ∷ (lit "filename", str perm.filename)
    ∷ (lit "keep_prob", float perm.keep_prob)
    ∷ (lit "need_profiler", bool perm.need_profiler)
    ∷ (lit "stack_differences", bool perm.stack_differences)
    ∷ (lit "algorithm", str perm.algorithm)
    ∷ (lit "randomization_weights", obj (props (of_floats perm.randomization_weights)))
    ∷ (lit "compile_script", str perm.compile_script)
    ∷ (lit "ign_branch_targets", bool perm.ign_branch_targets)
    ∷ (lit "objdump_command", str perm.objdump_command)
    ∷ []
