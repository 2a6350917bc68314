-- ===== src/Net/Data/RoundTrip.antt =====
-- PermuterData of net/core.py through JSON.
use ee_kernel.Base.{◌≡◌, refl, true, none, some, [], Text, lit, text_eq, Dict, lookup, ok}
use ee_kernel.Base.Outcome.{Outcome, returns, Outcome-bind}
use ee_kernel.Helpers.Json.{Json, bool, str, obj, end, json_prop, is_instance}
use ee_kernel.Helpers.Typed.{
  IsParseError, int_prop, str_prop, bool_prop, float_prop, dict_prop, to_int, to_str, to_bool,
  from_float, to_dict, of_floats, floats-of_floats, entries-props, int_prop-Parses, str_prop-Parses,
  bool_prop-Parses, float_prop-Parses, dict_prop-Parses, floats-Parses,
}
use ee_kernel.Net.Data.{PermuterData, permuter_data_from_json, permuter_data_to_json}

-- What the permuter's JSON form is parsed to is the permuter, with its source and object file.
pub permuter_data_from_json-permuter_data_to_json :
    (perm : PermuterData)
    → permuter_data_from_json (permuter_data_to_json perm) perm.source perm.target_o_bin ≡ ok perm
unfolding permuter_data_from_json permuter_data_to_json int_prop str_prop bool_prop float_prop
    dict_prop json_prop is_instance to_int to_str to_bool from_float to_dict lookup text_eq
permuter_data_from_json-permuter_data_to_json perm = simp (
  entries-props (of_floats perm.randomization_weights),
  floats-of_floats perm.randomization_weights,
)

-- Parsing any JSON object gives a permuter with the source and the object file that came with it, or
-- raises a ValueError, or an OverflowError as float() does for a huge integer.
pub permuter_data_from_json-Outcome :
    (o : Dict Json) (source target_o_bin : Text)
    → Outcome
        (λ (p : PermuterData). (p.source ≡ source) × (p.target_o_bin ≡ target_o_bin))
        IsParseError
        (permuter_data_from_json o source target_o_bin)
unfolding permuter_data_from_json
permuter_data_from_json-Outcome o source target =
    Outcome-bind (int_prop-Parses o (lit "base_score")) λ _ _.
      Outcome-bind (str_prop-Parses o (lit "base_hash") none) λ _ _.
        Outcome-bind (str_prop-Parses o (lit "fn_name") none) λ _ _.
          Outcome-bind (str_prop-Parses o (lit "filename") none) λ _ _.
            Outcome-bind (float_prop-Parses o (lit "keep_prob")) λ _ _.
              Outcome-bind (bool_prop-Parses o (lit "need_profiler") none) λ _ _.
                Outcome-bind (bool_prop-Parses o (lit "stack_differences") none) λ _ _.
                  Outcome-bind (str_prop-Parses o (lit "algorithm") none) λ _ _.
                    Outcome-bind (str_prop-Parses o (lit "compile_script") none) λ _ _.
                      Outcome-bind
                        (dict_prop-Parses o (lit "randomization_weights") (some (obj end)))
                        λ weights _. Outcome-bind (floats-Parses weights) λ _ _.
                          Outcome-bind
                            (bool_prop-Parses o (lit "ign_branch_targets") (some (bool true)))
                            λ _ _.
                              Outcome-bind
                                (str_prop-Parses o (lit "objdump_command") (some (str [])))
                                λ _ _. returns (refl, refl)
