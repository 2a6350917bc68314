-- ===== src/Perm/Parse/Total.antt =====
-- The fuel of `_rec_perm_parse` of perm/parse.py.
use ee_kernel.Base.{ℕ, zero, suc, ◌<◌, ◌≤◌, arith, Option-cases, inl, inr, Text, [], ◌∷◌, length}
use ee_kernel.Base.Outcome.{Outcome, returns, raises, Outcome-bind}
use ee_kernel.Perm.Split.{Found, macro_search}
use ee_kernel.Perm.Split.Search.{behind-shorter}
use ee_kernel.Perm.Tree.{PermList, nil, cons, make_text}
use ee_kernel.Perm.Complete.{IsPositive, AllPositive}
use ee_kernel.Perm.Parse.{Parser, find_macro, parse_macro, parse_loop, combine, rec_perm_parse}
use ee_kernel.Perm.Parse.Fueled.{IsProperError, Finishes, consume-Finishes}
use ee_kernel.Perm.Parse.Factories.{IsGood, factory-ParsesWell}

module _ (bound : ℕ) (parse : Parser) (good : IsGood bound parse) where
  parse_macro-Finishes :
      (found : Found) (n : ℕ)
      → length found.behind ≤ bound
      → Finishes
          (λ (p, remain, n'). IsPositive p × (length remain < length found.behind))
          (parse_macro parse found n)
  unfolding parse_macro
  parse_macro-Finishes found n lt = elim (Option-cases (find_macro found.perm_type)) [
    | inl unknown ↦ rw (unknown, parse_macro) (raises (λ e. cc))
    | inr (macro, known) ↦
        rw (known, parse_macro)
          (Outcome-bind (consume-Finishes found.behind) λ (args, remain) shorter.
            Outcome-bind (factory-ParsesWell bound parse good macro args n (omega arith))
              λ (p, n') pos. returns (pos, shorter.1))
  ]

  parse_loop-Finishes :
      (rounds : ℕ) (s : Text) (n : ℕ)
      → length s ≤ rounds
      → length s ≤ bound
      → Finishes (λ (ps, n'). AllPositive ps) (parse_loop parse rounds s n)
  unfolding parse_loop AllPositive IsPositive make_text
  parse_loop-Finishes rounds [] n lt lt' = returns tt
  parse_loop-Finishes zero (c ∷ s) n lt lt' = absurd (omega arith)
  parse_loop-Finishes (suc rounds) (c ∷ s) n lt lt' = elim (Option-cases (macro_search (c ∷ s))) [
    | inl nothing ↦ rw (nothing, parse_loop) (returns (tt, tt))
    | inr (found, match) ↦
        let shorter = behind-shorter (c ∷ s) found match in
        rw (match, parse_loop)
          (Outcome-bind (parse_macro-Finishes found n (omega arith)) λ (p, remain, n') r.
            Outcome-bind (parse_loop-Finishes rounds remain n' (omega arith) (omega arith))
              λ (ps, n'') pos. returns (tt, (r.0, pos)))
  ]

combine-IsPositive : (ps : PermList) → AllPositive ps → IsPositive (combine ps)
unfolding combine AllPositive
combine-IsPositive nil h = tt
combine-IsPositive (cons p nil) h = h.0
combine-IsPositive (cons p (cons q ps)) h = h

rec_perm_parse-IsGood : (fuel : ℕ) → IsGood fuel (rec_perm_parse fuel)
unfolding rec_perm_parse
rec_perm_parse-IsGood zero text n lt = absurd (omega arith)
rec_perm_parse-IsGood (suc fuel) text n lt =
    Outcome-bind
      (parse_loop-Finishes fuel (rec_perm_parse fuel) (rec_perm_parse-IsGood fuel) (length text)
        text n (omega arith) (omega arith))
      λ (ps, n') pos. returns (combine-IsPositive ps pos)

-- With a unit of fuel for each character and one more, parsing returns a tree whose every
-- PERM_GENERAL has a candidate and every PERM_INT a number, or raises an error of the program.
pub rec_perm_parse_total :
    (fuel : ℕ) (text : Text) (n : ℕ)
    → length text < fuel
    → Outcome (λ (p, n'). IsPositive p) IsProperError (rec_perm_parse fuel text n)
rec_perm_parse_total = rec_perm_parse-IsGood
