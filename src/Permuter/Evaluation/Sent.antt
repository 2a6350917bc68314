-- ===== src/Permuter/Evaluation/Sent.antt =====
-- Which sources an evaluation in a child process sends.
use ee_kernel.Base.{◌≡◌, refl, Bool, true, false, ◌||◌, some, ok}
use ee_kernel.Permuter.State.{CandidateResult, Options, Permuter}
use ee_kernel.Permuter.Output.{should_output}
use ee_kernel.Permuter.Output.Ahead.{IsAhead, should_output_liberal}
use ee_kernel.Permuter.Evaluation.{finish, sent}

needed-right : (a b : Bool) → b ≡ true → (a || b) ≡ true
needed-right true b h = refl
needed-right false b h = h

-- A result that a parent process would output, one that has seen all that the child has seen, is
-- sent with its source and its hash.
pub finish_sends :
    {Candidate : Type 0} (options : Options) (parent p : Permuter Candidate)
    (result : CandidateResult)
    → IsAhead parent p
    → should_output options parent result ≡ true
    → finish options p result ≡ (record p { last_score = some result.score }, ok result)
unfolding finish sent
finish_sends options parent p result ahead out =
    let child = record p { last_score = some result.score } in
    let same : IsAhead parent child = record { best = ahead.best; hashes = ahead.hashes } in
    let needed =
      needed-right options.need_all_sources (should_output options child result)
        (should_output_liberal options parent child result same out) in
    rw needed refl
