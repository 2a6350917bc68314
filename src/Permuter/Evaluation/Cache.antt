-- ===== src/Permuter/Evaluation/Cache.antt =====
-- `_score_for_source` of permuter.py, the remembered scores.
use ee_kernel.Base.{
  ℕ, ◌≤◌, ◌≡◌, refl, sym, ap, ◌∙◌, arith, Bool, true, false, Bool-cases, inl, inr, ◌&&◌, Text,
  text_eq, text_eq_iff, Option, none, some, Result, ok, err, Dict, lookup, insert, lookup-insert,
  insert-grows, length, ltb, ltb→lt,
}
use mathlib.Core.Option.{some-injective}
use ee_kernel.Perm.State.{EvalState}
use ee_kernel.Perm.Tree.{is_random}
use ee_kernel.Permuter.State.{CandidateResult, Options, Permuter}
use ee_kernel.Permuter.Evaluation.{
  Calls, Draws, no_file, next, set_candidate, set_seed, keep_or, obtain, randomize, remember,
  set_score, score_source, score_candidate, finish, sent, eval_candidate,
}

module _ {Candidate : Type 0} where
  -- An invariant of the permuter that holds whatever a stage raises, and a property of its result.
  abbrev pub Post {ℓ κ} :
      {A : Type ℓ}
      → (Permuter Candidate → Type 0)
      → (Permuter Candidate → A → Type κ)
      → Permuter Candidate × Result A
      → Type κ
  Post I Q (p, err e) = I p × Unit
  Post I Q (p, ok a) = I p × Q p a

  next-Post {ℓ ℓ' κ} :
      {A : Type ℓ} {B : Type ℓ'} {I : Permuter Candidate → Type 0}
      {Q : Permuter Candidate → A → Type κ} (R : Permuter Candidate → B → Type κ)
      (r : Permuter Candidate × Result A)
      (f : Permuter Candidate → A → Permuter Candidate × Result B)
      → Post I Q r
      → ((p : Permuter Candidate) (a : A) → I p → Q p a → Post I R (f p a))
      → Post I R (next r f)
  unfolding next
  next-Post R (p, err e) f h k = h
  next-Post R (p, ok a) f h k = k p a h.0 h.1

score-sent : (b : Bool) (r : CandidateResult) → (sent b r).score ≡ r.score
unfolding sent
score-sent true r = refl
score-sent false r = refl

module _ {Candidate : Type 0} (calls : Calls Candidate) where
  abbrev pub IsRight : Dict ℕ → Type 0
  IsRight d =
      (source : Text) (n : ℕ)
      → lookup (calls.digest source) d ≡ some n
      → (hash : Text) × (calls.score (calls.compile source) ≡ ok (n, hash))

  -- What is remembered for a source is the score of its compilation, and there are not too many.
  pub record IsCache (p : Permuter Candidate) : Type 0 where
    pub right : IsRight p.score_for_source
    pub small : length p.score_for_source ≤ 100000

  -- The candidate is the permuter's.
  abbrev IsCurrent : Permuter Candidate → Candidate → Type 0
  IsCurrent p c = p.cur_cand ≡ some c

  -- The score is what the compilation of the current candidate scores.
  abbrev pub IsScored : Permuter Candidate → CandidateResult → Type 0
  IsScored p r =
      (c : Candidate) × (hash : Text) × (p.cur_cand ≡ some c)
      × (calls.score (calls.compile (calls.get_source c)) ≡ ok (r.score, hash))

  set_candidate-Post :
      (p : Permuter Candidate) (r : Result Candidate)
      → IsCache p
      → Post IsCache IsCurrent (set_candidate p r)
  unfolding set_candidate
  set_candidate-Post p (err e) h = (h, tt)
  set_candidate-Post p (ok c) h = (record { right = h.right; small = h.small }, refl)

  set_seed-Post :
      (seed rng_seed : ℕ) (p : Permuter Candidate) (r : Result (Text × EvalState))
      → IsCache p
      → Post IsCache IsCurrent (set_seed calls seed rng_seed p r)
  unfolding set_seed
  set_seed-Post seed rng_seed p (err e) h = (h, tt)
  set_seed-Post seed rng_seed p (ok (t, s)) h =
      set_candidate-Post (record p { cur_seed = some (seed, rng_seed) })
        (calls.from_source t s rng_seed) (record { right = h.right; small = h.small })

  keep_or-Post :
      (keep : Bool) (o : Option Candidate) (p : Permuter Candidate)
      (new : Permuter Candidate × Result Candidate)
      → p.cur_cand ≡ o
      → IsCache p
      → Post IsCache IsCurrent new
      → Post IsCache IsCurrent (keep_or keep o p new)
  unfolding keep_or
  keep_or-Post keep none p new e h k = k
  keep_or-Post true (some c) p new e h k = (h, e)
  keep_or-Post false (some c) p new e h k = k

  obtain-Post :
      (options : Options) (draws : Draws) (keep : Bool) (seed : ℕ) (p : Permuter Candidate)
      → IsCache p
      → Post IsCache IsCurrent (obtain calls options draws keep seed p)
  unfolding obtain
  obtain-Post options draws keep seed p h =
      keep_or-Post keep p.cur_cand p _ refl h (set_seed-Post seed _ p _ h)

  randomize-Post :
      (options : Options) (p : Permuter Candidate) (c : Candidate)
      → IsCache p
      → IsCurrent p c
      → Post IsCache IsCurrent (randomize calls options p c)
  unfolding randomize
  randomize-Post options p c h cur = elim (Bool-cases (is_random options.permutations.inner)) [
    | inl random ↦ rw random (set_candidate-Post p (calls.randomize_ast c) h)
    | inr fixed ↦ rw fixed (h, cur)
  ]

  module _ (no_collision : (s t : Text) → calls.digest s ≡ calls.digest t → s ≡ t) where
    remember-IsRight :
        (source hash : Text) (n : ℕ) (d : Dict ℕ)
        → calls.score (calls.compile source) ≡ ok (n, hash)
        → IsRight d
        → IsRight (insert (calls.digest source) n d)
    remember-IsRight source hash n d e h other m found =
        elim (Bool-cases (text_eq (calls.digest source) (calls.digest other))) [
          | inl same ↦
              let equal = no_collision source other ((text_eq_iff _ _).0 same) in
              let value = some-injective n m (
                rw (lookup-insert (calls.digest source) (calls.digest other) n d, same) at found) in
              (hash, rw (← equal, ← value) e)
          | inr new ↦
              h other m
                (rw (lookup-insert (calls.digest source) (calls.digest other) n d, new) at found)
        ]

    remember-IsCache :
        (source hash : Text) (n : ℕ) (p : Permuter Candidate)
        → calls.score (calls.compile source) ≡ ok (n, hash)
        → IsCache p
        → IsCache (remember (calls.digest source) n p)
    unfolding remember
    remember-IsCache source hash n p e h =
        elim (Bool-cases (ltb (length p.score_for_source) 100000)) [
          | inr full ↦ rw full h
          | inl room ↦
              let fewer = ltb→lt (length p.score_for_source) 100000 room in
              rw room record {
                right = remember-IsRight source hash n p.score_for_source e h.right;
                small =
                    omega (arith, fewer, insert-grows (calls.digest source) n p.score_for_source);
              }
        ]

    cur_cand-remember :
        (key : Text) (n : ℕ) (p : Permuter Candidate) → (remember key n p).cur_cand ≡ p.cur_cand
    unfolding remember
    cur_cand-remember key n p = ground arith

    set_score-Post :
        (c : Candidate) (p : Permuter Candidate) (r : Result (ℕ × Text))
        → calls.score (calls.compile (calls.get_source c)) ≡ r
        → IsCache p
        → IsCurrent p c
        → Post IsCache IsScored
            (set_score (calls.get_source c) (calls.digest (calls.get_source c)) p r)
    unfolding set_score
    set_score-Post c p (err x) e h cur = (h, tt)
    set_score-Post c p (ok (n, hash)) e h cur = (
      remember-IsCache (calls.get_source c) hash n p e h,
      (c, hash, cur_cand-remember _ n p ∙ cur, e),
    )

    score_source-Post :
        (options : Options) (o : Option ℕ) (c : Candidate) (p : Permuter Candidate)
        → lookup (calls.digest (calls.get_source c)) p.score_for_source ≡ o
        → IsCache p
        → IsCurrent p c
        → Post IsCache IsScored (score_source calls options o (calls.get_source c) p)
    unfolding score_source
    score_source-Post options (some n) c p found h cur =
        let (hash, e) = h.right (calls.get_source c) n found in (h, (c, hash, cur, e))
    score_source-Post options none c p found h cur =
        elim (Bool-cases (no_file (calls.compile (calls.get_source c)) && options.show_errors)) [
          | inl failed ↦ rw failed (h, tt)
          | inr scored ↦ rw scored (set_score-Post c p _ refl h cur)
        ]

    finish-Post :
        (options : Options) (p : Permuter Candidate) (r : CandidateResult)
        → IsCache p
        → IsScored p r
        → Post IsCache IsScored (finish options p r)
    unfolding finish
    finish-Post options p r h (c, hash, cur, e) = (
      record { right = h.right; small = h.small },
      (c, hash, cur, e ∙ ap (λ n. ok (n, hash)) (sym (score-sent _ r))),
    )

    -- If no two sources have one digest, and what is remembered is the scores of compilations and at
    -- most 100000 of them, then so it is behind an evaluation, whatever that raises, and a score
    -- that it returns is the score of the current candidate's compilation, also where no compiler
    -- ran.
    pub eval_candidate_scores :
        (options : Options) (draws : Draws) (seed : ℕ) (p : Permuter Candidate)
        → IsCache p
        → Post IsCache IsScored (eval_candidate calls options draws seed p)
    unfolding eval_candidate score_candidate
    eval_candidate_scores options draws seed p h =
        next-Post IsScored _ _
          (obtain-Post options draws _ seed (record p { last_score = none })
            (record { right = h.right; small = h.small }))
          λ p1 c h1 cur1.
            next-Post IsScored _ _ (randomize-Post options p1 c h1 cur1) λ p2 c' h2 cur2.
              next-Post IsScored _ _ (score_source-Post options _ c' p2 refl h2 cur2)
                λ p3 r h3 scored. finish-Post options p3 r h3 scored
