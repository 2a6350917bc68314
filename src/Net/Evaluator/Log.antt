-- ===== src/Net/Evaluator/Log.antt =====
-- What a worker of net/evaluator.py knows behind a part of its local queue.
use ee_kernel.Base.{
  ℕ, suc, ◌+◌, ◌-◌, ◌≤◌, ◌≡◌, refl, subst, inl, inr, arith, Bool, true, ◌||◌, Bool-cases, Option,
  none, some, is_some, List, [], ◌∷◌, ◌++◌, length, Text, Dict, lookup, ltb, ltb→lt,
}
use ee_kernel.Net.Evaluator.{Built, LocalTask, obey, catch_up}

-- The permuters of a worker that has taken these tasks.
unfoldable pub replay : Dict Built → List (LocalTask × ℕ) → Dict Built
replay permuters [] = permuters
replay permuters ((task, at) ∷ log) = replay (obey task permuters) log

abbrev pub has : Text → Dict Built → Bool
has perm_id permuters = is_some (lookup perm_id permuters)

-- The tasks carry the timestamps behind `ts`, one after the other.
abbrev pub IsTimed : ℕ → List (LocalTask × ℕ) → Type 0
IsTimed ts [] = Unit
IsTimed ts ((task, at) ∷ log) = (at ≡ suc ts) × IsTimed (suc ts) log

-- A permuter is there at every point of the log from the timestamp on.
abbrev pub IsPresent : Text → (required ts : ℕ) → Dict Built → List (LocalTask × ℕ) → Type 0
IsPresent p required ts permuters [] = required ≤ ts → has p permuters ≡ true
IsPresent p required ts permuters ((task, at) ∷ log) =
    (required ≤ ts → has p permuters ≡ true)
    × IsPresent p required (suc ts) (obey task permuters) log

pub replay_snoc :
    (d : Dict Built) (log : List (LocalTask × ℕ)) (task : LocalTask) (at : ℕ)
    → replay d (log ++ (task, at) ∷ []) ≡ obey task (replay d log)
unfolding replay
replay_snoc d [] task at = refl
replay_snoc d ((t, k) ∷ log) task at = replay_snoc (obey t d) log task at

pub IsTimed-snoc :
    (ts : ℕ) (log : List (LocalTask × ℕ)) (task : LocalTask)
    → IsTimed ts log
    → IsTimed ts (log ++ (task, ts + length log + 1) ∷ [])
IsTimed-snoc ts [] task h = omega arith
IsTimed-snoc ts ((t, k) ∷ log) task h = (
  h.0,
  subst (λ n. IsTimed (suc ts) (log ++ (task, n) ∷ [])) (omega arith)
      (IsTimed-snoc (suc ts) log task h.1),
)

module _ (p : Text) (required : ℕ) where
  pub IsPresent-snoc :
      (ts : ℕ) (d : Dict Built) (log : List (LocalTask × ℕ)) (task : LocalTask) (at : ℕ)
      → IsPresent p required ts d log
      → has p (obey task (replay d log)) ≡ true
      → IsPresent p required ts d (log ++ (task, at) ∷ [])
  unfolding replay
  IsPresent-snoc ts d [] task at h there = (h, λ le. there)
  IsPresent-snoc ts d ((t, k) ∷ log) task at h there =
      (h.0, IsPresent-snoc (suc ts) (obey t d) log task at h.1 there)

  pub IsPresent-now :
      (ts : ℕ) (d : Dict Built) (log : List (LocalTask × ℕ))
      → required ≡ ts + length log
      → has p (replay d log) ≡ true
      → IsPresent p required ts d log
  unfolding replay
  IsPresent-now ts d [] e there = λ le. there
  IsPresent-now ts d ((t, k) ∷ log) e there =
      (λ le. absurd (omega (arith, e)), IsPresent-now (suc ts) (obey t d) log (omega arith) there)

  pub IsPresent-later :
      (ts : ℕ) (d : Dict Built) (seen queue : List (LocalTask × ℕ))
      → IsPresent p required ts d (seen ++ queue)
      → IsPresent p required (ts + length seen) (replay d seen) queue
  unfolding replay
  IsPresent-later ts d [] queue h = subst (λ n. IsPresent p required n d queue) (omega arith) h
  IsPresent-later ts d ((t, k) ∷ seen) queue h =
      subst (λ n. IsPresent p required n (replay (obey t d) seen) queue) (omega arith)
        (IsPresent-later (suc ts) (obey t d) seen queue h.1)

  -- A worker that catches up does not block forever, and finds the permuter.
  abbrev pub Finds : Option (Dict Built × ℕ × List (LocalTask × ℕ)) → Type 0
  Finds none = ⊥
  Finds (some (permuters, ts, queue)) = has p permuters ≡ true

  pub catch_up-Finds :
      (visible ts : ℕ) (queue : List (LocalTask × ℕ)) (d : Dict Built)
      → IsTimed ts queue
      → IsPresent p required ts d queue
      → required ≤ ts + length queue
      → Finds (catch_up required visible ts queue d)
  unfolding catch_up
  catch_up-Finds visible ts [] d timed h le = elim (Bool-cases (ltb ts required)) [
    | inl behind ↦ absurd (omega (arith, ltb→lt ts required behind))
    | inr done ↦ rw done (h (omega arith))
  ]
  catch_up-Finds visible ts ((task, at) ∷ queue) d timed h le =
      elim (Bool-cases (ltb ts required || ltb 0 visible)) [
        | inl on ↦ rw on (
            rw timed.0
              (catch_up-Finds (visible - 1) (suc ts) queue (obey task d) timed.1 h.1 (omega arith)))
        | inr done ↦ rw done (h.0 (ground arith))
      ]

pub IsTimed-later :
    (ts : ℕ) (seen queue : List (LocalTask × ℕ))
    → IsTimed ts (seen ++ queue)
    → IsTimed (ts + length seen) queue
IsTimed-later ts [] queue h = subst (λ n. IsTimed n queue) (omega arith) h
IsTimed-later ts ((t, k) ∷ seen) queue h =
    subst (λ n. IsTimed n queue) (omega arith) (IsTimed-later (suc ts) seen queue h.1)
