-- ===== src/Net/Evaluator/Available.antt =====
-- The main process of net/evaluator.py with its workers: the work that they have not finished, and
-- the permuters that they look up for it.
use ee_kernel.Base.{
  ℕ, ◌+◌, ◌≤◌, ◌≡◌, refl, sym, ap, subst, ◌∙◌, inl, inr, arith, Bool, true, false, ◌&&◌,
  Option-cases, some, List, [], ◌∷◌, ◌++◌, length, length-append, All, Text, text_eq, text_eq_iff,
  text_eq_refl, Dict, lookup, insert, lookup-insert, Result, ok, if◌then◌else◌, delete,
  lookup-delete,
}
use ee_kernel.Base.Int.{ℤ, pos, minus, add_ℕ}
use ee_kernel.Net.Server.{handle_eq}
use ee_kernel.Net.Server.Balance.{handle_eq_iff}
use ee_kernel.Net.Evaluator.{
  Built, LocalTask, add_local, remove_local, Evaluator, text_in, remaining, remove_now, try_remove,
  obey,
}
use ee_kernel.Net.Evaluator.Log.{
  replay, has, IsTimed, IsPresent, replay_snoc, IsTimed-snoc, IsPresent-snoc, IsPresent-now,
}

-- The work that has been given to the workers and has not come back, each with the timestamp.
abbrev pub Pending : Type 0
Pending = List (Text × ℕ)

-- How much of it is for a permuter.
unfoldable pub pending_of : Text → Pending → ℕ
pending_of p [] = 0
pending_of p ((q, t) ∷ pending) = (if text_eq q p then 1 else 0) + pending_of p pending

abbrev pub IsHeld : Dict Built → List (LocalTask × ℕ) → Text × ℕ → Type 0
IsHeld permuters log (p, t) = (has p permuters ≡ true) × (t ≤ length log) × IsPresent p t 0 [] log

-- The workers have been told of every change, and what is pending can be done at any of them.
abbrev pub IsLogged : List (LocalTask × ℕ) → Dict Built → ℕ → Pending → Type 0
IsLogged log permuters timestamp pending =
    (timestamp ≡ length log)
    × IsTimed 0 log
    × (replay [] log ≡ permuters)
    × All (IsHeld permuters log) pending

abbrev pub IsCounted : Dict ℤ → Pending → Type 0
IsCounted counts pending = (p : Text) → remaining p counts ≡ pos (pending_of p pending)

abbrev pub IsConsistent : Evaluator → Pending → Type 0
IsConsistent s pending =
    IsLogged s.local_queue s.permuters s.timestamp pending × IsCounted s.remaining_work pending

abbrev pub StaysFor : LocalTask → Dict Built → Text × ℕ → Type 0
StaysFor task permuters (p, t) = has p (obey task permuters) ≡ true

IsHeld-told :
    (permuters : Dict Built) (log : List (LocalTask × ℕ)) (task : LocalTask) (at : ℕ)
    (pending : Pending)
    → replay [] log ≡ permuters
    → All (IsHeld permuters log) pending
    → All (StaysFor task permuters) pending
    → All (IsHeld (obey task permuters) (log ++ (task, at) ∷ [])) pending
IsHeld-told permuters log task at [] e h k = tt
IsHeld-told permuters log task at ((p, t) ∷ pending) e h k = (
  (
    k.0,
    omega (arith, h.0.1, length-append log ((task, at) ∷ [])),
    IsPresent-snoc p t 0 [] log task at h.0.2 (rw e k.0),
  ),
  IsHeld-told permuters log task at pending e h.1 k.1,
)

pub told :
    (permuters : Dict Built) (log : List (LocalTask × ℕ)) (task : LocalTask) (timestamp : ℕ)
    (pending : Pending)
    → IsLogged log permuters timestamp pending
    → All (StaysFor task permuters) pending
    → IsLogged (log ++ (task, timestamp + 1) ∷ []) (obey task permuters) (timestamp + 1) pending
told permuters log task timestamp pending (clock, timed, replayed, held) stays = (
  omega (arith, clock, length-append log ((task, timestamp + 1) ∷ [])),
  subst (λ n. IsTimed 0 (log ++ (task, n) ∷ [])) (omega (arith, clock))
      (IsTimed-snoc 0 log task timed),
  replay_snoc [] log task (timestamp + 1) ∙ ap (obey task) replayed,
  IsHeld-told permuters log task (timestamp + 1) pending replayed held stays,
)

pub add_stays :
    (q : Text) (perm : Built) (permuters : Dict Built) (log : List (LocalTask × ℕ))
    (pending : Pending)
    → All (IsHeld permuters log) pending
    → All (StaysFor (add_local q perm) permuters) pending
unfolding obey
add_stays q perm permuters log [] h = tt
add_stays q perm permuters log ((p, t) ∷ pending) h = (
  ground (arith, lookup-insert q p perm permuters, h.0.0),
  add_stays q perm permuters log pending h.1,
)

remove_stays :
    (q : Text) (permuters : Dict Built) (log : List (LocalTask × ℕ)) (pending : Pending)
    → pending_of q pending ≡ 0
    → All (IsHeld permuters log) pending
    → All (StaysFor (remove_local q) permuters) pending
unfolding obey pending_of
remove_stays q permuters log [] e h = tt
remove_stays q permuters log ((p, t) ∷ pending) e h = (
  ground (arith, lookup-delete q p permuters, text_eq_iff p q, text_eq_iff q p, h.0.0, e),
  remove_stays q permuters log pending (omega (arith, e)) h.1,
)

pub remaining-delete :
    (q : Text) (counts : Dict ℤ) (pending : Pending)
    → pending_of q pending ≡ 0
    → IsCounted counts pending
    → IsCounted (delete q counts) pending
unfolding remaining
remaining-delete q counts pending e counted p =
    ground (arith, lookup-delete q p counts, text_eq_iff q p, counted p, e)

remove_now-IsConsistent :
    (q : Text) (perm : Built) (s : Evaluator) (pending : Pending)
    → pending_of q pending ≡ 0
    → IsConsistent s pending
    → IsConsistent (remove_now q perm s) pending
unfolding remove_now obey
remove_now-IsConsistent q perm s pending e (logged, counted) = (
  told s.permuters s.local_queue (remove_local q) s.timestamp pending logged
      (remove_stays q s.permuters s.local_queue pending e logged.3),
  remaining-delete q s.remaining_work pending e counted,
)

no_pending :
    (q : Text) (counts : Dict ℤ) (pending : Pending)
    → IsCounted counts pending
    → handle_eq (remaining q counts) (pos 0) ≡ true
    → pending_of q pending ≡ 0
no_pending q counts pending counted e =
    let same = (handle_eq_iff (remaining q counts) (pos 0)).0 e in cc (counted q, same)

-- What is left of the state after try_remove has looked.
abbrev tried : Text → Built → Evaluator → Bool → Evaluator
tried q perm s now = if now then remove_now q perm s else s

try_remove-some :
    (q : Text) (s : Evaluator) (perm : Built)
    → lookup q s.permuters ≡ some perm
    → try_remove q s ≡ (
      tried q perm s
          (text_in q s.should_remove && handle_eq (remaining q s.remaining_work) (pos 0)),
      ok tt,
    )
unfolding try_remove
try_remove-some q s perm e = ground arith

tried-IsConsistent :
    (q : Text) (perm : Built) (s : Evaluator) (pending : Pending) (now : Bool)
    → (now ≡ true → pending_of q pending ≡ 0)
    → IsConsistent s pending
    → IsConsistent (tried q perm s now) pending
tried-IsConsistent q perm s pending true e c = remove_now-IsConsistent q perm s pending (e refl) c
tried-IsConsistent q perm s pending false e c = c

pub try_remove-IsConsistent :
    (q : Text) (s : Evaluator) (pending : Pending)
    → has q s.permuters ≡ true
    → IsConsistent s pending
    → IsConsistent (try_remove q s).0 pending × ((try_remove q s).1 ≡ ok tt)
try_remove-IsConsistent q s pending there c = elim (Option-cases (lookup q s.permuters)) [
  | inl none_there ↦ cc (none_there, there)
  | inr (perm, found) ↦
      subst (λ (r : Evaluator × Result (Unit {0})). IsConsistent r.0 pending × (r.1 ≡ ok tt))
        (sym (try_remove-some q s perm found))
        (
          tried-IsConsistent q perm s pending _
              (λ now. no_pending q s.remaining_work pending c.1 (ground arith)) c,
          refl,
        )
]

pub IsLogged-start :
    (permuters : Dict Built) (log : List (LocalTask × ℕ)) (q : Text) (timestamp : ℕ)
    (pending : Pending)
    → has q permuters ≡ true
    → IsLogged log permuters timestamp pending
    → IsLogged log permuters timestamp ((q, timestamp) ∷ pending)
IsLogged-start permuters log q timestamp pending there (clock, timed, replayed, held) = (
  clock,
  timed,
  replayed,
  (
    (
      there,
      omega (arith, clock),
      IsPresent-now q timestamp 0 [] log (omega (arith, clock)) (rw replayed there),
    ),
    held,
  ),
)

pub IsHeld-finish :
    (permuters : Dict Built) (log : List (LocalTask × ℕ)) (before after : Pending) (x : Text × ℕ)
    → All (IsHeld permuters log) (before ++ x ∷ after)
    → IsHeld permuters log x × All (IsHeld permuters log) (before ++ after)
IsHeld-finish permuters log [] after x h = h
IsHeld-finish permuters log (b ∷ before) after x h =
    let (one, rest) = IsHeld-finish permuters log before after x h.1 in (one, (h.0, rest))

pending_of_finish :
    (p q : Text) (t : ℕ) (before after : Pending)
    → pending_of p (before ++ (q, t) ∷ after)
      ≡ (if text_eq q p then 1 else 0) + pending_of p (before ++ after)
unfolding pending_of
pending_of_finish p q t [] after = refl
pending_of_finish p q t ((b, k) ∷ before) after =
    omega (arith, pending_of_finish p q t before after)

pub IsCounted-start :
    (q : Text) (t : ℕ) (counts : Dict ℤ) (pending : Pending)
    → IsCounted counts pending
    → IsCounted (insert q (add_ℕ (remaining q counts) 1) counts) ((q, t) ∷ pending)
unfolding remaining pending_of add_ℕ
IsCounted-start q t counts pending counted p = ground (
  arith,
  lookup-insert q p (add_ℕ (remaining q counts) 1) counts,
  text_eq_iff q p,
  counted p,
  counted q,
)

pub IsCounted-finish :
    (q : Text) (t : ℕ) (counts : Dict ℤ) (before after : Pending)
    → IsCounted counts (before ++ (q, t) ∷ after)
    → IsCounted (insert q (minus (remaining q counts) (pos 1)) counts) (before ++ after)
unfolding remaining minus
IsCounted-finish q t counts before after counted p = ground (
  arith,
  lookup-insert q p (minus (remaining q counts) (pos 1)) counts,
  text_eq_iff q p,
  text_eq_refl q,
  counted p,
  counted q,
  pending_of_finish p q t before after,
  pending_of_finish q q t before after,
)
