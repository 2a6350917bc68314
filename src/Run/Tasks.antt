-- ===== src/Run/Tasks.antt =====
-- get_task of main.py: the next task for the local workers, or for a connection.
pub mod Handed
pub mod Turns
pub mod Ends
use ee_kernel.Base.{
  ℕ, zero, suc, ◌+◌, ◌-◌, ◌%◌, Option, none, some, List, map, length, get_elem?, set_elem, Result,
  ok, err, ◌==◌, if◌then◌else◌, index_error, out_of_fuel,
}

-- seed_iterators, seed_iterators_remaining and next_iterator_index. An iterator that has ended is
-- None.
pub record Feeding (It : Type 0) : Type 0 where
  pub seed_iterators : List (Option It)
  pub seed_iterators_remaining : ℕ
  pub next_iterator_index : ℕ

-- (permuter index, seed)
abbrev pub Task : Type 0
Task = ℕ × ℕ

module _ {It : Type 0} where
  -- seed_iterators, before the first task
  unfoldable pub feeding : List It → Feeding It
  feeding iterators = record {
    seed_iterators = map some iterators;
    seed_iterators_remaining = length iterators;
    next_iterator_index = 0;
  }

  -- next_iterator_index += 1, and its remainder
  unfoldable pub advance : Feeding It → Feeding It
  advance f = record f {
    next_iterator_index = (f.next_iterator_index + 1) % length f.seed_iterators;
  }

  -- The turns of the while loop behind a call of get_task
  unfoldable pub then_turn :
      Feeding It × Result (Option Task)
      → (Feeding It → Feeding It × Result (Option Task))
      → Feeding It × Result (Option Task)
  unfolding advance
  then_turn (f, err e) more = (f, err e)
  then_turn (f, ok (some task)) more = (advance f, ok (some task))
  then_turn (f, ok none) more = more (advance f)

  module _ (next_seed : It → Option (ℕ × It)) where
    -- get_task for the seed iterator of one permuter
    unfoldable pub take_seed :
        ℕ → Feeding It → Option (Option It) → Feeding It × Result (Option Task)
    take_seed perm_index f none = (f, err index_error)
    take_seed perm_index f (some none) = (f, ok none)
    take_seed perm_index f (some (some it)) = elim (next_seed it) [
      | none ↦ (
        record f {
          seed_iterators = set_elem f.seed_iterators perm_index none;
          seed_iterators_remaining = f.seed_iterators_remaining - 1;
        },
        ok none,
      )
      | some (seed, it') ↦ (
        record f { seed_iterators = set_elem f.seed_iterators perm_index (some it') },
        ok (some (perm_index, seed)),
      )
    ]

    unfoldable pub get_task_of : ℕ → Feeding It → Feeding It × Result (Option Task)
    unfolding take_seed
    get_task_of perm_index f = take_seed perm_index f (get_elem? f.seed_iterators perm_index)

    -- get_task(-1), in at most n turns of its loop
    unfoldable pub get_task_any : ℕ → Feeding It → Feeding It × Result (Option Task)
    unfolding then_turn get_task_of
    get_task_any zero f =
        if f.seed_iterators_remaining == 0 then (f, ok none) else (f, err out_of_fuel)
    get_task_any (suc n) f =
        if f.seed_iterators_remaining == 0
        then (f, ok none)
        else then_turn (get_task_of f.next_iterator_index f) (get_task_any n)

    -- get_task, where none is -1
    unfoldable pub get_task : Option ℕ → Feeding It → Feeding It × Result (Option Task)
    unfolding get_task_any
    get_task none f = get_task_any (length f.seed_iterators) f
    get_task (some perm_index) f = get_task_of perm_index f
