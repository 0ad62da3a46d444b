-- ===== src/Deque/Progress.antt =====
-- How long a call of the owner of src/work_stealing_deque.h can still take: the loops of
-- `try_acquire`, `grow_into`, `shrink` and `perhaps_shrink`, and the accesses between them.
pub mod Sizes
pub mod Lower
pub mod Stays
pub mod Runs
use lock_free_deque.Prelude.{ℕ, suc, ◌+◌, ◌-◌, List, Option, none, some}
use lock_free_deque.Prelude.Int.{ℤ, pos, ◌-ℤ◌, pos_part, to_u64}
use lock_free_deque.Deque.State.{SizeClassRange, OwnerPc, Machine}
use lock_free_deque.Deque.State.OwnerPc.{
  idle, push_start, push_refresh, push_acquire, push_copy, push_publish, push_store, push_bottom,
  pop_start, pop_refresh, pop_empty, pop_load, pop_cas, pop_won, pop_lost, shrink_start,
  shrink_copy, shrink_publish, shrink_shift, shrink_snapshot, shrink_cas, shrink_restore,
  shrink_release, fault,
}
use lock_free_deque.Deque.Owner.{find_range}
use lock_free_deque.Deque.System.{
  owner_moves, push_called, pop_called, thief_moves, steal_called, other_claims, other_uses,
  other_returns, Reach, here, next,
}

-- The records of a size class.
abbrev pub class_count : Option SizeClassRange → ℕ
class_count none = 0
class_count (some range) = range.count

module _ {A : Type 0} where
  abbrev pub log_sizes : Machine A → ℕ → ℕ
  log_sizes s r = (s.arrays r).log_size

  -- The steps that the owner's call has left, at most, by where it stands.
  abbrev pub steps_left :
      List SizeClassRange → (ℕ → ℕ) → (active : ℕ) (bottom : ℤ) (top : ℕ) → OwnerPc A → ℕ
  steps_left ranges sizes active bottom top idle = 0
  steps_left ranges sizes active bottom top fault = 0
  steps_left ranges sizes active bottom top (push_start x) =
      7 + (to_u64 bottom - top) + class_count (find_range ranges (sizes active + 1))
  steps_left ranges sizes active bottom top (push_refresh x b a) =
      6 + (to_u64 b - top) + class_count (find_range ranges (sizes a + 1))
  steps_left ranges sizes active bottom top (push_acquire x b t a i left) =
      5 + (to_u64 b - t) + left
  steps_left ranges sizes active bottom top (push_copy x b a d i) = 4 + (to_u64 b - i)
  steps_left ranges sizes active bottom top (push_publish x b d) = 3
  steps_left ranges sizes active bottom top (push_store x b a) = 2
  steps_left ranges sizes active bottom top (push_bottom x b) = 1
  steps_left ranges sizes active bottom top pop_start =
      11 + sizes active + (pos_part (bottom -ℤ pos 1) - top)
  steps_left ranges sizes active bottom top (pop_refresh b a) =
      10 + sizes active + (pos_part b - top)
  steps_left ranges sizes active bottom top (pop_empty t) = 1
  steps_left ranges sizes active bottom top (pop_load b t a) = 9 + sizes active + (to_u64 b - t)
  steps_left ranges sizes active bottom top (pop_cas x t) = 2
  steps_left ranges sizes active bottom top (pop_won x t) = 1
  steps_left ranges sizes active bottom top (pop_lost t) = 1
  steps_left ranges sizes active bottom top (shrink_start x b t) = 8 + sizes active + (to_u64 b - t)
  steps_left ranges sizes active bottom top (shrink_copy x b a d i) = 7 + sizes a + (to_u64 b - i)
  steps_left ranges sizes active bottom top (shrink_publish x b a d) = 6 + sizes a
  steps_left ranges sizes active bottom top (shrink_shift x b a d) = 5 + sizes a
  steps_left ranges sizes active bottom top (shrink_snapshot x b a d) = 4 + sizes a
  steps_left ranges sizes active bottom top (shrink_cas x b a d snapshot) = 3 + sizes a
  steps_left ranges sizes active bottom top (shrink_restore x b a d) = 2 + sizes a
  steps_left ranges sizes active bottom top (shrink_release x c d) = 1 + sizes c

  abbrev pub left : Machine A → ℕ
  left s = steps_left s.ranges (log_sizes s) s.active s.bottom s.top s.owner

  -- The turns that the owner gets in a run.
  abbrev pub owner_turns : {s s' : Machine A} → Reach s s' → ℕ
  owner_turns here = 0
  owner_turns (next reach owner_moves) = suc (owner_turns reach)
  owner_turns (next reach (push_called x e)) = owner_turns reach
  owner_turns (next reach (pop_called e)) = owner_turns reach
  owner_turns (next reach (thief_moves i)) = owner_turns reach
  owner_turns (next reach (steal_called i e)) = owner_turns reach
  owner_turns (next reach (other_claims r e)) = owner_turns reach
  owner_turns (next reach (other_uses r c e same)) = owner_turns reach
  owner_turns (next reach (other_returns r e)) = owner_turns reach

  -- The calls that the owner begins in a run.
  abbrev pub owner_calls : {s s' : Machine A} → Reach s s' → ℕ
  owner_calls here = 0
  owner_calls (next reach (push_called x e)) = suc (owner_calls reach)
  owner_calls (next reach (pop_called e)) = suc (owner_calls reach)
  owner_calls (next reach owner_moves) = owner_calls reach
  owner_calls (next reach (thief_moves i)) = owner_calls reach
  owner_calls (next reach (steal_called i e)) = owner_calls reach
  owner_calls (next reach (other_claims r e)) = owner_calls reach
  owner_calls (next reach (other_uses r c e same)) = owner_calls reach
  owner_calls (next reach (other_returns r e)) = owner_calls reach
