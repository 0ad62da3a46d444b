-- ===== src/Deque/WaitFree.antt =====
-- `steal` of src/work_stealing_deque.h has no loop: what its thread does is bounded.
mod Owner
use lock_free_deque.Prelude.{
  ℕ, zero, suc, ◌+◌, ◌*◌, ◌%◌, ◌≤◌, ◌≡◌, ◌≢◌, refl, sym, subst, Bool, true, false, if◌then◌else◌,
  ◌==◌, ◌&&◌, Option, none, some, ltb, update, update_self, update_ne, arith,
}
use native.Mathlib.Decide.{ℕ_discrete}
use lock_free_deque.Prelude.Int.{ℤ, pos, ◌-ℤ◌, pos_part, is_positive, to_u64}
use lock_free_deque.CircularArray.{size, load}
use lock_free_deque.StealResult.{StealState, PushResult, of_state, of_value}
use lock_free_deque.Deque.State.{SizeClassRange, OwnerPc, ThiefPc, Machine}
use lock_free_deque.Deque.State.OwnerPc.{
  push_refresh, push_acquire, push_copy, pop_cas, pop_won, pop_lost, shrink_start, shrink_copy,
  shrink_cas, shrink_restore, shrink_release,
}
use lock_free_deque.Deque.State.ThiefPc.{
  idle, start, got_top, got_array, got_bottom, recheck, reading, claiming,
}
use lock_free_deque.Deque.Owner.{
  find_range, is_available, is_full, count_shrink, descend, at_owner, return_push, begin_acquire,
  begin_shrink, decide_shrink, release_next, cas_top, owner_move, owner_step,
}
use lock_free_deque.Deque.Thief.{at_thief, return_steal, judge, thief_move, thief_step}
use lock_free_deque.Deque.System.{
  owner_moves, push_called, pop_called, thief_moves, steal_called, other_claims, other_uses,
  other_returns, Reach, here, next,
}
use lock_free_deque.Deque.WaitFree.Owner.{owner_move-thieves}

module _ {A : Type 0} where
  -- The shared accesses that a call of `steal` has left, at most.
  abbrev pub rank : ThiefPc A → ℕ
  rank idle = 0
  rank start = 6
  rank (got_top t) = 5
  rank (got_array t old_array) = 4
  rank (got_bottom t old_array b) = 3
  rank (recheck t old_array a) = 1
  rank (reading t a) = 2
  rank (claiming t x) = 1

  abbrev pub busy : ThiefPc A → ℕ
  busy p = if rank p == 0 then 0 else 1

  -- The shared accesses that thief `i` makes in a run.
  abbrev pub accesses : {s s' : Machine A} → ℕ → Reach s s' → ℕ
  accesses i here = 0
  accesses i (next {t} reach (thief_moves j)) =
      accesses i reach + (if i == j then busy (t.thieves i) else 0)
  accesses i (next reach owner_moves) = accesses i reach
  accesses i (next reach (push_called x e)) = accesses i reach
  accesses i (next reach (pop_called e)) = accesses i reach
  accesses i (next reach (steal_called j e)) = accesses i reach
  accesses i (next reach (other_claims r e)) = accesses i reach
  accesses i (next reach (other_uses r c e same)) = accesses i reach
  accesses i (next reach (other_returns r e)) = accesses i reach

  -- The calls of `steal` that thief `i` begins in a run.
  abbrev pub calls : {s s' : Machine A} → ℕ → Reach s s' → ℕ
  calls i here = 0
  calls i (next reach (steal_called j e)) = calls i reach + (if i == j then 1 else 0)
  calls i (next reach owner_moves) = calls i reach
  calls i (next reach (push_called x e)) = calls i reach
  calls i (next reach (pop_called e)) = calls i reach
  calls i (next reach (thief_moves j)) = calls i reach
  calls i (next reach (other_claims r e)) = calls i reach
  calls i (next reach (other_uses r c e same)) = calls i reach
  calls i (next reach (other_returns r e)) = calls i reach

  goes_to :
      (thieves : ℕ → ThiefPc A) (i n : ℕ) (p : ThiefPc A)
      → rank p + 1 ≤ n
      → rank (update thieves i p i) + 1 ≤ n
  goes_to thieves i n p le =
      subst (λ (q : ThiefPc A). rank q + 1 ≤ n) (sym (update_self thieves i p)) le

  -- Each access of a call leaves it fewer.
  thief_move-rank :
      (s : Machine A) (i : ℕ) (p : ThiefPc A)
      → s.thieves i ≡ p
      → rank ((thief_move s i p).thieves i) + busy p ≤ rank p
  unfolding thief_move
  thief_move-rank s i idle e = subst (λ (q : ThiefPc A). rank q + 0 ≤ 0) (sym e) (omega arith)
  thief_move-rank s i start e = goes_to s.thieves i 6 (got_top s.top) (omega arith)
  thief_move-rank s i (got_top t) e = goes_to s.thieves i 5 (got_array t s.active) (omega arith)
  thief_move-rank s i (got_array t old_array) e =
      goes_to s.thieves i 4 (got_bottom t old_array s.bottom) (omega arith)
  thief_move-rank s i (got_bottom t old_array b) e = go (is_positive (b -ℤ pos t))
    where
      judged :
          (whole : Bool)
          → rank (if whole then recheck t old_array s.active else reading t s.active) + 1 ≤ 3
      judged true = omega arith
      judged false = omega arith

      go :
          (more : Bool)
          → rank (
                (if more
                    then at_thief s i (judge t old_array b s.active (size (s.arrays s.active)))
                    else return_steal s i (of_state StealState.empty)).thieves
                  i)
              + 1
            ≤ 3
      go true =
          goes_to s.thieves i 3 (judge t old_array b s.active (size (s.arrays s.active)))
            (judged (pos_part (b -ℤ pos t) % size (s.arrays s.active) == 0))
      go false = goes_to s.thieves i 3 idle (omega arith)
  thief_move-rank s i (recheck t old_array a) e = go (a == old_array && t == s.top)
    where
      go :
          (same : Bool)
          → rank (
                (if same
                    then return_steal s i (of_state StealState.empty)
                    else return_steal s i (of_state StealState.abort)).thieves
                  i)
              + 1
            ≤ 1
      go true = goes_to s.thieves i 1 idle (omega arith)
      go false = goes_to s.thieves i 1 idle (omega arith)
  thief_move-rank s i (reading t a) e =
      goes_to s.thieves i 2 (claiming t (load (s.arrays a) t)) (omega arith)
  thief_move-rank s i (claiming t x) e = go (s.top == t)
    where
      go :
          (same : Bool)
          → rank (
                (if same
                    then return_steal (record s { top = t + 1 }) i (of_value x)
                    else return_steal s i (of_state StealState.abort)).thieves
                  i)
              + 1
            ≤ 1
      go true = goes_to s.thieves i 1 idle (omega arith)
      go false = goes_to s.thieves i 1 idle (omega arith)

  -- A thief does not move another one.
  thief_move-others :
      (s : Machine A) (i j : ℕ) (p : ThiefPc A) → i ≢ j → (thief_move s i p).thieves j ≡ s.thieves j
  unfolding thief_move
  thief_move-others s i j idle ne = refl
  thief_move-others s i j start ne = update_ne s.thieves i j _ ne
  thief_move-others s i j (got_top t) ne = update_ne s.thieves i j _ ne
  thief_move-others s i j (got_array t old_array) ne = update_ne s.thieves i j _ ne
  thief_move-others s i j (got_bottom t old_array b) ne = go (is_positive (b -ℤ pos t))
    where
      go :
          (more : Bool)
          → (if more
                then at_thief s i (judge t old_array b s.active (size (s.arrays s.active)))
                else return_steal s i (of_state StealState.empty)).thieves
              j
            ≡ s.thieves j
      go true = update_ne s.thieves i j _ ne
      go false = update_ne s.thieves i j _ ne
  thief_move-others s i j (recheck t old_array a) ne = go (a == old_array && t == s.top)
    where
      go :
          (same : Bool)
          → (if same
                then return_steal s i (of_state StealState.empty)
                else return_steal s i (of_state StealState.abort)).thieves
              j
            ≡ s.thieves j
      go true = update_ne s.thieves i j _ ne
      go false = update_ne s.thieves i j _ ne
  thief_move-others s i j (reading t a) ne = update_ne s.thieves i j _ ne
  thief_move-others s i j (claiming t x) ne = go (s.top == t)
    where
      go :
          (same : Bool)
          → (if same
                then return_steal (record s { top = t + 1 }) i (of_value x)
                else return_steal s i (of_state StealState.abort)).thieves
              j
            ≡ s.thieves j
      go true = update_ne s.thieves i j _ ne
      go false = update_ne s.thieves i j _ ne

  -- In any run, whatever the others do, a thief makes at most six shared accesses for each call of
  -- `steal` that it begins, and those that its call under way had left to it at the start.
  pub steal_is_bounded :
      (i : ℕ) {s s' : Machine A} (reach : Reach s s')
      → accesses i reach + rank (s'.thieves i) ≤ 6 * calls i reach + rank (s.thieves i)
  unfolding thief_step owner_step
  steal_is_bounded i {s} here = omega arith
  steal_is_bounded i {s} (next {t} reach (thief_moves j)) = elim (ℕ_discrete i j) [
    | yes e ↦
        subst
          (λ (q : ℕ).
            accesses i reach
              + (if i == q then busy (t.thieves i) else 0)
              + rank ((thief_move t q (t.thieves q)).thieves i)
            ≤ 6 * calls i reach + rank (s.thieves i))
          e (ground (arith, thief_move-rank t i (t.thieves i) refl, steal_is_bounded i reach))
    | no ne ↦
        subst
          (λ (p : ThiefPc A).
            accesses i reach + (if i == j then busy (t.thieves i) else 0) + rank p
            ≤ 6 * calls i reach + rank (s.thieves i))
          (sym (thief_move-others t j i (t.thieves j) (λ e. ne (sym e))))
          (ground (arith, steal_is_bounded i reach))
  ]
  steal_is_bounded i {s} (next {t} reach owner_moves) =
      subst
        (λ (thieves : ℕ → ThiefPc A).
          accesses i reach + rank (thieves i) ≤ 6 * calls i reach + rank (s.thieves i))
        (sym (owner_move-thieves t t.owner)) (steal_is_bounded i reach)
  steal_is_bounded i {s} (next reach (push_called x e)) = steal_is_bounded i reach
  steal_is_bounded i {s} (next reach (pop_called e)) = steal_is_bounded i reach
  steal_is_bounded i {s} (next {t} reach (steal_called j e)) = elim (ℕ_discrete i j) [
    | yes same ↦
        subst
          (λ (q : ℕ).
            accesses i reach + rank (update t.thieves q start i)
            ≤ 6 * (calls i reach + (if i == q then 1 else 0)) + rank (s.thieves i))
          same
          (subst
            (λ (p : ThiefPc A).
              accesses i reach + rank p
              ≤ 6 * (calls i reach + (if i == i then 1 else 0)) + rank (s.thieves i))
            (sym (update_self t.thieves i start)) (ground (arith, steal_is_bounded i reach)))
    | no ne ↦
        subst
          (λ (p : ThiefPc A).
            accesses i reach + rank p
            ≤ 6 * (calls i reach + (if i == j then 1 else 0)) + rank (s.thieves i))
          (sym (update_ne t.thieves j i start (λ e. ne (sym e))))
          (ground (arith, steal_is_bounded i reach))
  ]
  steal_is_bounded i {s} (next reach (other_claims r e)) = steal_is_bounded i reach
  steal_is_bounded i {s} (next reach (other_uses r c e same)) = steal_is_bounded i reach
  steal_is_bounded i {s} (next reach (other_returns r e)) = steal_is_bounded i reach
