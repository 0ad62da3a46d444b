-- ===== src/Deque/Thief.antt =====
-- The thieves' code: `steal`, one shared access to a step.
use lock_free_deque.Prelude.{ℕ, ◌+◌, ◌%◌, ◌∷◌, ◌&&◌, ◌==◌, if◌then◌else◌, update}
use lock_free_deque.Prelude.Int.{ℤ, pos, ◌-ℤ◌, pos_part, is_positive}
use lock_free_deque.StealResult.{StealState, StealResult, of_state, of_value}
use lock_free_deque.CircularArray.{size, load}
use lock_free_deque.Deque.State.{steal_returned, ThiefPc, Machine}
use lock_free_deque.Deque.State.ThiefPc.{
  idle, start, got_top, got_array, got_bottom, recheck, reading, claiming,
}

module _ {A : Type 0} where
  abbrev pub at_thief : Machine A → ℕ → ThiefPc A → Machine A
  at_thief s i pc = record s { thieves = update s.thieves i pc }

  abbrev pub return_steal : Machine A → ℕ → StealResult A → Machine A
  return_steal s i result = record s {
    thieves = update s.thieves i idle;
    trace = steal_returned result ∷ s.trace;
  }

  -- The tests after the second load of `active_array_`: on `size`, and on `modulus`.
  abbrev pub judge : ℕ → ℕ → ℤ → ℕ → ℕ → ThiefPc A
  judge t old_array b a capacity =
      if pos_part (b -ℤ pos t) % capacity == 0 then recheck t old_array a else reading t a

  -- One step of thief `i`, which stands at the given place.
  unfoldable pub thief_move : Machine A → ℕ → ThiefPc A → Machine A
  thief_move s i idle = s
  thief_move s i start = at_thief s i (got_top s.top)
  thief_move s i (got_top t) = at_thief s i (got_array t s.active)
  thief_move s i (got_array t old_array) = at_thief s i (got_bottom t old_array s.bottom)
  thief_move s i (got_bottom t old_array b) =
      if is_positive (b -ℤ pos t)
      then at_thief s i (judge t old_array b s.active (size (s.arrays s.active)))
      else return_steal s i (of_state StealState.empty)
  thief_move s i (recheck t old_array a) =
      if a == old_array && t == s.top
      then return_steal s i (of_state StealState.empty)
      else return_steal s i (of_state StealState.abort)
  thief_move s i (reading t a) = at_thief s i (claiming t (load (s.arrays a) t))
  thief_move s i (claiming t x) =
      if s.top == t
      then return_steal (record s { top = t + 1 }) i (of_value x)
      else return_steal s i (of_state StealState.abort)

  unfoldable pub thief_step : Machine A → ℕ → Machine A
  unfolding thief_move
  thief_step s i = thief_move s i (s.thieves i)
