-- ===== src/Deque/Owner.antt =====
-- The owner's code: `try_push_bottom`, `pop_bottom`, `perhaps_shrink`, and what they call in the
-- pool and the arrays, one shared access to a step. Memory that only the owner reads and writes
-- (`cached_top_`, marks, `prev_`) is accessed together with the neighbouring shared access.
use Prim.Native.Nat.{max}
use lock_free_deque.Prelude.{
  ℕ, zero, suc, ◌+◌, ◌-◌, ◌/◌, List, [], ◌∷◌, Option, none, some, Bool, true, false, ◌&&◌, ltb, leb,
  ◌==◌, if◌then◌else◌, update,
}
use lock_free_deque.Prelude.Int.{ℤ, pos, ◌+ℤ◌, ◌-ℤ◌, is_negative, is_positive, to_u64}
use lock_free_deque.StealResult.{PushResult}
use lock_free_deque.CircularArray.{
  CircularArray, min_mark, size, load, store_no_mark, store, reset_for_reuse,
}
use lock_free_deque.Deque.State.{
  Flag, available, owned, lent, SizeClassRange, OwnerPc, push_returned, pop_returned, Machine,
}
use lock_free_deque.Deque.State.OwnerPc.{
  idle, push_start, push_refresh, push_acquire, push_copy, push_publish, push_store, push_bottom,
  pop_start, pop_refresh, pop_empty, pop_load, pop_cas, pop_won, pop_lost, shrink_start,
  shrink_copy, shrink_publish, shrink_shift, shrink_snapshot, shrink_cas, shrink_restore,
  shrink_release, fault,
}

-- The constant `K`.
abbrev pub shrink_factor : ℕ
shrink_factor = 4

-- `ranges_[log_size]`, or nothing where `log_size >= ranges_.size()`.
unfoldable pub find_range : List SizeClassRange → ℕ → Option SizeClassRange
find_range [] i = none
find_range (r ∷ rs) zero = some r
find_range (r ∷ rs) (suc i) = find_range rs i

abbrev pub is_available : Flag → Bool
is_available available = true
is_available owned = false
is_available lent = false

-- `start` of `shrink`.
abbrev pub copy_start : ℤ → ℕ → Option ℕ → ℕ
copy_start b t none = to_u64 b
copy_start b t (some low) = max t low

module _ {A : Type 0} where
  -- `b - t >= a->size() - 1`: the difference is converted to `std::size_t`.
  abbrev pub is_full : CircularArray A → ℤ → ℕ → Bool
  is_full c b t = leb (size c - 1) (to_u64 (b -ℤ pos t))

  -- `cursor->log_size() > min_log_size_ && (b - t) < cursor->size() / K`
  abbrev pub is_sparse : CircularArray A → ℕ → ℤ → ℕ → Bool
  is_sparse c min_log_size b t =
      ltb min_log_size c.log_size && ltb (to_u64 (b -ℤ pos t)) (size c / shrink_factor)

  -- The first loop of `perhaps_shrink`, which counts `num_shrink`. Each round goes to a smaller
  -- array, so the cursor's `log_size` is fuel enough.
  unfoldable pub count_shrink : ℕ → (ℕ → CircularArray A) → ℕ → ℕ → ℤ → ℕ → ℕ
  count_shrink zero arrays cursor min_log_size b t = 0
  count_shrink (suc fuel) arrays cursor min_log_size b t =
      if is_sparse (arrays cursor) min_log_size b t
      then elim ((arrays cursor).prev) [
        | none ↦ 0
        | some p ↦ suc (count_shrink fuel arrays p min_log_size b t)
      ]
      else 0

  -- The first loop of `shrink`: the destination and the lowest mark on the way there, or nothing
  -- where it would follow a null pointer.
  unfoldable pub descend : ℕ → (ℕ → CircularArray A) → ℕ → Option ℕ → Option (ℕ × Option ℕ)
  descend zero arrays destination m = some (destination, m)
  descend (suc n) arrays destination m = elim ((arrays destination).prev) [
    | none ↦ none
    | some p ↦ descend n arrays p (min_mark m (arrays p).low_water_mark)
  ]

  abbrev pub with_array : Machine A → ℕ → CircularArray A → Machine A
  with_array s r c = record s { arrays = update s.arrays r c }

  abbrev pub at_owner : Machine A → OwnerPc A → Machine A
  at_owner s pc = record s { owner = pc }

  abbrev pub return_push : Machine A → A → PushResult → Machine A
  return_push s x result = record s { owner = idle; trace = push_returned x result ∷ s.trace }

  abbrev pub return_pop : Machine A → Option A → Machine A
  return_pop s result = record s { owner = idle; trace = pop_returned result ∷ s.trace }

  -- The head of `try_acquire(a->log_size() + 1)`.
  unfoldable pub begin_acquire : Machine A → A → ℤ → ℕ → ℕ → Machine A
  begin_acquire s x b t a = elim (find_range s.ranges ((s.arrays a).log_size + 1)) [
    | none ↦ return_push s x PushResult.no_buffer_acquired
    | some range ↦ at_owner s (push_acquire x b t a range.begin range.count)
  ]

  -- A successful claim of record `i`, with `reset_for_reuse`, and the head of `grow_into`.
  abbrev pub claim : Machine A → A → ℤ → ℕ → ℕ → ℕ → Machine A
  claim s x b t a i = record s {
    flags = update s.flags i owned;
    arrays = update s.arrays i (record (reset_for_reuse (s.arrays i)) { prev = some a });
    owner = push_copy x b a i t;
  }

  -- The head of `a->shrink(b, t, num_shrink)`, once its destination is found.
  unfoldable pub begin_shrink : Machine A → A → ℤ → ℕ → Option (ℕ × Option ℕ) → Machine A
  begin_shrink s x b t none = at_owner s fault
  begin_shrink s x b t (some (d, m)) = record s {
    arrays =
        update s.arrays d
          (record (s.arrays d) { low_water_mark = min_mark (s.arrays d).low_water_mark m });
    owner = shrink_copy x b s.active d (copy_start b t m);
  }

  -- `perhaps_shrink` up to the copy, with `num_shrink` given.
  unfoldable pub decide_shrink : Machine A → A → ℤ → ℕ → ℕ → Machine A
  unfolding begin_shrink
  decide_shrink s x b t zero = return_pop s (some x)
  decide_shrink s x b t (suc n) =
      begin_shrink s x b t (descend (suc n) s.arrays s.active (s.arrays s.active).low_water_mark)

  -- One round of the loop that returns the discarded arrays.
  unfoldable pub release_next : Machine A → A → ℕ → ℕ → Option ℕ → Machine A
  release_next s x discarded d next = record s {
    arrays = update s.arrays discarded (record (s.arrays discarded) { prev = none });
    flags = update s.flags discarded available;
    owner = elim next [ none ↦ fault | some r ↦ shrink_release x r d ];
  }

  -- `cas_top`
  unfoldable pub cas_top : Machine A → ℕ → ℕ → OwnerPc A → OwnerPc A → Machine A
  cas_top s expected desired won lost =
      if s.top == expected then record s { top = desired; owner = won } else at_owner s lost

  -- One step of the owner, which stands at the given place.
  unfoldable pub owner_move : Machine A → OwnerPc A → Machine A
  unfolding begin_acquire decide_shrink release_next cas_top
  owner_move s idle = s
  owner_move s (push_start x) = at_owner s (
      if is_full (s.arrays s.active) s.bottom s.cached_top
      then push_refresh x s.bottom s.active
      else push_store x s.bottom s.active)
  owner_move s (push_refresh x b a) =
      let s' = record s { cached_top = s.top } in
      if is_full (s.arrays a) b s.top
      then begin_acquire s' x b s.top a
      else at_owner s' (push_store x b a)
  owner_move s (push_acquire x b t a i zero) = return_push s x PushResult.no_buffer_acquired
  owner_move s (push_acquire x b t a i (suc left)) =
      if is_available (s.flags i)
      then claim s x b t a i
      else at_owner s (push_acquire x b t a (i + 1) left)
  owner_move s (push_copy x b a d i) =
      if ltb i (to_u64 b)
      then record (with_array s d (store_no_mark (s.arrays d) i (load (s.arrays a) i))) {
        owner = push_copy x b a d (i + 1);
      }
      else at_owner s (push_publish x b d)
  owner_move s (push_publish x b d) = record s { active = d; owner = push_store x b d }
  owner_move s (push_store x b a) = record (with_array s a (store (s.arrays a) (to_u64 b) x)) {
    owner = push_bottom x b;
  }
  owner_move s (push_bottom x b) =
      return_push (record s { bottom = b +ℤ pos 1 }) x PushResult.success
  owner_move s pop_start = record s {
    bottom = s.bottom -ℤ pos 1;
    owner = pop_refresh (s.bottom -ℤ pos 1) s.active;
  }
  owner_move s (pop_refresh b a) = record s {
    cached_top = s.top;
    owner = if is_negative (b -ℤ pos s.top) then pop_empty s.top else pop_load b s.top a;
  }
  owner_move s (pop_empty t) = return_pop (record s { bottom = pos t }) none
  owner_move s (pop_load b t a) =
      let x = load (s.arrays a) (to_u64 b) in
      at_owner s (if is_positive (b -ℤ pos t) then shrink_start x b t else pop_cas x t)
  owner_move s (pop_cas x t) = cas_top s t (t + 1) (pop_won x t) (pop_lost t)
  owner_move s (pop_won x t) = return_pop (record s { bottom = pos (t + 1) }) (some x)
  owner_move s (pop_lost t) = return_pop (record s { bottom = pos (t + 1) }) none
  owner_move s (shrink_start x b t) =
      decide_shrink s x b t
        (count_shrink (s.arrays s.active).log_size s.arrays s.active s.min_log_size b t)
  owner_move s (shrink_copy x b a d i) =
      if ltb i (to_u64 b)
      then record (with_array s d (store_no_mark (s.arrays d) i (load (s.arrays a) i))) {
        owner = shrink_copy x b a d (i + 1);
      }
      else at_owner s (shrink_publish x b a d)
  owner_move s (shrink_publish x b a d) = record s { active = d; owner = shrink_shift x b a d }
  owner_move s (shrink_shift x b a d) = record s {
    bottom = b +ℤ pos (size (s.arrays d));
    owner = shrink_snapshot x b a d;
  }
  owner_move s (shrink_snapshot x b a d) = at_owner s (shrink_cas x b a d s.top)
  owner_move s (shrink_cas x b a d snapshot) =
      cas_top s snapshot (snapshot + size (s.arrays d)) (shrink_release x a d)
        (shrink_restore x b a d)
  owner_move s (shrink_restore x b a d) = record s { bottom = b; owner = shrink_release x a d }
  owner_move s (shrink_release x discarded d) =
      if discarded == d
      then return_pop s (some x)
      else release_next s x discarded d (s.arrays discarded).prev
  owner_move s fault = s

  unfoldable pub owner_step : Machine A → Machine A
  unfolding owner_move
  owner_step s = owner_move s s.owner
