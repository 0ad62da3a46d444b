-- ===== src/Deque/Progress/Sizes.antt =====
-- No step of src/work_stealing_deque.h or of src/buffer_pool.h changes an array's size, or the
-- pool's size classes.
use lock_free_deque.Prelude.{
  ℕ, zero, suc, ◌+◌, ◌≡◌, refl, Option, none, some, either_way, ◌==◌, ◌&&◌, ltb, update,
}
use lock_free_deque.Prelude.Int.{ℤ, pos, ◌-ℤ◌, is_positive, to_u64}
use lock_free_deque.CircularArray.{CircularArray, size, store_no_mark}
use lock_free_deque.CircularArray.Slots.{log_size-update}
use lock_free_deque.StealResult.{PushResult}
use lock_free_deque.Deque.State.{SizeClassRange, OwnerPc, ThiefPc, Machine}
use lock_free_deque.Deque.State.OwnerPc.{
  push_refresh, push_acquire, push_copy, push_store, pop_cas, pop_won, pop_lost, shrink_start,
  shrink_copy, shrink_cas, shrink_restore, shrink_release,
}
use lock_free_deque.Deque.Owner.{
  find_range, is_available, is_full, count_shrink, descend, at_owner, return_push, begin_acquire,
  begin_shrink, decide_shrink, release_next, cas_top, owner_move, owner_step,
}
use lock_free_deque.Deque.Thief.{thief_move, thief_step}
use lock_free_deque.Deque.System.{
  owner_moves, push_called, pop_called, thief_moves, steal_called, other_claims, other_uses,
  other_returns, Step,
}
use lock_free_deque.Deque.Progress.{log_sizes}

module _ {A : Type 0} (s : Machine A) where
  abbrev pub SameSizes : Machine A → Type 0
  SameSizes s' = (s'.ranges ≡ s.ranges) × ((r : ℕ) → log_sizes s' r ≡ log_sizes s r)

  same : SameSizes s
  same = (refl, λ r. refl)

  -- Record `d` is written, and keeps its size.
  written :
      (d : ℕ) (c : CircularArray A)
      → c.log_size ≡ (s.arrays d).log_size
      → (r : ℕ) → (update s.arrays d c r).log_size ≡ (s.arrays r).log_size
  written d c e r = log_size-update s.arrays d c e r

  begin_acquire-SameSizes :
      (x : A) (b : ℤ) (t a n : ℕ) → SameSizes (begin_acquire (record s { cached_top = n }) x b t a)
  unfolding begin_acquire
  begin_acquire-SameSizes x b t a n = go (find_range s.ranges ((s.arrays a).log_size + 1))
    where
      go :
          (range : Option SizeClassRange)
          → SameSizes (elim range [
            | none ↦ return_push (record s { cached_top = n }) x PushResult.no_buffer_acquired
            | some range ↦
                at_owner
                  (record s { cached_top = n })
                  (push_acquire x b t a range.begin range.count)
          ])
      go none = (refl, λ r. refl)
      go (some range) = (refl, λ r. refl)

  decide_shrink-SameSizes : (x : A) (b : ℤ) (t n : ℕ) → SameSizes (decide_shrink s x b t n)
  unfolding decide_shrink begin_shrink
  decide_shrink-SameSizes x b t zero = (refl, λ r. refl)
  decide_shrink-SameSizes x b t (suc n) =
      go (descend (suc n) s.arrays s.active (s.arrays s.active).low_water_mark)
    where
      go : (d : Option (ℕ × Option ℕ)) → SameSizes (begin_shrink s x b t d)
      go none = (refl, λ r. refl)
      go (some (d, m)) = (refl, written d _ refl)

  cas_top-SameSizes :
      (expected desired : ℕ) (won lost : OwnerPc A)
      → SameSizes (cas_top s expected desired won lost)
  unfolding cas_top
  cas_top-SameSizes expected desired won lost =
      either_way SameSizes _ _ (s.top == expected) (refl, λ r. refl) (refl, λ r. refl)

  pub owner_move-SameSizes : (pc : OwnerPc A) → SameSizes (owner_move s pc)
  unfolding owner_move release_next store_no_mark
  owner_move-SameSizes (push_refresh x b a) =
      either_way SameSizes _ _ (is_full (s.arrays a) b s.top)
        (begin_acquire-SameSizes x b s.top a s.top) (refl, λ r. refl)
  owner_move-SameSizes (push_acquire x b t a i zero) = (refl, λ r. refl)
  owner_move-SameSizes (push_acquire x b t a i (suc left)) =
      either_way SameSizes _ _ (is_available (s.flags i)) (refl, written i _ refl) (refl, λ r. refl)
  owner_move-SameSizes (push_copy x b a d i) =
      either_way SameSizes _ _ (ltb i (to_u64 b)) (refl, written d _ refl) (refl, λ r. refl)
  owner_move-SameSizes (push_store x b a) = (refl, written a _ refl)
  owner_move-SameSizes (pop_cas x t) = cas_top-SameSizes t (t + 1) (pop_won x t) (pop_lost t)
  owner_move-SameSizes (shrink_start x b t) =
      decide_shrink-SameSizes x b t
        (count_shrink (s.arrays s.active).log_size s.arrays s.active s.min_log_size b t)
  owner_move-SameSizes (shrink_copy x b a d i) =
      either_way SameSizes _ _ (ltb i (to_u64 b)) (refl, written d _ refl) (refl, λ r. refl)
  owner_move-SameSizes (shrink_cas x b a d snapshot) =
      cas_top-SameSizes snapshot (snapshot + size (s.arrays d)) (shrink_release x a d)
        (shrink_restore x b a d)
  owner_move-SameSizes (shrink_release x c d) =
      either_way SameSizes _ _ (c == d) (refl, λ r. refl) (refl, written c _ refl)
  owner_move-SameSizes OwnerPc.idle = (refl, λ r. refl)
  owner_move-SameSizes _ = (refl, λ r. refl)

  thief_move-SameSizes : (i : ℕ) (p : ThiefPc A) → SameSizes (thief_move s i p)
  unfolding thief_move
  thief_move-SameSizes i (ThiefPc.got_bottom t old_array b) =
      either_way SameSizes _ _ (is_positive (b -ℤ pos t)) (refl, λ r. refl) (refl, λ r. refl)
  thief_move-SameSizes i (ThiefPc.recheck t old_array a) =
      either_way SameSizes _ _ (a == old_array && t == s.top) (refl, λ r. refl) (refl, λ r. refl)
  thief_move-SameSizes i (ThiefPc.claiming t x) =
      either_way SameSizes _ _ (s.top == t) (refl, λ r. refl) (refl, λ r. refl)
  thief_move-SameSizes i ThiefPc.idle = (refl, λ r. refl)
  thief_move-SameSizes i _ = (refl, λ r. refl)

  pub Step-SameSizes : {s' : Machine A} → Step s s' → SameSizes s'
  unfolding owner_step thief_step
  Step-SameSizes owner_moves = owner_move-SameSizes s.owner
  Step-SameSizes (push_called x e) = (refl, λ r. refl)
  Step-SameSizes (pop_called e) = (refl, λ r. refl)
  Step-SameSizes (thief_moves i) = thief_move-SameSizes i (s.thieves i)
  Step-SameSizes (steal_called i e) = (refl, λ r. refl)
  Step-SameSizes (other_claims r e) = (refl, written r _ refl)
  Step-SameSizes (other_uses r c e keeps) = (refl, written r c keeps)
  Step-SameSizes (other_returns r e) = (refl, λ r. refl)
