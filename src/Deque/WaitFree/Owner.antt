-- ===== src/Deque/WaitFree/Owner.antt =====
-- The owner's code moves no thief.
use lock_free_deque.Prelude.{
  ℕ, zero, suc, ◌+◌, ◌≡◌, refl, ◌==◌, Option, none, some, ltb, either_way,
}
use lock_free_deque.Prelude.Int.{ℤ, to_u64}
use lock_free_deque.CircularArray.{size}
use lock_free_deque.StealResult.{PushResult}
use lock_free_deque.Deque.State.{SizeClassRange, OwnerPc, Machine}
use lock_free_deque.Deque.State.OwnerPc.{
  push_refresh, push_acquire, push_copy, pop_cas, pop_won, pop_lost, shrink_start, shrink_copy,
  shrink_cas, shrink_restore, shrink_release,
}
use lock_free_deque.Deque.Owner.{
  find_range, is_available, is_full, count_shrink, descend, at_owner, return_push, begin_acquire,
  begin_shrink, decide_shrink, release_next, cas_top, owner_move,
}

module _ {A : Type 0} where
  abbrev SameThieves : Machine A → Machine A → Type 0
  SameThieves s m = m.thieves ≡ s.thieves

  cas_top-thieves :
      (s : Machine A) (expected desired : ℕ) (won lost : OwnerPc A)
      → (cas_top s expected desired won lost).thieves ≡ s.thieves
  unfolding cas_top
  cas_top-thieves s expected desired won lost =
      either_way (SameThieves s) _ _ (s.top == expected) refl refl

  begin_acquire-thieves :
      (s : Machine A) (x : A) (b : ℤ) (t a : ℕ) → (begin_acquire s x b t a).thieves ≡ s.thieves
  unfolding begin_acquire
  begin_acquire-thieves s x b t a = go (find_range s.ranges ((s.arrays a).log_size + 1))
    where
      go :
          (range : Option SizeClassRange)
          → (elim range as (λ r. Machine A) [
            | none ↦ return_push s x PushResult.no_buffer_acquired
            | some range ↦ at_owner s (push_acquire x b t a range.begin range.count)
          ]).thieves
            ≡ s.thieves
      go none = refl
      go (some range) = refl

  decide_shrink-thieves :
      (s : Machine A) (x : A) (b : ℤ) (t n : ℕ) → (decide_shrink s x b t n).thieves ≡ s.thieves
  unfolding decide_shrink begin_shrink
  decide_shrink-thieves s x b t zero = refl
  decide_shrink-thieves s x b t (suc n) =
      go (descend (suc n) s.arrays s.active (s.arrays s.active).low_water_mark)
    where
      go : (d : Option (ℕ × Option ℕ)) → (begin_shrink s x b t d).thieves ≡ s.thieves
      go none = refl
      go (some (d, m)) = refl

  -- The owner moves no thief.
  pub owner_move-thieves : (s : Machine A) (pc : OwnerPc A) → (owner_move s pc).thieves ≡ s.thieves
  unfolding owner_move release_next
  owner_move-thieves s (push_refresh x b a) =
      either_way (SameThieves s) _ _ (is_full (s.arrays a) b s.top)
        (begin_acquire-thieves (record s { cached_top = s.top }) x b s.top a) refl
  owner_move-thieves s (push_acquire x b t a i zero) = refl
  owner_move-thieves s (push_acquire x b t a i (suc left)) =
      either_way (SameThieves s) _ _ (is_available (s.flags i)) refl refl
  owner_move-thieves s (push_copy x b a d i) =
      either_way (SameThieves s) _ _ (ltb i (to_u64 b)) refl refl
  owner_move-thieves s (pop_cas x t) = cas_top-thieves s t (t + 1) (pop_won x t) (pop_lost t)
  owner_move-thieves s (shrink_start x b t) =
      decide_shrink-thieves s x b t
        (count_shrink (s.arrays s.active).log_size s.arrays s.active s.min_log_size b t)
  owner_move-thieves s (shrink_copy x b a d i) =
      either_way (SameThieves s) _ _ (ltb i (to_u64 b)) refl refl
  owner_move-thieves s (shrink_cas x b a d snapshot) =
      cas_top-thieves s snapshot (snapshot + size (s.arrays d)) (shrink_release x a d)
        (shrink_restore x b a d)
  owner_move-thieves s (shrink_release x discarded d) =
      either_way (SameThieves s) _ _ (discarded == d) refl refl
  owner_move-thieves s OwnerPc.idle = refl
  owner_move-thieves s _ = refl
