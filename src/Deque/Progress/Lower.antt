-- ===== src/Deque/Progress/Lower.antt =====
-- Each step of the owner leaves its call fewer steps.
use lock_free_deque.Prelude.{
  ℕ, zero, suc, ◌+◌, ◌-◌, ◌≤◌, ◌≡◌, refl, sym, subst, Option, none, some, Bool, true, false,
  if◌then◌else◌, either_way, ◌==◌, ==_iff, ltb, ltb→lt, arith,
}
use lock_free_deque.Prelude.Int.{ℤ, pos, negsuc, ◌-ℤ◌, is_negative, is_positive, to_u64}
use lock_free_deque.CircularArray.{size, load, store_no_mark}
use lock_free_deque.StealResult.{PushResult}
use lock_free_deque.Deque.State.{SizeClassRange, OwnerPc, Machine}
use lock_free_deque.Deque.State.OwnerPc.{
  idle, push_start, push_refresh, push_acquire, push_copy, push_publish, push_store, push_bottom,
  pop_start, pop_refresh, pop_empty, pop_load, pop_cas, pop_won, pop_lost, shrink_start,
  shrink_copy, shrink_publish, shrink_shift, shrink_snapshot, shrink_cas, shrink_restore,
  shrink_release, fault,
}
use lock_free_deque.Deque.Owner.{
  find_range, is_available, is_full, count_shrink, copy_start, descend, at_owner, return_push,
  with_array, return_pop, begin_acquire, begin_shrink, decide_shrink, release_next, cas_top,
  owner_move,
}
use lock_free_deque.Deque.Invariant.Chain.{Discard, done, more}
use lock_free_deque.Deque.Invariant.Defs.{Inv}
use lock_free_deque.Deque.Progress.{class_count, steps_left, log_sizes}

one_less : (i n k : ℕ) → n + 1 ≤ k → i ≤ n → i ≤ k - 1
one_less i n k lt le = omega arith

module _ {A : Type 0} (s : Machine A) where
  -- With the sizes of `s`, the owner of `m` has at most `n` steps left.
  abbrev pub Within : ℕ → Machine A → Type 0
  Within n m = steps_left s.ranges (log_sizes s) m.active m.bottom m.top m.owner ≤ n

  cas_top-Within :
      (n expected desired : ℕ) (won lost : OwnerPc A)
      → steps_left s.ranges (log_sizes s) s.active s.bottom desired won ≤ n
      → steps_left s.ranges (log_sizes s) s.active s.bottom s.top lost ≤ n
      → Within n (cas_top s expected desired won lost)
  unfolding cas_top
  cas_top-Within n expected desired won lost p q = either_way (Within n) _ _ (s.top == expected) p q

  begin_acquire-Within :
      (x : A) (b : ℤ) (a n : ℕ)
      → Within
          (5 + (to_u64 b - s.top) + class_count (find_range s.ranges (log_sizes s a + 1)))
          (begin_acquire (record s { cached_top = n }) x b s.top a)
  unfolding begin_acquire
  begin_acquire-Within x b a n = go (find_range s.ranges (log_sizes s a + 1))
    where
      go :
          (range : Option SizeClassRange)
          → Within (5 + (to_u64 b - s.top) + class_count range) (elim range [
            | none ↦ return_push (record s { cached_top = n }) x PushResult.no_buffer_acquired
            | some range ↦
                at_owner
                  (record s { cached_top = n })
                  (push_acquire x b s.top a range.begin range.count)
          ])
      go none = omega arith
      go (some range) = omega arith

  copy_start-le : (b : ℤ) (t : ℕ) (m : Option ℕ) → to_u64 b - copy_start b t m ≤ to_u64 b - t
  copy_start-le b t none = omega arith
  copy_start-le b t (some low) = ground arith

  decide_shrink-Within :
      (x : A) (b : ℤ) (t n : ℕ)
      → Within (7 + log_sizes s s.active + (to_u64 b - t)) (decide_shrink s x b t n)
  unfolding decide_shrink begin_shrink
  decide_shrink-Within x b t zero = omega arith
  decide_shrink-Within x b t (suc n) =
      go (descend (suc n) s.arrays s.active (s.arrays s.active).low_water_mark)
    where
      go :
          (d : Option (ℕ × Option ℕ))
          → Within (7 + log_sizes s s.active + (to_u64 b - t)) (begin_shrink s x b t d)
      go none = omega arith
      go (some (d, m)) = omega (arith, copy_start-le b t m)

  release_next-Within :
      (x : A) (c d : ℕ)
      → Discard s.arrays s.flags d c
      → (last : Bool) → (c == d) ≡ last
      → Within
          (log_sizes s c)
          (if last then return_pop s (some x) else release_next s x c d (s.arrays c).prev)
  unfolding release_next
  release_next-Within x c d path true e = omega arith
  release_next-Within x c d (done same) false e = absurd (cc ((==_iff c d).1 same))
  release_next-Within x c d (more p own before log rest) false e =
      subst (λ (next : Option ℕ). Within (log_sizes s c) (release_next s x c d next)) (sym before)
        (omega (arith, log))

  -- Each step that the owner makes in a call leaves the call fewer.
  pub owner_move-Within :
      {item : ℕ → A} {hi : ℕ} (pc : OwnerPc A)
      → s.owner ≡ pc
      → Inv s item hi pc
      → Within (steps_left s.ranges (log_sizes s) s.active s.bottom s.top pc - 1) (owner_move s pc)
  unfolding owner_move
  owner_move-Within (push_start x) at inv =
      either_way
        (λ (pc : OwnerPc A).
          Within
            (7
              + (to_u64 s.bottom - s.top)
              + class_count (find_range s.ranges (log_sizes s s.active + 1))
              - 1)
            (at_owner s pc))
        _ _ (is_full (s.arrays s.active) s.bottom s.cached_top) (omega arith) (omega arith)
  owner_move-Within (push_refresh x b a) at inv =
      either_way
        (Within
          (6 + (to_u64 b - s.top) + class_count (find_range s.ranges (log_sizes s a + 1)) - 1))
        _ _ (is_full (s.arrays a) b s.top)
        (one_less _ _ _ (omega arith) (begin_acquire-Within x b a s.top)) (omega arith)
  owner_move-Within (push_acquire x b t a i zero) at inv = omega arith
  owner_move-Within (push_acquire x b t a i (suc left)) at inv =
      either_way (Within (5 + (to_u64 b - t) + suc left - 1)) _ _ (is_available (s.flags i))
        (omega arith) (omega arith)
  owner_move-Within (push_copy x b a d i) at inv = copies (ltb i (to_u64 b)) refl
    where
      copies :
          (more : Bool)
          → ltb i (to_u64 b) ≡ more
          → Within (4 + (to_u64 b - i) - 1) (
              if more
              then record (with_array s d (store_no_mark (s.arrays d) i (load (s.arrays a) i))) {
                owner = push_copy x b a d (i + 1);
              }
              else at_owner s (push_publish x b d))
      copies true lt = omega (arith, ltb→lt i (to_u64 b) lt)
      copies false lt = omega arith
  owner_move-Within (push_publish x b d) at inv = omega arith
  owner_move-Within (push_store x b a) at inv = omega arith
  owner_move-Within (push_bottom x b) at inv = omega arith
  owner_move-Within pop_start at inv = omega arith
  owner_move-Within (pop_refresh (pos b) a) at inv =
      either_way
        (λ (pc : OwnerPc A). Within (10 + log_sizes s s.active + (b - s.top) - 1) (at_owner s pc)) _
        _ (is_negative (pos b -ℤ pos s.top)) (omega arith) (omega arith)
  owner_move-Within (pop_refresh (negsuc b) a) at inv =
      below (is_negative (negsuc b -ℤ pos s.top)) refl
    where
      below :
          (negative : Bool)
          → is_negative (negsuc b -ℤ pos s.top) ≡ negative
          → Within
              (10 + log_sizes s s.active + (0 - s.top) - 1)
              (at_owner s (if negative then pop_empty s.top else pop_load (negsuc b) s.top a))
      below true e = omega arith
      below false e = absurd (ground (arith, e))
  owner_move-Within (pop_empty t) at inv = omega arith
  owner_move-Within (pop_load b t a) at inv =
      either_way
        (λ (pc : OwnerPc A). Within (9 + log_sizes s s.active + (to_u64 b - t) - 1) (at_owner s pc))
        _ _ (is_positive (b -ℤ pos t)) (omega arith) (omega arith)
  owner_move-Within (pop_cas x t) at inv =
      cas_top-Within (2 - 1) t (t + 1) (pop_won x t) (pop_lost t) (omega arith) (omega arith)
  owner_move-Within (pop_won x t) at inv = omega arith
  owner_move-Within (pop_lost t) at inv = omega arith
  owner_move-Within (shrink_start x b t) at inv = one_less _ _ _ (omega arith) (
      decide_shrink-Within x b t
        (count_shrink (s.arrays s.active).log_size s.arrays s.active s.min_log_size b t))
  owner_move-Within (shrink_copy x b a d i) at inv = copies (ltb i (to_u64 b)) refl
    where
      copies :
          (more : Bool)
          → ltb i (to_u64 b) ≡ more
          → Within (7 + log_sizes s a + (to_u64 b - i) - 1) (
              if more
              then record (with_array s d (store_no_mark (s.arrays d) i (load (s.arrays a) i))) {
                owner = shrink_copy x b a d (i + 1);
              }
              else at_owner s (shrink_publish x b a d))
      copies true lt = omega (arith, ltb→lt i (to_u64 b) lt)
      copies false lt = omega arith
  owner_move-Within (shrink_publish x b a d) at inv = omega arith
  owner_move-Within (shrink_shift x b a d) at inv = omega arith
  owner_move-Within (shrink_snapshot x b a d) at inv = omega arith
  owner_move-Within (shrink_cas x b a d snapshot) at inv =
      cas_top-Within (3 + log_sizes s a - 1) snapshot (snapshot + size (s.arrays d))
        (shrink_release x a d) (shrink_restore x b a d) (omega arith) (omega arith)
  owner_move-Within (shrink_restore x b a d) at inv = omega arith
  owner_move-Within (shrink_release x c d) at inv =
      one_less _ _ _ (omega arith) (release_next-Within x c d inv.owner_ok.2 (c == d) refl)
  owner_move-Within idle at inv =
      subst (λ (pc : OwnerPc A). steps_left s.ranges (log_sizes s) s.active s.bottom s.top pc ≤ 0)
        (sym at) (omega arith)
  owner_move-Within fault at inv =
      subst (λ (pc : OwnerPc A). steps_left s.ranges (log_sizes s) s.active s.bottom s.top pc ≤ 0)
        (sym at) (omega arith)
