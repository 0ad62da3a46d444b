-- ===== src/Deque/Progress/Stays.antt =====
-- What the other threads do leaves the owner's call no more steps than it had.
use lock_free_deque.Prelude.{
  ℕ, ◌+◌, ◌≤◌, ◌≡◌, refl, ap, sym, subst, List, either_way, ◌==◌, ==_iff, ◌&&◌, Bool, true, false,
  if◌then◌else◌, arith,
}
use lock_free_deque.Prelude.Int.{ℤ, pos, ◌-ℤ◌, is_positive}
use lock_free_deque.Deque.State.{SizeClassRange, OwnerPc, ThiefPc, Machine}
use lock_free_deque.Deque.State.OwnerPc.{
  push_start, push_refresh, pop_start, pop_refresh, pop_load, shrink_start, shrink_copy,
  shrink_publish, shrink_shift, shrink_snapshot, shrink_cas, shrink_restore, shrink_release,
}
use lock_free_deque.Deque.Owner.{find_range}
use lock_free_deque.StealResult.{StealState, of_state, of_value}
use lock_free_deque.Deque.Thief.{return_steal, thief_move}
use lock_free_deque.Deque.Progress.{class_count, steps_left, log_sizes, left}
use lock_free_deque.Deque.Progress.Sizes.{SameSizes}

module _ (ranges : List SizeClassRange) (sizes sizes' : ℕ → ℕ) (same : (r : ℕ) → sizes' r ≡ sizes r)
    (active : ℕ) (bottom : ℤ) (top top' : ℕ) (le : top ≤ top') where
  same_count :
      (r : ℕ)
      → class_count (find_range ranges (sizes' r + 1))
        ≡ class_count (find_range ranges (sizes r + 1))
  same_count r = ap (λ (n : ℕ). class_count (find_range ranges (n + 1))) (same r)

  pub steps_left-frame :
      {A : Type 0} (pc : OwnerPc A)
      → steps_left ranges sizes' active bottom top' pc
        ≤ steps_left ranges sizes active bottom top pc
  steps_left-frame (push_start x) = omega (arith, same_count active)
  steps_left-frame (push_refresh x b a) = omega (arith, same_count a)
  steps_left-frame pop_start = omega (arith, same active)
  steps_left-frame (pop_refresh b a) = omega (arith, same active)
  steps_left-frame (pop_load b t a) = omega (arith, same active)
  steps_left-frame (shrink_start x b t) = omega (arith, same active)
  steps_left-frame (shrink_copy x b a d i) = omega (arith, same a)
  steps_left-frame (shrink_publish x b a d) = omega (arith, same a)
  steps_left-frame (shrink_shift x b a d) = omega (arith, same a)
  steps_left-frame (shrink_snapshot x b a d) = omega (arith, same a)
  steps_left-frame (shrink_cas x b a d snapshot) = omega (arith, same a)
  steps_left-frame (shrink_restore x b a d) = omega (arith, same a)
  steps_left-frame (shrink_release x c d) = omega (arith, same c)
  steps_left-frame OwnerPc.idle = omega arith
  steps_left-frame _ = omega arith

module _ {A : Type 0} (s : Machine A) where
  -- Beside the sizes and `top_`, which grows, the owner's steps depend on what only it writes.
  abbrev pub Beside : Machine A → Type 0
  Beside s' =
      (s.top ≤ s'.top) × (s'.active ≡ s.active) × (s'.bottom ≡ s.bottom) × (s'.owner ≡ s.owner)

  -- The steps left are counted with the sizes of `s` as well.
  pub left-SameSizes :
      (m : Machine A)
      → SameSizes s m
      → left m ≤ steps_left s.ranges (log_sizes s) m.active m.bottom m.top m.owner
  left-SameSizes m (same_ranges, same) =
      subst
        (λ (rs : List SizeClassRange).
          steps_left rs (log_sizes m) m.active m.bottom m.top m.owner
          ≤ steps_left s.ranges (log_sizes s) m.active m.bottom m.top m.owner)
        (sym same_ranges)
        (steps_left-frame s.ranges (log_sizes s) (log_sizes m) same m.active m.bottom m.top m.top
          (omega arith) m.owner)

  pub Beside-left : (m : Machine A) → SameSizes s m → Beside m → left m ≤ left s
  Beside-left m same (le, same_active, same_bottom, same_owner) =
      let kept : steps_left s.ranges (log_sizes s) m.active m.bottom m.top m.owner
          ≡ steps_left s.ranges (log_sizes s) s.active s.bottom m.top s.owner =
        cc (same_active, same_bottom, same_owner) in
      omega (
        arith,
        kept,
        left-SameSizes m same,
        steps_left-frame s.ranges (log_sizes s) (log_sizes s) (λ r. refl) s.active s.bottom s.top
            m.top le s.owner,
      )

  pub thief_move-Beside : (i : ℕ) (p : ThiefPc A) → Beside (thief_move s i p)
  unfolding thief_move
  thief_move-Beside i (ThiefPc.got_bottom t old_array b) =
      either_way Beside _ _ (is_positive (b -ℤ pos t)) (omega arith, refl, refl, refl)
        (omega arith, refl, refl, refl)
  thief_move-Beside i (ThiefPc.recheck t old_array a) =
      either_way Beside _ _ (a == old_array && t == s.top) (omega arith, refl, refl, refl)
        (omega arith, refl, refl, refl)
  thief_move-Beside i (ThiefPc.claiming t x) = claims (s.top == t) refl
    where
      claims :
          (same : Bool)
          → (s.top == t) ≡ same
          → Beside (
              if same
              then return_steal (record s { top = t + 1 }) i (of_value x)
              else return_steal s i (of_state StealState.abort))
      claims true e = (omega (arith, (==_iff s.top t).0 e), refl, refl, refl)
      claims false e = (omega arith, refl, refl, refl)
  thief_move-Beside i ThiefPc.idle = (omega arith, refl, refl, refl)
  thief_move-Beside i _ = (omega arith, refl, refl, refl)
