-- ===== src/Deque/Invariant/Moves/Shrink.antt =====
-- The steps of `perhaps_shrink` up to the shift of the indices.
use lock_free_deque.Prelude.{
  ℕ, zero, suc, ◌+◌, ◌-◌, ◌*◌, ◌≤◌, ◌<◌, ◌≡◌, refl, ap, sym, ◌∙◌, subst, ◌⊎◌, inl, inr, ◌∷◌, Option,
  none, some, arith, update_self,
}
use lock_free_deque.Prelude.Int.{ℤ, pos, to_u64}
use lock_free_deque.CircularArray.{CircularArray, min_mark, size}
use lock_free_deque.CircularArray.Slots.{size-pos}
use lock_free_deque.Deque.State.{pop_returned, Machine}
use lock_free_deque.Deque.State.OwnerPc.{idle, shrink_start, shrink_copy}
use lock_free_deque.Deque.Owner.{copy_start, count_shrink, begin_shrink, decide_shrink, owner_move}
use lock_free_deque.Deque.View.{stays, view}
use lock_free_deque.Deque.Invariant.Chain.{
  Below, Below-min_mark_left, Below-min_mark_right, log_size-ne,
}
use lock_free_deque.Deque.Invariant.Defs.{Inv}
use lock_free_deque.Deque.Invariant.Quiet.{Outcome, quiet-Outcome}
use lock_free_deque.Deque.Invariant.Moves.Find.{Found, find}
use lock_free_deque.Deque.Invariant.Moves.Relink.{
  relinked, load-relinked, log_size-relinked, size-relinked, prev-relinked, Chain-relinked,
  Discard-relinked, Inv-relink,
}

module _ {A : Type 0} {s : Machine A} {item : ℕ → A} {hi : ℕ} (x : A) (b : ℤ) (t : ℕ)
    (inv : Inv s item hi (shrink_start x b t)) where
  -- The copy can start where the marks say.
  start_near :
      (d : ℕ) (m : Option ℕ)
      → hi < t + size (s.arrays d)
      → b ≡ pos hi
      → hi < copy_start b t m + size (s.arrays d)
  start_near d none fits e =
      subst (λ z. hi < to_u64 z + size (s.arrays d)) (sym e) (omega (arith, size-pos (s.arrays d)))
  start_near d (some low) fits e = omega arith

  start_copied :
      (d j : ℕ) (m : Option ℕ)
      → b ≡ pos hi
      → t ≤ s.top
      → s.top ≤ j
      → j < hi
      → j < copy_start b t m
      → Below j m
  start_copied d j none e le ge lt lt' = tt
  start_copied d j (some low) e le ge lt lt' = omega arith

  module _ (n : ℕ)
      (f : Found s.arrays s.flags item s.top hi t s.active
        (s.arrays s.active).low_water_mark
        (suc n)) where
    open f use {d, least, above}

    lowered : Option ℕ
    lowered = min_mark (s.arrays d).low_water_mark least

    begin_shrink-Inv :
        Inv
          (begin_shrink s x b t (some (d, least)))
          item
          hi
          (shrink_copy x b s.active d (copy_start b t least))
    unfolding begin_shrink lowered
    begin_shrink-Inv =
        let (at_hi, b_hi, t_lt, t_le, hangs) = inv.owner_ok in
        Inv-relink inv d lowered (s.arrays d).prev s.flags
          (shrink_copy x b s.active d (copy_start b t least)) inv.held.0
          (
            (
              at_hi,
              b_hi,
              refl,
              f.holds.0,
              omega (
                arith,
                f.logs,
                log_size-relinked s.arrays d lowered (s.arrays d).prev d,
                log_size-relinked s.arrays d lowered (s.arrays d).prev s.active,
              ),
              omega (arith, wide t_lt f.small, same_size),
              omega (arith, wide t_lt f.small, same_size),
              Discard-relinked s.arrays d lowered (s.arrays d).prev refl f.path,
              Chain-relinked s.arrays d lowered (s.arrays d).prev s.flags f.chain
                  (λ r own lt. log_size-ne s.arrays r d lt) (λ r own ne. own)
                  (prev-relinked s.arrays d lowered (s.arrays d).prev refl d) none
                  (λ i b'. f.under i (
                    Below-min_mark_right i (s.arrays d).low_water_mark least (
                      subst (Below i)
                        (ap (λ (c : CircularArray A). c.low_water_mark) (update_self s.arrays d _))
                        b'))),
            ),
            omega (arith, start_near d least (omega (arith, wide t_lt f.small)) b_hi, same_size),
            λ j ge lt lt'.
                load-relinked s.arrays d lowered (s.arrays d).prev d j
                ∙ f.holds.1 j ge lt (
                    Below-min_mark_left j above (s.arrays d).low_water_mark
                      (f.under j (start_copied d j least b_hi t_le ge lt lt'))),
          )
          (λ t' a now lt own r. (own, tt)) (λ k. k)
      where
        wide :
            t < hi
            → (suc n ≡ 0) ⊎ (2 * (hi - t) + 2 ≤ size (s.arrays d))
            → (hi < t + size (s.arrays d)) × (2 ≤ size (s.arrays d))
        wide lt (inl e) = absurd (omega arith)
        wide lt (inr h) = omega arith

        same_size : size (relinked s.arrays d lowered (s.arrays d).prev d) ≡ size (s.arrays d)
        same_size = size-relinked s.arrays d lowered (s.arrays d).prev d

  pub shrink_start-Outcome :
      Outcome (view s item hi (shrink_start x b t)) (owner_move s (shrink_start x b t))
  unfolding owner_move begin_shrink
  shrink_start-Outcome =
      let (at_hi, b_hi, t_lt, t_le, hangs) = inv.owner_ok in
      decide (count_shrink (s.arrays s.active).log_size s.arrays s.active s.min_log_size b t) (
        find s.arrays s.flags item s.top hi s.min_log_size b t b_hi (omega arith)
          (s.arrays s.active).log_size s.active none (s.arrays s.active).low_water_mark hangs
          inv.held (λ i b. b))
    where
      decide :
          (n : ℕ)
          → Found s.arrays s.flags item s.top hi t s.active (s.arrays s.active).low_water_mark n
          → Outcome (view s item hi (shrink_start x b t)) (decide_shrink s x b t n)
      decide zero f =
          let (at_hi, b_hi, t_lt, t_le, hangs) = inv.owner_ok in
          quiet-Outcome inv s.bottom s.cached_top (pop_returned (some x) ∷ s.trace) idle refl
            inv.cached (at_hi, hangs) (λ t' a now lt r. tt) (λ t' now two k. absurd k)
      decide (suc n) f =
          subst (λ o. Outcome (view s item hi (shrink_start x b t)) (begin_shrink s x b t o))
            (sym f.found) (item, hi, begin_shrink-Inv n f, stays refl)
