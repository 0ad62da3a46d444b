-- ===== src/Deque/Invariant/Moves/Shift.antt =====
-- The publication of a smaller array, and the shift of the indices by its size.
use lock_free_deque.Prelude.{
  ℕ, ◌+◌, ◌-◌, ◌≤◌, ◌≡◌, ◌≢◌, refl, ap, sym, ◌∙◌, ◌⊎◌, inl, inr, List, Option, none, some, Bool,
  true, false, arith, if◌then◌else◌, ◌==◌, ==_iff, window, window_congr,
}
use lock_free_deque.Prelude.Int.{ℤ, pos, ◌+ℤ◌, pos-+ℤ}
use lock_free_deque.CircularArray.{size, load}
use lock_free_deque.CircularArray.Slots.{size-pos, load-shift}
use lock_free_deque.Deque.State.{Machine}
use lock_free_deque.Deque.State.OwnerPc.{
  shrink_publish, shrink_shift, shrink_snapshot, shrink_cas, shrink_restore, shrink_release,
}
use lock_free_deque.Deque.Owner.{at_owner, owner_move}
use lock_free_deque.Deque.View.{
  View, stays, view, consed, pushed_values, popped_values, stolen_values,
}
use lock_free_deque.Deque.Invariant.Chain.{Below, Holds, Chain-frame}
use lock_free_deque.Deque.Invariant.Defs.{Inv}
use lock_free_deque.Deque.Invariant.Stable.{Stable, ThiefOk-Stable}
use lock_free_deque.Deque.Invariant.Quiet.{Outcome, quiet-Outcome}

pub Below-mono : (i j : ℕ) (m : Option ℕ) → i ≤ j → Below j m → Below i m
Below-mono i j none le h = tt
Below-mono i j (some k) le h = omega arith

module _ {A : Type 0} {s : Machine A} {item : ℕ → A} {hi : ℕ} (x : A) (b : ℤ) (a d : ℕ) where
  pub shrink_publish-Outcome :
      Inv s item hi (shrink_publish x b a d)
      → Outcome (view s item hi (shrink_publish x b a d)) (owner_move s (shrink_publish x b a d))
  unfolding owner_move
  shrink_publish-Outcome inv =
      let ((at_hi, b_hi, same, own, smaller, fits, two, discard, hangs), copied) = inv.owner_ok in
      (
        item,
        hi,
        record {
          le = inv.le;
          room = fits;
          cached = inv.cached;
          pool = inv.pool;
          held = (own, λ j ge lt b'. copied j ge lt lt);
          owner_ok = (at_hi, (b_hi, refl, two, discard, hangs));
          thief_ok = λ k.
              ThiefOk-Stable s (record s { active = d; owner = shrink_shift x b a d }) item item hi
                hi (shrink_publish x b a d) (shrink_shift x b a d) st (s.thieves k)
                (inv.thief_ok k);
        },
        stays refl,
      )
    where
      st :
          Stable s
            (record s { active = d; owner = shrink_shift x b a d })
            item
            item
            hi
            hi
            (shrink_publish x b a d)
            (shrink_shift x b a d)
      st = record {
        grows = omega arith;
        same_item = λ t now still lt. (lt, refl);
        same_slot = λ t a' now still lt own slot r. (own, slot, tt);
        same_offset = λ t b' now still off. absurd off.2;
      }

  pub shrink_shift-Outcome :
      Inv s item hi (shrink_shift x b a d)
      → Outcome (view s item hi (shrink_shift x b a d)) (owner_move s (shrink_shift x b a d))
  unfolding owner_move
  shrink_shift-Outcome inv =
      let (at_hi, shifted) = inv.owner_ok in
      quiet-Outcome inv (b +ℤ pos (size (s.arrays d))) s.cached_top s.trace
        (shrink_snapshot x b a d) refl inv.cached
        (
          ap (λ (z : ℤ). z +ℤ pos (size (s.arrays d))) shifted.0 ∙ pos-+ℤ hi (size (s.arrays d)),
          shifted,
        )
        (λ t a' now lt r. tt) (λ t now two k. inr tt)

  pub shrink_snapshot-Outcome :
      Inv s item hi (shrink_snapshot x b a d)
      → Outcome (view s item hi (shrink_snapshot x b a d)) (owner_move s (shrink_snapshot x b a d))
  unfolding owner_move
  shrink_snapshot-Outcome inv =
      let (at_shift, shifted) = inv.owner_ok in
      quiet-Outcome inv s.bottom s.cached_top s.trace (shrink_cas x b a d s.top) refl inv.cached
        (at_shift, omega arith, shifted) (λ t a' now lt r. inl (sym now)) (λ t now two k. inr tt)

  pub shrink_restore-Outcome :
      Inv s item hi (shrink_restore x b a d)
      → Outcome (view s item hi (shrink_restore x b a d)) (owner_move s (shrink_restore x b a d))
  unfolding owner_move
  shrink_restore-Outcome inv =
      let (at_shift, (b_hi, same, two, discard, hangs)) = inv.owner_ok in
      quiet-Outcome inv b s.cached_top s.trace (shrink_release x a d) refl inv.cached
        (b_hi, same, discard, hangs) (λ t a' now lt r. r) (λ t now two k. inr tt)

  module _ (snapshot : ℕ) (inv : Inv s item hi (shrink_cas x b a d snapshot)) where
    item_after : ℕ → A
    item_after i = item (i - size (s.arrays d))

    -- The indices of all items grow by the size of the new array.
    renumbered : Machine A
    renumbered = record s { top = snapshot + size (s.arrays d); owner = shrink_release x a d }

    Holds-renumbered :
        s.top ≡ snapshot
        → (r : ℕ) (m : Option ℕ) → (s.arrays r).log_size ≤ (s.arrays d).log_size
        → Holds s.arrays s.flags item s.top hi r m
        → Holds s.arrays s.flags item_after
            (snapshot + size (s.arrays d))
            (hi + size (s.arrays d))
            r
            m
    unfolding item_after
    Holds-renumbered now r m le h = (
      h.0,
      λ j ge lt b'.
          let back : j ≡ j - size (s.arrays d) + size (s.arrays d) = omega arith in
          ap (load (s.arrays r)) back
          ∙ load-shift (s.arrays r) (s.arrays d) (j - size (s.arrays d)) le
          ∙ h.1 (j - size (s.arrays d)) (omega arith) (omega arith)
              (Below-mono (j - size (s.arrays d)) j m (omega arith) b'),
    )

    renumbered-Inv :
        s.top ≡ snapshot → Inv renumbered item_after (hi + size (s.arrays d)) (shrink_release x a d)
    unfolding renumbered
    renumbered-Inv now =
        let (at_shift, le, (b_hi, same, two, discard, hangs)) = inv.owner_ok in
        record {
          le = omega (arith, inv.le);
          room = omega (arith, inv.room);
          cached = omega (arith, inv.cached);
          pool = inv.pool;
          held =
              Holds-renumbered now s.active none
                (omega (arith, ap (λ (r : ℕ). (s.arrays r).log_size) same)) inv.held;
          owner_ok = (
            at_shift,
            same,
            discard,
            Chain-frame (s.arrays d).log_size none (λ r own lt. (refl, refl, refl))
                (λ r m lt under h. Holds-renumbered now r m (omega arith) h) hangs none
                (omega arith) refl refl (λ i b'. b') (λ i b'. tt),
          );
          thief_ok = λ k.
              ThiefOk-Stable s renumbered item item_after hi (hi + size (s.arrays d))
                (shrink_cas x b a d snapshot) (shrink_release x a d) (st now) (s.thieves k)
                (inv.thief_ok k);
        }
      where
        st :
            s.top ≡ snapshot
            → Stable s renumbered item item_after hi
                (hi + size (s.arrays d))
                (shrink_cas x b a d snapshot)
                (shrink_release x a d)
        st now = record {
          grows = omega arith;
          same_item = λ t was is. absurd (omega (arith, size-pos (s.arrays d)));
          same_slot = λ t a' was is. absurd (omega (arith, size-pos (s.arrays d)));
          same_offset = λ t b' was is. absurd (omega (arith, size-pos (s.arrays d)));
        }

    same_queue :
        s.top ≡ snapshot
        → window item_after
            (snapshot + size (s.arrays d))
            (hi + size (s.arrays d) - (snapshot + size (s.arrays d)))
          ≡ window item s.top (hi - s.top)
    unfolding item_after
    same_queue now =
        let same_length : hi + size (s.arrays d) - (snapshot + size (s.arrays d)) ≡ hi - s.top =
          omega arith in
        ap (window (λ i. item (i - size (s.arrays d))) (snapshot + size (s.arrays d))) same_length
        ∙ window_congr (λ i. item (i - size (s.arrays d))) item (snapshot + size (s.arrays d)) s.top
            (hi - s.top) (λ i lt. ap item (omega arith))

    shrink_cas-case :
        (same : Bool)
        → (s.top == snapshot) ≡ same
        → Outcome
            (view s item hi (shrink_cas x b a d snapshot))
            (if same then renumbered else at_owner s (shrink_restore x b a d))
    unfolding renumbered
    shrink_cas-case true e =
        let now = (==_iff s.top snapshot).0 e in
        (
          item_after,
          hi + size (s.arrays d),
          renumbered-Inv now,
          stays (
              ap {B = View A}
                (λ (q : List A). record {
                  queue = q;
                  pushed = pushed_values s.trace;
                  popped = consed (some x) (popped_values s.trace);
                  stolen = stolen_values s.trace;
                })
                (same_queue now)),
        )
    shrink_cas-case false e =
        let (at_shift, le, shifted) = inv.owner_ok in
        let moved : s.top ≢ snapshot = λ now. absurd (cc ((==_iff s.top snapshot).1 now)) in
        quiet-Outcome inv s.bottom s.cached_top s.trace (shrink_restore x b a d) refl inv.cached
          (at_shift, shifted) (λ t a' now lt r. newer moved now r) (λ t now two k. inr tt)
      where
        newer :
            {t a' : ℕ}
            → s.top ≢ snapshot
            → s.top ≡ t
            → (t ≡ snapshot) ⊎ (a' ≡ s.active)
            → a' ≡ s.active
        newer moved now (inl e) = absurd (moved (now ∙ e))
        newer moved now (inr e) = e

    pub shrink_cas-Outcome :
        Outcome
          (view s item hi (shrink_cas x b a d snapshot))
          (owner_move s (shrink_cas x b a d snapshot))
    unfolding owner_move renumbered
    shrink_cas-Outcome = shrink_cas-case _ refl
