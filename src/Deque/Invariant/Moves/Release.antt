-- ===== src/Deque/Invariant/Moves/Release.antt =====
-- The loop of `perhaps_shrink` that returns the discarded arrays to the pool.
use lock_free_deque.Prelude.{
  ℕ, suc, ◌≤◌, ◌<◌, ◌≡◌, ◌≢◌, refl, ap, sym, ◌∙◌, subst, inr, ◌∷◌, Option, none, some, Bool, true,
  false, arith, update, update_ne, if◌then◌else◌, ◌==◌, ==_iff,
}
use lock_free_deque.CircularArray.{CircularArray}
use lock_free_deque.Deque.State.{Flag, available, pop_returned, Machine}
use lock_free_deque.Deque.State.OwnerPc.{idle, shrink_release}
use lock_free_deque.Deque.Owner.{release_next, return_pop, owner_move}
use lock_free_deque.Deque.View.{stays, view}
use lock_free_deque.Deque.Invariant.Chain.{Below, Discard, done, more, log_size-ne}
use lock_free_deque.Deque.Invariant.Defs.{Hangs, Inv}
use lock_free_deque.Deque.Invariant.Quiet.{Outcome, quiet-Outcome}
use lock_free_deque.Deque.Invariant.Moves.Relink.{relinked, relinked_ne, Chain-relinked, Inv-relink}

-- The discarded arrays are no smaller than the one that stays.
Discard-log_size :
    {A : Type 0} {arrays : ℕ → CircularArray A} {flags : ℕ → Flag} {d c : ℕ}
    → Discard arrays flags d c
    → (arrays d).log_size ≤ (arrays c).log_size
Discard-log_size {arrays} (done e) = omega (arith, ap (λ (r : ℕ). (arrays r).log_size) e)
Discard-log_size (more p own prev log rest) = omega (arith, Discard-log_size rest)

-- A part of a chain that starts below record `c` does not feel what happens to `c`.
Discard-released :
    {A : Type 0} {arrays : ℕ → CircularArray A} {flags : ℕ → Flag} (c : ℕ) (m : Option ℕ) {d p : ℕ}
    → Discard arrays flags d p
    → (arrays p).log_size < (arrays c).log_size
    → Discard (relinked arrays c m none) (update flags c available) d p
Discard-released c m (done e) lt = done e
Discard-released {A} {arrays} {flags} c m (more {c = r} q own prev log rest) lt =
    let same = relinked_ne arrays c m none r (log_size-ne arrays r c lt) in
    let same_q = relinked_ne arrays c m none q (log_size-ne arrays q c (omega arith)) in
    more q (update_ne flags c r available (log_size-ne arrays r c lt) ∙ own)
      (ap (λ (e : CircularArray A). e.prev) same ∙ prev)
      (ap (λ (e : CircularArray A). e.log_size) same
        ∙ log
        ∙ ap (λ (e : CircularArray A). suc e.log_size) (sym same_q))
      (Discard-released c m rest (omega arith))

module _ {A : Type 0} {s : Machine A} {item : ℕ → A} {hi : ℕ} (x : A) (c d : ℕ)
    (inv : Inv s item hi (shrink_release x c d)) where
  released-Inv :
      (p : ℕ)
      → (s.arrays c).log_size ≡ suc (s.arrays p).log_size
      → Discard s.arrays s.flags d p
      → Inv (release_next s x c d (some p)) item hi (shrink_release x p d)
  unfolding release_next
  released-Inv p log rest =
      let (at_hi, same, discard, hangs) = inv.owner_ok in
      Inv-relink inv c (s.arrays c).low_water_mark none (update s.flags c available)
        (shrink_release x p d)
        (update_ne s.flags c s.active available (subst (λ r. c ≢ r) same apart) ∙ inv.held.0)
        (
          at_hi,
          same,
          Discard-released c (s.arrays c).low_water_mark rest (omega arith),
          Chain-relinked s.arrays c (s.arrays c).low_water_mark none (update s.flags c available)
              hangs (λ r own lt. log_size-ne s.arrays r c (omega (arith, bigger)))
              (λ r own ne. update_ne s.flags c r available ne ∙ own)
              (ap (λ (e : CircularArray A). e.prev) unchanged) none
              (λ i. subst (λ (e : CircularArray A). Below i e.low_water_mark) unchanged),
        )
        (λ t a now lt own recent.
          (update_ne s.flags c a available (λ e. apart (e ∙ recent ∙ sym same)) ∙ own, recent))
        (λ k. tt)
    where
      bigger : (s.arrays d).log_size < (s.arrays c).log_size
      bigger = omega (arith, Discard-log_size rest)

      apart : c ≢ d
      apart = log_size-ne s.arrays d c bigger

      unchanged : relinked s.arrays c (s.arrays c).low_water_mark none d ≡ s.arrays d
      unchanged = relinked_ne s.arrays c (s.arrays c).low_water_mark none d apart

  release-case :
      (same : Bool)
      → (c == d) ≡ same
      → Discard s.arrays s.flags d c
      → Outcome
          (view s item hi (shrink_release x c d))
          (if same then return_pop s (some x) else release_next s x c d (s.arrays c).prev)
  unfolding release_next
  release-case true e discard =
      let (at_hi, same, path, hangs) = inv.owner_ok in
      quiet-Outcome inv s.bottom s.cached_top (pop_returned (some x) ∷ s.trace) idle refl inv.cached
        (at_hi, subst (Hangs s item hi) same hangs) (λ t a now lt r. tt) (λ t now two k. inr tt)
  release-case false e (done same) = absurd (cc ((==_iff c d).1 same))
  release-case false e (more p own prev log rest) =
      subst (λ o. Outcome (view s item hi (shrink_release x c d)) (release_next s x c d o))
        (sym prev) (base p log rest)
    where
      base :
          (p : ℕ)
          → (s.arrays c).log_size ≡ suc (s.arrays p).log_size
          → Discard s.arrays s.flags d p
          → Outcome (view s item hi (shrink_release x c d)) (release_next s x c d (some p))
      base p log rest = (item, hi, released-Inv p log rest, stays refl)

  pub shrink_release-Outcome :
      Outcome (view s item hi (shrink_release x c d)) (owner_move s (shrink_release x c d))
  unfolding owner_move
  shrink_release-Outcome = release-case _ refl inv.owner_ok.2
