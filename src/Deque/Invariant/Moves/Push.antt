-- ===== src/Deque/Invariant/Moves/Push.antt =====
-- The steps of `try_push_bottom` that read and decide.
use lock_free_deque.Prelude.{
  ℕ, zero, ◌+◌, ◌≤◌, ◌≡◌, refl, ap, inl, inr, ◌∷◌, Option, none, some, Bool, true, false, arith,
  if◌then◌else◌,
}
use lock_free_deque.Prelude.Int.{ℤ}
use lock_free_deque.StealResult.{PushResult}
use lock_free_deque.CircularArray.{size}
use lock_free_deque.Deque.State.{SizeClassRange, push_returned, Machine}
use lock_free_deque.Deque.State.OwnerPc.{idle, push_start, push_refresh, push_acquire, push_store}
use lock_free_deque.Deque.Owner.{
  is_full, at_owner, find_range, begin_acquire, return_push, owner_move,
}
use lock_free_deque.Deque.View.{view}
use lock_free_deque.Deque.Invariant.Defs.{Scans, Inv}
use lock_free_deque.Deque.Invariant.Quiet.{Outcome, quiet-Outcome}
use lock_free_deque.Deque.Invariant.Tests.{is_full-false, is_full-true}

module _ {A : Type 0} {s : Machine A} {item : ℕ → A} {hi : ℕ} where
  push_start-case :
      (x : A)
      → Inv s item hi (push_start x)
      → (full : Bool) → is_full (s.arrays s.active) s.bottom s.cached_top ≡ full
      → Outcome (view s item hi (push_start x)) (
          at_owner s
            (if full then push_refresh x s.bottom s.active else push_store x s.bottom s.active))
  push_start-case x inv true e =
      let (at_hi, hangs) = inv.owner_ok in
      quiet-Outcome inv s.bottom s.cached_top s.trace (push_refresh x s.bottom s.active) refl
        inv.cached (at_hi, at_hi, refl, hangs) (λ t a now lt r. tt) (λ t now two k. inr tt)
  push_start-case x inv false e =
      let (at_hi, hangs) = inv.owner_ok in
      let le : s.cached_top ≤ hi = omega (arith, inv.cached, inv.le) in
      let fits = is_full-false (s.arrays s.active) s.bottom hi s.cached_top at_hi le e in
      quiet-Outcome inv s.bottom s.cached_top s.trace (push_store x s.bottom s.active) refl
        inv.cached (at_hi, at_hi, refl, omega (arith, fits, inv.cached), hangs) (λ t a now lt r. tt)
        (λ t now two k. inr tt)

  pub push_start-Outcome :
      (x : A)
      → Inv s item hi (push_start x)
      → Outcome (view s item hi (push_start x)) (owner_move s (push_start x))
  unfolding owner_move
  push_start-Outcome x inv = push_start-case x inv _ refl

  module _ (x : A) (b : ℤ) (a : ℕ) (inv : Inv s item hi (push_refresh x b a)) where
    refreshed : Machine A
    refreshed = record s { cached_top = s.top }

    begin_acquire-case :
        is_full (s.arrays a) b s.top ≡ true
        → (found : Option SizeClassRange) → find_range s.ranges ((s.arrays a).log_size + 1) ≡ found
        → Outcome (view s item hi (push_refresh x b a)) (elim found [
          | none ↦ return_push refreshed x PushResult.no_buffer_acquired
          | some range ↦ at_owner refreshed (push_acquire x b s.top a range.begin range.count)
        ])
    unfolding refreshed
    begin_acquire-case full none e =
        let (at_hi, b_hi, same, hangs) = inv.owner_ok in
        quiet-Outcome inv s.bottom s.top (push_returned x PushResult.no_buffer_acquired ∷ s.trace)
          idle refl (omega arith) (at_hi, hangs) (λ t a now lt r. tt) (λ t now two k. inr tt)
    begin_acquire-case full (some range) e =
        let (at_hi, b_hi, same, hangs) = inv.owner_ok in
        let same_size = ap (λ (r : ℕ). size (s.arrays r)) same in
        let wide = is_full-true (s.arrays a) b hi s.top b_hi inv.le full in
        quiet-Outcome inv s.bottom s.top s.trace (push_acquire x b s.top a range.begin range.count)
          refl (omega arith)
          (at_hi, b_hi, same, omega arith, omega (arith, inv.room, same_size), scans, hangs)
          (λ t a now lt r. tt) (λ t now two k. inl (omega (arith, same_size, wide)))
      where
        scans : Scans s item hi a range.begin range.count
        scans j ge lt = omega (arith, inv.pool ((s.arrays a).log_size + 1) e j ge lt)

    push_refresh-case :
        (full : Bool)
        → is_full (s.arrays a) b s.top ≡ full
        → Outcome (view s item hi (push_refresh x b a)) (
            if full
            then begin_acquire refreshed x b s.top a
            else at_owner refreshed (push_store x b a))
    unfolding begin_acquire refreshed
    push_refresh-case true e = begin_acquire-case e _ refl
    push_refresh-case false e =
        let (at_hi, b_hi, same, hangs) = inv.owner_ok in
        let fits = is_full-false (s.arrays a) b hi s.top b_hi inv.le e in
        quiet-Outcome inv s.bottom s.top s.trace (push_store x b a) refl (omega arith)
          (at_hi, b_hi, same, fits, hangs) (λ t a now lt r. tt) (λ t now two k. inr tt)

    pub push_refresh-Outcome :
        Outcome (view s item hi (push_refresh x b a)) (owner_move s (push_refresh x b a))
    unfolding owner_move refreshed
    push_refresh-Outcome = push_refresh-case _ refl

  pub push_acquire_none-Outcome :
      (x : A) (b : ℤ) (t a i : ℕ)
      → Inv s item hi (push_acquire x b t a i zero)
      → Outcome
          (view s item hi (push_acquire x b t a i zero))
          (owner_move s (push_acquire x b t a i zero))
  unfolding owner_move
  push_acquire_none-Outcome x b t a i inv =
      let (at_hi, b_hi, same, t_le, wide, scans, hangs) = inv.owner_ok in
      quiet-Outcome inv s.bottom s.cached_top
        (push_returned x PushResult.no_buffer_acquired ∷ s.trace) idle refl inv.cached
        (at_hi, hangs) (λ t a now lt r. tt) (λ t now two k. inr tt)
