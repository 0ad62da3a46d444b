-- ===== src/Deque/Invariant/Moves/Take.antt =====
-- The steps of `pop_bottom` from the load of the slot on.
use lock_free_deque.Prelude.{
  ℕ, suc, ◌+◌, ◌-◌, ◌<◌, ◌≡◌, ◌≢◌, refl, ap, sym, ◌∙◌, ◌⊎◌, inl, inr, List, [], ◌∷◌, ◌++◌, some,
  none, Bool, true, false, arith, if◌then◌else◌, ◌==◌, ==_iff, window, window-pop, window_empty,
}
use lock_free_deque.Prelude.Int.{ℤ, pos, ◌-ℤ◌, is_positive, to_u64}
use lock_free_deque.CircularArray.{load}
use lock_free_deque.Deque.State.{pop_returned, Machine}
use lock_free_deque.Deque.State.OwnerPc.{idle, pop_load, pop_cas, pop_won, pop_lost, shrink_start}
use lock_free_deque.Deque.Owner.{at_owner, owner_move}
use lock_free_deque.Deque.View.{
  View, pops, view, consed, pushed_values, popped_values, stolen_values,
}
use lock_free_deque.Deque.Invariant.Defs.{Inv}
use lock_free_deque.Deque.Invariant.Stable.{Stable, ThiefOk-Stable}
use lock_free_deque.Deque.Invariant.Quiet.{Outcome, quiet-Outcome}
use lock_free_deque.Deque.Invariant.Moves.Pop.{Chain-narrow}
use lock_free_deque.Deque.Invariant.Tests.{positive-lt, not-is_positive}

-- The owner wins the last item.
abbrev won : {A : Type 0} → Machine A → A → ℕ → Machine A
won s x t = record s { top = t + 1; owner = pop_won x t }

module _ {A : Type 0} {s : Machine A} {item : ℕ → A} where
  module _ {hi : ℕ} where
    pub pop_won-Outcome :
        (x : A) (t : ℕ)
        → Inv s item hi (pop_won x t)
        → Outcome (view s item hi (pop_won x t)) (owner_move s (pop_won x t))
    unfolding owner_move
    pop_won-Outcome x t inv =
        let (at_t, last, top_hi, hangs) = inv.owner_ok in
        quiet-Outcome inv (pos (t + 1)) s.cached_top (pop_returned (some x) ∷ s.trace) idle refl
          inv.cached (ap pos (omega arith), hangs) (λ t' a now lt r. tt) (λ t' now two k. inr tt)

    pub pop_lost-Outcome :
        (t : ℕ)
        → Inv s item hi (pop_lost t)
        → Outcome (view s item hi (pop_lost t)) (owner_move s (pop_lost t))
    unfolding owner_move
    pop_lost-Outcome t inv =
        let (at_t, last, top_hi, hangs) = inv.owner_ok in
        quiet-Outcome inv (pos (t + 1)) s.cached_top (pop_returned none ∷ s.trace) idle refl
          inv.cached (ap pos (omega arith), hangs) (λ t' a now lt r. tt) (λ t' now two k. inr tt)

    pop_load-case :
        (b : ℤ) (t a : ℕ) (inv : Inv s item hi (pop_load b t a)) (more : Bool)
        → is_positive (b -ℤ pos t) ≡ more
        → Outcome (view s item hi (pop_load b t a)) (
            at_owner s (
              if more
              then shrink_start (load (s.arrays a) (to_u64 b)) b t
              else pop_cas (load (s.arrays a) (to_u64 b)) t))
    pop_load-case b t a inv more e =
        let (at_b, same, t_le, which, hangs) = inv.owner_ok in decide more e which
      where
        x : A
        x = load (s.arrays a) (to_u64 b)

        seen :
            (q : Bool)
            → is_positive (b -ℤ pos t) ≡ q
            → ◌≡◌ {A = View A}
                (record {
                  queue = window item s.top (hi - s.top);
                  pushed = pushed_values s.trace;
                  popped = consed (if q then some x else none) (popped_values s.trace);
                  stolen = stolen_values s.trace;
                })
                (view s item hi (pop_load b t a))
        seen q e =
            ap {B = View A}
              (λ (r : Bool). record {
                queue = window item s.top (hi - s.top);
                pushed = pushed_values s.trace;
                popped = consed (if r then some x else none) (popped_values s.trace);
                stolen = stolen_values s.trace;
              })
              (sym e)

        decide :
            (more : Bool)
            → is_positive (b -ℤ pos t) ≡ more
            → ((b ≡ pos hi) × (t < hi)) ⊎ ((b ≡ pos t) × (hi ≡ suc t))
            → Outcome
                (view s item hi (pop_load b t a))
                (at_owner s (if more then shrink_start x b t else pop_cas x t))
        decide true e (inl (b_hi, lt)) =
            let (at_b, same, t_le, which, hangs) = inv.owner_ok in
            quiet-Outcome inv s.bottom s.cached_top s.trace (shrink_start x b t) (seen true e)
              inv.cached (at_b ∙ b_hi, b_hi, lt, t_le, hangs) (λ t' a' now lt' r. tt)
              (λ t' now two k. absurd (cc))
        decide true e (inr (b_t, last)) = absurd (omega (arith, positive-lt b t t b_t e))
        decide false e (inl (b_hi, lt)) = absurd (omega (arith, not-is_positive b t hi b_hi e))
        decide false e (inr (b_t, last)) =
            let (at_b, same, t_le, which, hangs) = inv.owner_ok in
            quiet-Outcome inv s.bottom s.cached_top s.trace (pop_cas x t) (seen false e) inv.cached
              (
                at_b ∙ b_t,
                last,
                t_le,
                λ now.
                    ap (λ (r : ℕ). load (s.arrays r) (to_u64 b)) same
                    ∙ ap (λ (z : ℤ). load (s.arrays s.active) (to_u64 z)) b_t
                    ∙ inv.held.1 t (omega arith) (omega arith) tt,
                hangs,
              )
              (λ t' a' now lt' r. tt) (λ t' now two k. inr tt)

    pub pop_load-Outcome :
        (b : ℤ) (t a : ℕ)
        → Inv s item hi (pop_load b t a)
        → Outcome (view s item hi (pop_load b t a)) (owner_move s (pop_load b t a))
    unfolding owner_move
    pop_load-Outcome b t a inv = pop_load-case b t a inv _ refl

    won-Inv :
        (x : A) (t : ℕ)
        → Inv s item hi (pop_cas x t)
        → s.top ≡ t
        → Inv (won s x t) item hi (pop_won x t)
    won-Inv x t inv now =
        let (at_t, last, t_le, right, hangs) = inv.owner_ok in
        record {
          le = omega arith;
          room = omega (arith, inv.room);
          cached = omega (arith, inv.cached);
          pool = inv.pool;
          held = (inv.held.0, λ j ge j_lt b. inv.held.1 j (omega arith) j_lt b);
          owner_ok = (
            at_t,
            last,
            omega arith,
            Chain-narrow s (t + 1) hi (omega arith) (omega arith) hangs,
          );
          thief_ok = λ k.
              ThiefOk-Stable s (won s x t) item item hi hi (pop_cas x t) (pop_won x t) (st now)
                (s.thieves k) (inv.thief_ok k);
        }
      where
        st : s.top ≡ t → Stable s (won s x t) item item hi hi (pop_cas x t) (pop_won x t)
        st now = record {
          grows = omega arith;
          same_item = λ t' was is. absurd (omega arith);
          same_slot = λ t' a was is. absurd (omega arith);
          same_offset = λ t' b was is. absurd (omega arith);
        }

    won-queue :
        (x : A) (t : ℕ)
        → Inv s item hi (pop_cas x t)
        → s.top ≡ t
        → window item s.top (hi - s.top) ≡ window item (t + 1) (hi - (t + 1)) ++ (x ∷ [])
    won-queue x t inv now =
        let (at_t, last, t_le, right, hangs) = inv.owner_ok in
        ap (λ (n : ℕ). window item s.top (n - s.top)) last
        ∙ window-pop item s.top t (omega arith)
        ∙ ap (λ (xs : List A). xs ++ (item t ∷ []))
            (window_empty item s.top (t - s.top) (omega arith)
              ∙ sym (window_empty item (t + 1) (hi - (t + 1)) (omega arith)))
        ∙ ap (λ (y : A). window item (t + 1) (hi - (t + 1)) ++ (y ∷ [])) (sym (right now))

    pop_cas-case :
        (x : A) (t : ℕ) (inv : Inv s item hi (pop_cas x t)) (same : Bool)
        → (s.top == t) ≡ same
        → Outcome
            (view s item hi (pop_cas x t))
            (if same then won s x t else at_owner s (pop_lost t))
    pop_cas-case x t inv true e =
        let now = (==_iff s.top t).0 e in
        (
          item,
          hi,
          won-Inv x t inv now,
          pops x
              (ap {B = View A}
                (λ (q : List A). record {
                  queue = q;
                  pushed = pushed_values s.trace;
                  popped = popped_values s.trace;
                  stolen = stolen_values s.trace;
                })
                (won-queue x t inv now))
              refl,
        )
    pop_cas-case x t inv false e =
        let (at_t, last, t_le, right, hangs) = inv.owner_ok in
        let moved : s.top ≢ t = λ now. absurd (cc ((==_iff s.top t).1 now)) in
        quiet-Outcome inv s.bottom s.cached_top s.trace (pop_lost t) refl inv.cached
          (at_t, last, omega (arith, inv.le), hangs) (λ t' a now lt r. tt) (λ t' now two k. inr tt)

    pub pop_cas-Outcome :
        (x : A) (t : ℕ)
        → Inv s item hi (pop_cas x t)
        → Outcome (view s item hi (pop_cas x t)) (owner_move s (pop_cas x t))
    unfolding owner_move
    pop_cas-Outcome x t inv = pop_cas-case x t inv _ refl
