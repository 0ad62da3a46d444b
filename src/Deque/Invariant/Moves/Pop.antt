-- ===== src/Deque/Invariant/Moves/Pop.antt =====
-- The steps of `pop_bottom`.
use lock_free_deque.Prelude.{
  ℕ, suc, ◌-◌, ◌≤◌, ◌<◌, ◌≡◌, refl, ap, sym, ◌∙◌, subst, inl, inr, List, ◌∷◌, Option, some, none,
  Bool, true, false, arith, if◌then◌else◌, window, window-pop,
}
use lock_free_deque.Prelude.Int.{ℤ, pos, ◌-ℤ◌, is_positive, is_negative, pos--ℤ}
use lock_free_deque.CircularArray.{load}
use lock_free_deque.Deque.State.{pop_returned, Machine}
use lock_free_deque.Deque.State.OwnerPc.{idle, pop_start, pop_refresh, pop_empty, pop_load}
use lock_free_deque.Deque.Owner.{owner_move}
use lock_free_deque.Deque.View.{
  View, pops, view, consed, pushed_values, popped_values, stolen_values,
}
use lock_free_deque.Deque.Invariant.Chain.{Chain, Chain-frame}
use lock_free_deque.Deque.Invariant.Defs.{Inv}
use lock_free_deque.Deque.Invariant.Stable.{Stable, ThiefOk-Stable}
use lock_free_deque.Deque.Invariant.Quiet.{Outcome, quiet-Outcome}
use lock_free_deque.Deque.Invariant.Tests.{
  is_positive_iff-lt, not-is_positive, negative-pred, not-negative-pred,
}

-- A chain keeps its items while the range of the deque gets smaller.
pub Chain-narrow :
    {A : Type 0} (s : Machine A) {item : ℕ → A} {hi : ℕ} (lo' hi' : ℕ) {c : ℕ} {m : Option ℕ}
    → s.top ≤ lo'
    → hi' ≤ hi
    → Chain s.arrays s.flags item s.top hi c m
    → Chain s.arrays s.flags item lo' hi' c m
Chain-narrow s lo' hi' {c} {m} ge le chain =
    Chain-frame (s.arrays c).log_size none (λ r own lt. (refl, refl, refl))
      (λ r m' lt under h. (h.0, λ j j_ge j_lt b. h.1 j (omega arith) (omega arith) b)) chain m
      (omega arith) refl refl (λ i b. b) (λ i b. tt)

module _ {A : Type 0} {s : Machine A} {item : ℕ → A} where
  pub pop_start-Outcome :
      {hi : ℕ}
      → Inv s item hi pop_start
      → Outcome (view s item hi pop_start) (owner_move s pop_start)
  unfolding owner_move
  pop_start-Outcome {hi} inv =
      let (at_hi, hangs) = inv.owner_ok in
      quiet-Outcome inv (s.bottom -ℤ pos 1) s.cached_top s.trace
        (pop_refresh (s.bottom -ℤ pos 1) s.active) refl inv.cached
        (refl, ap (λ (z : ℤ). z -ℤ pos 1) at_hi ∙ pos--ℤ hi 1, refl, hangs) (λ t a now lt r. tt)
        (λ t now two k. inr tt)

  module _ (h : ℕ) (inv : Inv s item (suc h) (pop_refresh (pos h) s.active)) where
    loaded : Machine A
    loaded = record s { cached_top = s.top; owner = pop_load (pos h) s.top s.active }

    take_back-Inv : s.top < h → Inv loaded item h (pop_load (pos h) s.top s.active)
    unfolding loaded
    take_back-Inv lt =
        let (at_b, b_hi, same, hangs) = inv.owner_ok in
        record {
          le = omega arith;
          room = omega (arith, inv.room);
          cached = omega arith;
          pool = inv.pool;
          held = (inv.held.0, λ j ge j_lt b. inv.held.1 j ge (omega arith) b);
          owner_ok = (
            at_b,
            refl,
            omega arith,
            inl (refl, lt),
            Chain-narrow s s.top h (omega arith) (omega arith) hangs,
          );
          thief_ok = λ k.
              ThiefOk-Stable s loaded item item (suc h) h _ _ st (s.thieves k) (inv.thief_ok k);
        }
      where
        st :
            Stable s loaded item item
              (suc h)
              h
              (pop_refresh (pos h) s.active)
              (pop_load (pos h) s.top s.active)
        st = record {
          grows = omega arith;
          same_item = λ t now still t_lt. (omega arith, refl);
          same_slot = λ t a now still t_lt own slot r. (own, slot, tt);
          same_offset = λ t b now still off. inl (omega arith);
        }

    take_back :
        s.top ≤ h
        → (more : Bool) → is_positive (pos h -ℤ pos s.top) ≡ more
        → Outcome (view s item (suc h) (pop_refresh (pos h) s.active)) loaded
    unfolding loaded
    take_back le true e =
        let lt = is_positive_iff-lt s.top h e in
        (
          item,
          h,
          take_back-Inv lt,
          pops (item h)
              (ap {B = View A}
                (λ (q : List A). record {
                  queue = q;
                  pushed = pushed_values s.trace;
                  popped = popped_values s.trace;
                  stolen = stolen_values s.trace;
                })
                (window-pop item s.top h le))
              (ap
                  (λ (q : Bool).
                    consed (if q then some (load (s.arrays s.active) h) else none)
                      (popped_values s.trace))
                  e
                ∙ ap (λ (y : A). y ∷ popped_values s.trace) (inv.held.1 h le (omega arith) tt)),
        )
    take_back le false e =
        let (at_b, b_hi, same, hangs) = inv.owner_ok in
        let last : h ≡ s.top = omega (arith, not-is_positive (pos h) s.top h refl e) in
        quiet-Outcome inv s.bottom s.top s.trace (pop_load (pos h) s.top s.active)
          (ap {B = View A}
            (λ (q : Bool). record {
              queue = window item s.top (suc h - s.top);
              pushed = pushed_values s.trace;
              popped =
                  consed (if q then some (load (s.arrays s.active) h) else none)
                    (popped_values s.trace);
              stolen = stolen_values s.trace;
            })
            e)
          (omega arith) (at_b, refl, omega arith, inr (ap pos last, ap suc last), hangs)
          (λ t a now lt r. tt) (λ t now two k. inr e)

  module _ {hi : ℕ} where
    pop_refresh-case :
        (b : ℤ) (a : ℕ) (inv : Inv s item hi (pop_refresh b a)) (negative : Bool)
        → is_negative (b -ℤ pos s.top) ≡ negative
        → Outcome (view s item hi (pop_refresh b a)) (record s {
          cached_top = s.top;
          owner = if negative then pop_empty s.top else pop_load b s.top a;
        })
    unfolding loaded
    pop_refresh-case b a inv true e =
        let (at_b, b_hi, same, hangs) = inv.owner_ok in
        let none_left = negative-pred b s.top hi b_hi inv.le e in
        quiet-Outcome inv s.bottom s.top s.trace (pop_empty s.top) refl (omega arith)
          (at_b ∙ b_hi, none_left, none_left, hangs) (λ t a' now lt r. tt) (λ t now two k. inr tt)
    pop_refresh-case b a inv false e =
        let (at_b, b_hi, same, hangs) = inv.owner_ok in
        let (lt, b_last) = not-negative-pred b s.top hi b_hi e in
        subst (λ n. Claim n b a) (omega arith)
          (subst (λ z. Claim (suc (hi - 1)) z a) (sym b_last)
            (subst (λ c. Claim (suc (hi - 1)) (pos (hi - 1)) c) (sym same) (base lt)))
          inv
      where
        Claim : ℕ → ℤ → ℕ → Type 0
        Claim n z c =
            Inv s item n (pop_refresh z c)
            → Outcome (view s item n (pop_refresh z c))
                (record s { cached_top = s.top; owner = pop_load z s.top c })

        base : s.top < hi → Claim (suc (hi - 1)) (pos (hi - 1)) s.active
        base lt inv' = take_back (hi - 1) inv' (omega arith) _ refl

    pub pop_refresh-Outcome :
        (b : ℤ) (a : ℕ)
        → Inv s item hi (pop_refresh b a)
        → Outcome (view s item hi (pop_refresh b a)) (owner_move s (pop_refresh b a))
    unfolding owner_move
    pop_refresh-Outcome b a inv = pop_refresh-case b a inv _ refl

    pub pop_empty-Outcome :
        (t : ℕ)
        → Inv s item hi (pop_empty t)
        → Outcome (view s item hi (pop_empty t)) (owner_move s (pop_empty t))
    unfolding owner_move
    pop_empty-Outcome t inv =
        let (at_b, t_hi, top_hi, hangs) = inv.owner_ok in
        quiet-Outcome inv (pos t) s.cached_top (pop_returned none ∷ s.trace) idle refl inv.cached
          (ap pos t_hi, hangs) (λ t' a now lt r. tt) (λ t' now two k. inr tt)
