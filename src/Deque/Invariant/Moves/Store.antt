-- ===== src/Deque/Invariant/Moves/Store.antt =====
-- The store of a pushed value, and the store of `bottom_` that makes it an item.
use lock_free_deque.Prelude.{
  ℕ, ◌+◌, ◌-◌, ◌^◌, ◌≤◌, ◌<◌, ◌≡◌, ◌≢◌, refl, ap, sym, ◌∙◌, subst, inr, List, [], ◌∷◌, ◌++◌, some,
  none, arith, update, update_self, update_ne, window, window-push,
}
use lock_free_deque.Prelude.Int.{ℤ, pos, ◌+ℤ◌, pos-+ℤ}
use native.Mathlib.Decide.{ℕ_discrete}
use lock_free_deque.StealResult.{PushResult}
use lock_free_deque.CircularArray.{CircularArray, min_mark, size, load, store_no_mark, store}
use lock_free_deque.CircularArray.Slots.{
  load-store_self, load-store_ne, load-relink, log_size-store, prev-store,
}
use lock_free_deque.Deque.State.{Machine}
use lock_free_deque.Deque.State.OwnerPc.{idle, push_store, push_bottom}
use lock_free_deque.Deque.Owner.{with_array, return_push, owner_move}
use lock_free_deque.Deque.View.{
  View, pushes, stays, view, pushed_values, popped_values, stolen_values,
}
use lock_free_deque.Deque.Invariant.Chain.{
  log_size-ne, Below, Below-min_mark_left, Below-min_mark_right, Chain-frame,
}
use lock_free_deque.Deque.Invariant.Defs.{Inv}
use lock_free_deque.Deque.Invariant.Stable.{Stable, ThiefOk-Stable}
use lock_free_deque.Deque.Invariant.Quiet.{Outcome}

module _ {A : Type 0} (arrays : ℕ → CircularArray A) (d i : ℕ) (v : A) where
  abbrev pub stored : ℕ → CircularArray A
  stored = update arrays d (store (arrays d) i v)

  log_size-stored : (r : ℕ) → (stored r).log_size ≡ (arrays r).log_size
  log_size-stored r = ground (arith, log_size-store (arrays d) i v)

  prev-stored : (r : ℕ) → (stored r).prev ≡ (arrays r).prev
  prev-stored r = ground (arith, prev-store (arrays d) i v)

  load-store_self' : load (store (arrays d) i v) i ≡ v
  load-store_self' =
      load-relink (store_no_mark (arrays d) i v) _ _ i ∙ load-store_self (arrays d) i v

  load-store_ne' :
      (j : ℕ)
      → i ≢ j
      → i < j + size (arrays d)
      → j < i + size (arrays d)
      → load (store (arrays d) i v) j ≡ load (arrays d) j
  load-store_ne' j ne p q =
      load-relink (store_no_mark (arrays d) i v) _ _ j ∙ load-store_ne (arrays d) i j v ne p q

  load-stored_ne :
      (r j : ℕ)
      → i ≢ j
      → i < j + size (arrays d)
      → j < i + size (arrays d)
      → load (stored r) j ≡ load (arrays r) j
  load-stored_ne r j ne p q = ground (arith, load-store_ne' j ne p q)

  load-stored_self : load (stored d) i ≡ v
  load-stored_self =
      ap (λ (c : CircularArray A). load c i) (update_self arrays d _) ∙ load-store_self'

  mark-stored : (stored d).low_water_mark ≡ min_mark (arrays d).low_water_mark (some i)
  mark-stored = ap (λ (c : CircularArray A). c.low_water_mark) (update_self arrays d _)

module _ {A : Type 0} {s : Machine A} {item : ℕ → A} {hi : ℕ} where
  module _ (x : A) (inv : Inv s item hi (push_store x (pos hi) s.active)) where
    after_store : Machine A
    after_store = record (with_array s s.active (store (s.arrays s.active) hi x)) {
      owner = push_bottom x (pos hi);
    }

    slot_kept :
        (r j : ℕ)
        → s.top ≤ j
        → j < hi
        → load (stored s.arrays s.active hi x r) j ≡ load (s.arrays r) j
    slot_kept r j ge lt =
        load-stored_ne s.arrays s.active hi x r j (omega arith) (omega (arith, inv.room))
          (omega arith)

    same_size : (r : ℕ) → size (stored s.arrays s.active hi x r) ≡ size (s.arrays r)
    same_size r = ap (λ (n : ℕ). 2 ^ n) (log_size-stored s.arrays s.active hi x r)

    store-Stable :
        Stable s after_store item item hi hi
          (push_store x (pos hi) s.active)
          (push_bottom x (pos hi))
    unfolding after_store
    store-Stable = record {
      grows = omega arith;
      same_item = λ t now still lt. (lt, refl);
      same_slot = λ t a now still lt own slot r. (own, slot_kept a t (omega arith) lt ∙ slot, tt);
      same_offset = λ t b now still off. inr (
        off.0 ∙ ap (λ (n : ℕ). pos (t + n)) (sym (same_size s.active)),
        omega (arith, off.1, same_size s.active),
        tt,
      );
    }

    store-Inv : Inv after_store item hi (push_bottom x (pos hi))
    unfolding after_store
    store-Inv =
        let (at_hi, b_hi, same, wide, hangs) = inv.owner_ok in
        record {
          le = inv.le;
          room = omega (arith, inv.room, same_size s.active);
          cached = inv.cached;
          pool = λ log_size found j ge lt.
              log_size-stored s.arrays s.active hi x j ∙ inv.pool log_size found j ge lt;
          held = (inv.held.0, λ j ge lt b. slot_kept s.active j ge lt ∙ inv.held.1 j ge lt b);
          owner_ok = (
            at_hi,
            refl,
            omega (arith, wide, same_size s.active),
            load-stored_self s.arrays s.active hi x,
            λ i b.
                Below-min_mark_right i (s.arrays s.active).low_water_mark (some hi)
                  (subst (Below i) (mark-stored s.arrays s.active hi x) b),
            Chain-frame (s.arrays s.active).log_size none (λ r own lt. links r lt)
                (λ r m lt under h. (h.0, λ j ge j_lt b. slot_kept r j ge j_lt ∙ h.1 j ge j_lt b))
                hangs none (omega arith) (prev-stored s.arrays s.active hi x s.active)
                (log_size-stored s.arrays s.active hi x s.active)
                (λ i b.
                  Below-min_mark_left i (s.arrays s.active).low_water_mark (some hi)
                    (subst (Below i) (mark-stored s.arrays s.active hi x) b))
                (λ i b. tt),
          );
          thief_ok = λ k.
              ThiefOk-Stable s after_store item item hi hi _ _ store-Stable (s.thieves k)
                (inv.thief_ok k);
        }
      where
        links :
            (r : ℕ)
            → (s.arrays r).log_size < (s.arrays s.active).log_size
            → ((stored s.arrays s.active hi x r).prev ≡ (s.arrays r).prev)
              × ((stored s.arrays s.active hi x r).low_water_mark ≡ (s.arrays r).low_water_mark)
              × ((stored s.arrays s.active hi x r).log_size ≡ (s.arrays r).log_size)
        links r lt =
            let same =
              update_ne s.arrays s.active r (store (s.arrays s.active) hi x)
                (log_size-ne s.arrays r s.active lt) in
            (
              ap (λ (c : CircularArray A). c.prev) same,
              ap (λ (c : CircularArray A). c.low_water_mark) same,
              ap (λ (c : CircularArray A). c.log_size) same,
            )

    push_store-at_hi :
        Outcome
          (view s item hi (push_store x (pos hi) s.active))
          (owner_move s (push_store x (pos hi) s.active))
    unfolding owner_move after_store
    push_store-at_hi = (item, hi, store-Inv, stays refl)

  pub push_store-Outcome :
      (x : A) (b : ℤ) (a : ℕ)
      → Inv s item hi (push_store x b a)
      → Outcome (view s item hi (push_store x b a)) (owner_move s (push_store x b a))
  push_store-Outcome x b a inv =
      subst (λ z. Claim z a) (sym inv.owner_ok.1)
        (subst (λ c. Claim (pos hi) c) (sym inv.owner_ok.2) (push_store-at_hi x)) inv
    where
      Claim : ℤ → ℕ → Type 0
      Claim z c =
          Inv s item hi (push_store x z c)
          → Outcome (view s item hi (push_store x z c)) (owner_move s (push_store x z c))

  module _ (x : A) (b : ℤ) (inv : Inv s item hi (push_bottom x b)) where
    item_after : ℕ → A
    item_after = update item hi x

    pushed : ℤ → Machine A
    pushed z = return_push (record s { bottom = z +ℤ pos 1 }) x PushResult.success

    item_kept : (j : ℕ) → j < hi → item_after j ≡ item j
    unfolding item_after
    item_kept j lt = update_ne item hi j x (λ e. omega arith)

    bottom-Stable : (z : ℤ) → Stable s (pushed z) item item_after hi (hi + 1) (push_bottom x b) idle
    unfolding pushed
    bottom-Stable z = record {
      grows = omega arith;
      same_item = λ t now still lt. (omega arith, item_kept t lt);
      same_slot = λ t a now still lt own slot r. (own, slot, tt);
      same_offset = λ t b' now still off. inr (off.0, off.1, tt);
    }

    held_after : (j : ℕ) → s.top ≤ j → j < hi + 1 → load (s.arrays s.active) j ≡ item_after j
    unfolding item_after
    held_after j ge lt =
        let (at_hi, b_hi, wide, slot, marked, hangs) = inv.owner_ok in
        elim (ℕ_discrete hi j) [
          | yes same ↦
              subst (λ k. load (s.arrays s.active) k ≡ update item hi x k) same
                (slot ∙ sym (update_self item hi x))
          | no ne ↦ inv.held.1 j ge (omega arith) tt ∙ sym (update_ne item hi j x ne)
        ]

    bottom-Inv : Inv (pushed b) item_after (hi + 1) idle
    unfolding pushed
    bottom-Inv =
        let (at_hi, b_hi, wide, slot, marked, hangs) = inv.owner_ok in
        record {
          le = omega (arith, inv.le);
          room = wide;
          cached = inv.cached;
          pool = inv.pool;
          held = (inv.held.0, λ j ge lt b. held_after j ge lt);
          owner_ok = (
            ap (λ (z : ℤ). z +ℤ pos 1) b_hi ∙ pos-+ℤ hi 1,
            Chain-frame (s.arrays s.active).log_size (s.arrays s.active).low_water_mark
                (λ r own lt. (refl, refl, refl))
                (λ r m lt under h. (
                  h.0,
                  λ j ge j_lt b.
                      h.1 j ge (marked j (under j b)) b ∙ sym (item_kept j (marked j (under j b))),
                ))
                hangs none (omega arith) refl refl (λ i b. b) (λ i b. b),
          );
          thief_ok = λ k.
              ThiefOk-Stable s (pushed b) item item_after hi (hi + 1) _ _ (bottom-Stable b)
                (s.thieves k) (inv.thief_ok k);
        }

    window-after :
        window item_after s.top (hi + 1 - s.top) ≡ window item s.top (hi - s.top) ++ (x ∷ [])
    unfolding item_after
    window-after =
        window-push item item_after s.top hi inv.le (λ j ge lt. item_kept j lt)
        ∙ ap (λ (y : A). window item s.top (hi - s.top) ++ (y ∷ [])) (update_self item hi x)

    pub push_bottom-Outcome :
        Outcome (view s item hi (push_bottom x b)) (owner_move s (push_bottom x b))
    unfolding owner_move pushed
    push_bottom-Outcome = (
      item_after,
      hi + 1,
      bottom-Inv,
      pushes x (
          ap {B = View A}
            (λ (q : List A). record {
              queue = q;
              pushed = x ∷ pushed_values s.trace;
              popped = popped_values s.trace;
              stolen = stolen_values s.trace;
            })
            window-after),
    )
