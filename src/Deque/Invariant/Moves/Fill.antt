-- ===== src/Deque/Invariant/Moves/Fill.antt =====
-- The steps that write an array: the copies of `grow_into` and `shrink`, and the claim.
use lock_free_deque.Prelude.{
  ℕ, suc, ◌+◌, ◌≤◌, ◌<◌, ◌≡◌, ◌≢◌, ap, sym, ◌∙◌, Option, none, arith, update, update_self,
  update_ne, subst,
}
use lock_free_deque.CircularArray.{CircularArray, min_mark, size, load, store_no_mark}
use lock_free_deque.CircularArray.Slots.{
  load-store_self, load-store_ne, log_size-store, prev-store, low_water_mark-store,
}
use native.Mathlib.Decide.{ℕ_discrete}
use lock_free_deque.Deque.State.{Flag}
use lock_free_deque.Deque.Invariant.Chain.{Holds, Chain, Below, Chain-frame, Discard, done, more}

module _ {A : Type 0} (arrays : ℕ → CircularArray A) (flags : ℕ → Flag) (item : ℕ → A)
    (lo hi d i : ℕ) (v : A) where
  -- The memory after slot `i` of array `d` is written.
  abbrev pub written : ℕ → CircularArray A
  written = update arrays d (store_no_mark (arrays d) i v)

  pub log_size-written : (r : ℕ) → (written r).log_size ≡ (arrays r).log_size
  log_size-written r = ground (arith, log_size-store (arrays d) i v)

  pub prev-written : (r : ℕ) → (written r).prev ≡ (arrays r).prev
  prev-written r = ground (arith, prev-store (arrays d) i v)

  pub mark-written : (r : ℕ) → (written r).low_water_mark ≡ (arrays r).low_water_mark
  mark-written r = ground (arith, low_water_mark-store (arrays d) i v)

  pub load-written_other : (r j : ℕ) → r ≢ d → load (written r) j ≡ load (arrays r) j
  load-written_other r j ne =
      ap (λ (c : CircularArray A). load c j)
        (update_ne arrays d r (store_no_mark (arrays d) i v) (λ e. ne (sym e)))

  -- An index less than a size away keeps its value, unless it is the one that is written.
  pub load-written_ne :
      (r j : ℕ)
      → j ≢ i
      → j < i + size (arrays d)
      → i < j + size (arrays d)
      → load (written r) j ≡ load (arrays r) j
  load-written_ne r j ne p q = elim (ℕ_discrete d r) [
    | yes same ↦ ground (arith, load-store_ne (arrays d) i j v (λ e. ne (sym e)) q p)
    | no other ↦ load-written_other r j (λ e. other (sym e))
  ]

  pub load-written_self : load (written d) i ≡ v
  load-written_self =
      ap (λ (c : CircularArray A). load c i) (update_self arrays d (store_no_mark (arrays d) i v))
      ∙ load-store_self (arrays d) i v

  -- Writing the item that belongs there keeps every item that an array has.
  module _ (right : lo ≤ i → i < hi → v ≡ item i) (near : hi < i + size (arrays d))
      (fits : hi < lo + size (arrays d)) (small : i < hi) where
    pub load-written_item :
        (r j : ℕ) → lo ≤ j → j < hi → load (arrays r) j ≡ item j → load (written r) j ≡ item j
    load-written_item r j ge lt e = elim (ℕ_discrete j i) [
      | no ne ↦ load-written_ne r j ne (omega arith) (omega arith) ∙ e
      | yes same ↦ elim (ℕ_discrete d r) [
        | no other ↦ load-written_other r j (λ e'. other (sym e')) ∙ e
        | yes here ↦
            subst (λ k. load (written k) j ≡ item j) here
              (subst (λ k. load (written d) k ≡ item k) (sym same)
                (load-written_self ∙ right (omega arith) (omega arith)))
      ]
    ]

    pub Copied-written :
        ((j : ℕ) → lo ≤ j → j < hi → j < i → load (arrays d) j ≡ item j)
        → (j : ℕ) → lo ≤ j
        → j < hi
        → j < i + 1
        → load (written d) j ≡ item j
    Copied-written copied j ge lt le = elim (ℕ_discrete j i) [
      | yes same ↦
          subst (λ k. load (written d) k ≡ item k) (sym same)
            (load-written_self ∙ right (omega arith) (omega arith))
      | no ne ↦ load-written_item d j ge lt (copied j ge lt (omega arith))
    ]

    pub Holds-written :
        (r : ℕ) (m : Option ℕ)
        → Holds arrays flags item lo hi r m
        → Holds written flags item lo hi r m
    Holds-written r m (own, slots) =
        (own, λ j ge lt b. load-written_item r j ge lt (slots j ge lt b))

    pub Chain-written :
        {c : ℕ} {m : Option ℕ}
        → Chain arrays flags item lo hi c m
        → Chain written flags item lo hi c m
    Chain-written {c} {m} chain =
        Chain-frame (arrays c).log_size none
          (λ r own lt. (prev-written r, mark-written r, log_size-written r))
          (λ r m' lt under h. Holds-written r m' h) chain m (omega arith) (prev-written c)
          (log_size-written c) (λ k b. subst (λ w. Below k (min_mark m w)) (mark-written c) b)
          (λ k b. tt)

  pub Discard-written : {e c : ℕ} → Discard arrays flags e c → Discard written flags e c
  Discard-written (done same) = done same
  Discard-written (more {c} p own link log rest) =
      more p own (prev-written c ∙ link)
        (log_size-written c ∙ log ∙ ap suc (sym (log_size-written p))) (Discard-written rest)
