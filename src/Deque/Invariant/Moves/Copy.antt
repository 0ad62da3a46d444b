-- ===== src/Deque/Invariant/Moves/Copy.antt =====
-- One round of the copying loops of `grow_into` and `shrink`.
use lock_free_deque.Prelude.{
  ℕ, suc, ◌+◌, ◌^◌, ◌≤◌, ◌<◌, ◌≡◌, refl, ap, sym, ◌∙◌, subst, Bool, true, false, none, arith, ltb,
  ltb→lt, ltb→le, if◌then◌else◌,
}
use lock_free_deque.Prelude.Int.{ℤ, to_u64}
use lock_free_deque.CircularArray.{size, load, store_no_mark}
use lock_free_deque.CircularArray.Slots.{size-suc}
use lock_free_deque.Deque.State.{OwnerPc, Machine}
use lock_free_deque.Deque.State.OwnerPc.{push_copy, push_publish, shrink_copy, shrink_publish}
use lock_free_deque.Deque.Owner.{at_owner, with_array, owner_move}
use lock_free_deque.Deque.View.{stays, view}
use lock_free_deque.Deque.Invariant.Defs.{OwnerOk, Recent, Settled, Inv}
use lock_free_deque.Deque.Invariant.Stable.{Stable, ThiefOk-Stable}
use lock_free_deque.Deque.Invariant.Quiet.{Outcome, quiet-Outcome}
use lock_free_deque.Deque.Invariant.Moves.Fill.{
  written, log_size-written, prev-written, mark-written, load-written_item, Copied-written,
  Holds-written, Chain-written, Discard-written,
}

-- The owner stores `v` at index `i` of array `d` and goes on at `pc`.
abbrev pub filled : {A : Type 0} → Machine A → ℕ → ℕ → A → OwnerPc A → Machine A
filled s d i v pc = record (with_array s d (store_no_mark (s.arrays d) i v)) { owner = pc }

module _ {A : Type 0} {s : Machine A} {item : ℕ → A} {hi : ℕ} {pc : OwnerPc A} where
  pub Inv-filled :
      (inv : Inv s item hi pc) (d i : ℕ) (v : A) (pc' : OwnerPc A)
      → (s.top ≤ i → i < hi → v ≡ item i)
      → hi < i + size (s.arrays d)
      → hi < s.top + size (s.arrays d)
      → i < hi
      → OwnerOk (filled s d i v pc') item hi pc'
      → ((t a : ℕ) → Recent pc' s.active t a)
      → ¬ Settled pc
      → Inv (filled s d i v pc') item hi pc'
  Inv-filled inv d i v pc' right near fits small ok recent unsettled = record {
    le = inv.le;
    room = omega (arith, inv.room, same_size s.active);
    cached = inv.cached;
    pool = λ log_size found j ge lt.
        log_size-written s.arrays s.flags item s.top hi d i v j ∙ inv.pool log_size found j ge lt;
    held =
        Holds-written s.arrays s.flags item s.top hi d i v right near fits small s.active none
          inv.held;
    owner_ok = ok;
    thief_ok = λ k.
        ThiefOk-Stable s (filled s d i v pc') item item hi hi pc pc' st (s.thieves k)
          (inv.thief_ok k);
  }
    where
      same_size :
          (r : ℕ) → size (written s.arrays s.flags item s.top hi d i v r) ≡ size (s.arrays r)
      same_size r = ap (λ (n : ℕ). 2 ^ n) (log_size-written s.arrays s.flags item s.top hi d i v r)

      st : Stable s (filled s d i v pc') item item hi hi pc pc'
      st = record {
        grows = omega arith;
        same_item = λ t now still lt. (lt, refl);
        same_slot = λ t a now still lt own slot r. (
          own,
          load-written_item s.arrays s.flags item s.top hi d i v right near fits small a t
              (omega arith) lt slot,
          recent t a,
        );
        same_offset = λ t b now still off. absurd (unsettled off.2);
      }

module _ {A : Type 0} {s : Machine A} {item : ℕ → A} {hi : ℕ} (x : A) (b : ℤ) (a d i : ℕ) where
  push_copy-case :
      Inv s item hi (push_copy x b a d i)
      → (more : Bool) → ltb i (to_u64 b) ≡ more
      → Outcome (view s item hi (push_copy x b a d i)) (
          if more
          then filled s d i (load (s.arrays a) i) (push_copy x b a d (i + 1))
          else at_owner s (push_publish x b d))
  push_copy-case inv true e =
      let (at_hi, b_hi, same, near, (own, log, prev, mark), copied, hangs) = inv.owner_ok in
      let v = load (s.arrays a) i in
      let small : i < hi =
        subst (λ z. ltb i (to_u64 z) ≡ true → i < hi) (sym b_hi) (ltb→lt i hi) e in
      let right : (s.top ≤ i → i < hi → v ≡ item i) =
        λ ge lt. ap (λ (r : ℕ). load (s.arrays r) i) same ∙ inv.held.1 i ge lt tt in
      let fits : hi < s.top + size (s.arrays d) =
        omega (arith, inv.room, size-suc (s.arrays d) (s.arrays s.active) log) in
      (
        item,
        hi,
        Inv-filled inv d i v (push_copy x b a d (i + 1)) right near fits small
            (
              at_hi,
              b_hi,
              same,
              omega (arith, near, size-written d),
              (
                own,
                log_size-written s.arrays s.flags item s.top hi d i v d
                    ∙ log
                    ∙ ap suc (sym (log_size-written s.arrays s.flags item s.top hi d i v s.active)),
                prev-written s.arrays s.flags item s.top hi d i v d ∙ prev,
                mark-written s.arrays s.flags item s.top hi d i v d ∙ mark,
              ),
              Copied-written s.arrays s.flags item s.top hi d i v right near fits small copied,
              Chain-written s.arrays s.flags item s.top hi d i v right near fits small hangs,
            )
            (λ t r. tt) (λ k. k),
        stays refl,
      )
    where
      size-written :
          (r : ℕ)
          → size (written s.arrays s.flags item s.top hi d i (load (s.arrays a) i) r)
            ≡ size (s.arrays r)
      size-written r =
          ap (λ (n : ℕ). 2 ^ n)
            (log_size-written s.arrays s.flags item s.top hi d i (load (s.arrays a) i) r)
  push_copy-case inv false e =
      let (at_hi, b_hi, same, near, grows, copied, hangs) = inv.owner_ok in
      let big : hi ≤ i =
        subst (λ z. ltb i (to_u64 z) ≡ false → hi ≤ i) (sym b_hi) (ltb→le i hi) e in
      quiet-Outcome inv s.bottom s.cached_top s.trace (push_publish x b d) refl inv.cached
        (at_hi, b_hi, grows, λ j ge lt lt'. copied j ge lt (omega arith), hangs)
        (λ t a' now lt r. tt) (λ t now two k. absurd k)

  pub push_copy-Outcome :
      Inv s item hi (push_copy x b a d i)
      → Outcome (view s item hi (push_copy x b a d i)) (owner_move s (push_copy x b a d i))
  unfolding owner_move
  push_copy-Outcome inv = push_copy-case inv _ refl

  shrink_copy-case :
      Inv s item hi (shrink_copy x b a d i)
      → (more : Bool) → ltb i (to_u64 b) ≡ more
      → Outcome (view s item hi (shrink_copy x b a d i)) (
          if more
          then filled s d i (load (s.arrays a) i) (shrink_copy x b a d (i + 1))
          else at_owner s (shrink_publish x b a d))
  shrink_copy-case inv true e =
      let (shrinks, near, copied) = inv.owner_ok in
      let (at_hi, b_hi, same, own, smaller, fits, two, discard, hangs) = shrinks in
      let v = load (s.arrays a) i in
      let small : i < hi =
        subst (λ z. ltb i (to_u64 z) ≡ true → i < hi) (sym b_hi) (ltb→lt i hi) e in
      let right : (s.top ≤ i → i < hi → v ≡ item i) =
        λ ge lt. ap (λ (r : ℕ). load (s.arrays r) i) same ∙ inv.held.1 i ge lt tt in
      (
        item,
        hi,
        Inv-filled inv d i v (shrink_copy x b a d (i + 1)) right near fits small
            (
              (
                at_hi,
                b_hi,
                same,
                own,
                omega (
                  arith,
                  smaller,
                  log_size-written s.arrays s.flags item s.top hi d i v d,
                  log_size-written s.arrays s.flags item s.top hi d i v a,
                ),
                omega (arith, fits, size-written d),
                omega (arith, two, size-written d),
                Discard-written s.arrays s.flags item s.top hi d i v discard,
                Chain-written s.arrays s.flags item s.top hi d i v right near fits small hangs,
              ),
              omega (arith, near, size-written d),
              Copied-written s.arrays s.flags item s.top hi d i v right near fits small copied,
            )
            (λ t r. tt) (λ k. k),
        stays refl,
      )
    where
      size-written :
          (r : ℕ)
          → size (written s.arrays s.flags item s.top hi d i (load (s.arrays a) i) r)
            ≡ size (s.arrays r)
      size-written r =
          ap (λ (n : ℕ). 2 ^ n)
            (log_size-written s.arrays s.flags item s.top hi d i (load (s.arrays a) i) r)
  shrink_copy-case inv false e =
      let (shrinks, near, copied) = inv.owner_ok in
      let b_hi = shrinks.1 in
      let big : hi ≤ i =
        subst (λ z. ltb i (to_u64 z) ≡ false → hi ≤ i) (sym b_hi) (ltb→le i hi) e in
      quiet-Outcome inv s.bottom s.cached_top s.trace (shrink_publish x b a d) refl inv.cached
        (shrinks, λ j ge lt lt'. copied j ge lt (omega arith)) (λ t a' now lt r. tt)
        (λ t now two k. absurd k)

  pub shrink_copy-Outcome :
      Inv s item hi (shrink_copy x b a d i)
      → Outcome (view s item hi (shrink_copy x b a d i)) (owner_move s (shrink_copy x b a d i))
  unfolding owner_move
  shrink_copy-Outcome inv = shrink_copy-case inv _ refl
