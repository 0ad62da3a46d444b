-- ===== src/Deque/Invariant/Moves/Grow.antt =====
-- The claim of a larger array, and its publication.
use lock_free_deque.Prelude.{
  ℕ, suc, ◌+◌, ◌≡◌, ◌≢◌, refl, ap, sym, ◌∙◌, subst, Bool, true, false, some, none, arith, update,
  update_self, update_ne, if◌then◌else◌,
}
use lock_free_deque.Prelude.Int.{ℤ}
use lock_free_deque.CircularArray.{CircularArray}
use lock_free_deque.CircularArray.Slots.{size-suc, size-pos}
use lock_free_deque.Deque.State.{Flag, owned, Machine}
use lock_free_deque.Deque.State.OwnerPc.{push_acquire, push_copy, push_publish, push_store}
use lock_free_deque.Deque.Owner.{is_available, at_owner, claim, owner_move}
use lock_free_deque.Deque.View.{stays, view}
use lock_free_deque.Deque.Invariant.Chain.{Below, Chain, link}
use lock_free_deque.Deque.Invariant.Defs.{Inv}
use lock_free_deque.Deque.Invariant.Stable.{Stable, ThiefOk-Stable}
use lock_free_deque.Deque.Invariant.Quiet.{Outcome, quiet-Outcome}
use lock_free_deque.Deque.Invariant.Moves.Relink.{
  relinked, log_size-relinked, size-relinked, relinked_ne, Chain-relinked, Inv-relink,
}

owned-ne-available :
    (flags : ℕ → Flag) (r i : ℕ) → flags r ≡ owned → is_available (flags i) ≡ true → i ≢ r
owned-ne-available flags r i own free e = ground arith

module _ {A : Type 0} {s : Machine A} {item : ℕ → A} {hi : ℕ} where
  module _ (x : A) (b : ℤ) (t a i left : ℕ)
      (inv : Inv s item hi (push_acquire x b t a i (suc left))) where
    claim-Inv :
        is_available (s.flags i) ≡ true → Inv (claim s x b t a i) item hi (push_copy x b a i t)
    claim-Inv free =
        let (at_hi, b_hi, same, t_le, wide, scans, hangs) = inv.owner_ok in
        let log : (s.arrays i).log_size ≡ suc (s.arrays a).log_size =
          scans i (omega arith) (omega arith) in
        let apart = λ (r : ℕ) (own : s.flags r ≡ owned). owned-ne-available s.flags r i own free in
        Inv-relink inv i none (some a) (update s.flags i owned) (push_copy x b a i t)
          (update_ne s.flags i s.active owned (apart s.active inv.held.0) ∙ inv.held.0)
          (
            at_hi,
            b_hi,
            same,
            omega (
              arith,
              wide,
              size-relinked s.arrays i none (some a) i,
              size-suc (s.arrays i) (s.arrays a) log,
            ),
            (
              update_self s.flags i owned,
              log_size-relinked s.arrays i none (some a) i
                  ∙ log
                  ∙ ap (λ (r : ℕ). suc (s.arrays r).log_size) same
                  ∙ ap suc (sym (log_size-relinked s.arrays i none (some a) s.active)),
              ap (λ (c : CircularArray A). c.prev) (update_self s.arrays i _) ∙ ap some same,
              ap (λ (c : CircularArray A). c.low_water_mark) (update_self s.arrays i _),
            ),
            λ j ge lt lt'. absurd (omega arith),
            Chain-relinked s.arrays i none (some a) (update s.flags i owned) hangs
                (λ r own lt. apart r own) (λ r own ne. update_ne s.flags i r owned ne ∙ own)
                (ap (λ (c : CircularArray A). c.prev) (unchanged free)) none
                (λ j. subst (λ (c : CircularArray A). Below j c.low_water_mark) (unchanged free)),
          )
          (λ t' a' now lt own r. (update_ne s.flags i a' owned (apart a' own) ∙ own, tt)) (λ k. k)
      where
        unchanged :
            is_available (s.flags i) ≡ true
            → relinked s.arrays i none (some a) s.active ≡ s.arrays s.active
        unchanged free =
            relinked_ne s.arrays i none (some a) s.active
              (owned-ne-available s.flags s.active i inv.held.0 free)

    acquire-case :
        (free : Bool)
        → is_available (s.flags i) ≡ free
        → Outcome
            (view s item hi (push_acquire x b t a i (suc left)))
            (if free then claim s x b t a i else at_owner s (push_acquire x b t a (i + 1) left))
    acquire-case true e = (item, hi, claim-Inv e, stays refl)
    acquire-case false e =
        let (at_hi, b_hi, same, t_le, wide, scans, hangs) = inv.owner_ok in
        quiet-Outcome inv s.bottom s.cached_top s.trace (push_acquire x b t a (i + 1) left) refl
          inv.cached
          (at_hi, b_hi, same, t_le, wide, λ j ge lt. scans j (omega arith) (omega arith), hangs)
          (λ t' a' now lt r. tt) (λ t' now two k. absurd k)

    pub push_acquire-Outcome :
        Outcome
          (view s item hi (push_acquire x b t a i (suc left)))
          (owner_move s (push_acquire x b t a i (suc left)))
    unfolding owner_move
    push_acquire-Outcome = acquire-case _ refl

  pub push_publish-Outcome :
      (x : A) (b : ℤ) (d : ℕ)
      → Inv s item hi (push_publish x b d)
      → Outcome (view s item hi (push_publish x b d)) (owner_move s (push_publish x b d))
  unfolding owner_move
  push_publish-Outcome x b d inv =
      let (at_hi, b_hi, (own, log, prev, mark), copied, hangs) = inv.owner_ok in
      (
        item,
        hi,
        record {
          le = inv.le;
          room = omega (arith, inv.room, size-suc (s.arrays d) (s.arrays s.active) log);
          cached = inv.cached;
          pool = inv.pool;
          held = (own, λ j ge lt b'. copied j ge lt lt);
          owner_ok = (
            at_hi,
            b_hi,
            refl,
            omega (
              arith,
              inv.room,
              size-suc (s.arrays d) (s.arrays s.active) log,
              size-pos (s.arrays s.active),
            ),
            link s.active prev log (inv.held.0, λ j ge lt b'. inv.held.1 j ge lt tt)
                (subst (λ m. Chain s.arrays s.flags item s.top hi s.active m) (sym mark) hangs),
          );
          thief_ok = λ k.
              ThiefOk-Stable s _ item item hi hi (push_publish x b d) (push_store x b d) st
                (s.thieves k) (inv.thief_ok k);
        },
        stays refl,
      )
    where
      st :
          Stable s
            (record s { active = d; owner = push_store x b d })
            item
            item
            hi
            hi
            (push_publish x b d)
            (push_store x b d)
      st = record {
        grows = omega arith;
        same_item = λ t now still lt. (lt, refl);
        same_slot = λ t a now still lt own slot r. (own, slot, tt);
        same_offset = λ t b' now still off. absurd off.2;
      }
