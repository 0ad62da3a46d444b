-- ===== src/Deque/Invariant/Others.antt =====
-- The other users of the pool: they change no record that this deque owns.
use lock_free_deque.Prelude.{
  ℕ, suc, ◌+◌, ◌≡◌, refl, ap, sym, ◌∙◌, subst, inr, Option, none, some, arith, if◌then◌else◌,
}
use lock_free_deque.Prelude.Int.{ℤ, pos, ◌-ℤ◌, is_positive, to_u64}
use lock_free_deque.CircularArray.{CircularArray, min_mark, size, load}
use lock_free_deque.Deque.State.{Flag, owned, OwnerPc, Machine}
use lock_free_deque.Deque.State.OwnerPc.{
  idle, push_start, push_refresh, push_acquire, push_copy, push_publish, push_store, push_bottom,
  pop_start, pop_refresh, pop_empty, pop_load, pop_cas, pop_won, pop_lost, shrink_start,
  shrink_copy, shrink_publish, shrink_shift, shrink_snapshot, shrink_cas, shrink_restore,
  shrink_release, fault,
}
use lock_free_deque.Deque.View.{
  stays, view, consed, in_hand, pushed_values, popped_values, stolen_values,
}
use lock_free_deque.Prelude.{◌-◌, window}
use lock_free_deque.Deque.Invariant.Chain.{Holds, Chain, last, link, Discard, done, more, Below}
use lock_free_deque.Deque.Invariant.Defs.{Hangs, Copied, Grows, Shrinks, Shifted, OwnerOk, Inv}
use lock_free_deque.Deque.Invariant.Stable.{Stable, ThiefOk-Stable}
use lock_free_deque.Deque.Invariant.Quiet.{Outcome}

module _ {A : Type 0} (s : Machine A) (item : ℕ → A) (hi : ℕ) (arrays' : ℕ → CircularArray A)
    (flags' : ℕ → Flag)
    (same : (r : ℕ) → s.flags r ≡ owned → (arrays' r ≡ s.arrays r) × (flags' r ≡ owned))
    (sizes : (r : ℕ) → (arrays' r).log_size ≡ (s.arrays r).log_size) where
  abbrev elsewhere : Machine A
  elsewhere = record s { arrays = arrays'; flags = flags' }

  same_size : (r : ℕ) → s.flags r ≡ owned → size (arrays' r) ≡ size (s.arrays r)
  same_size r own = ap size (same r own).0

  same_load : (r i : ℕ) → s.flags r ≡ owned → load (arrays' r) i ≡ load (s.arrays r) i
  same_load r i own = ap (λ (c : CircularArray A). load c i) (same r own).0

  Holds-elsewhere :
      (lo r : ℕ) (m : Option ℕ)
      → Holds s.arrays s.flags item lo hi r m
      → Holds arrays' flags' item lo hi r m
  Holds-elsewhere lo r m (own, items) =
      ((same r own).1, λ i ge lt b. same_load r i own ∙ items i ge lt b)

  Chain-elsewhere :
      {lo c : ℕ} {m : Option ℕ}
      → s.flags c ≡ owned
      → Chain s.arrays s.flags item lo hi c m
      → Chain arrays' flags' item lo hi c m
  Chain-elsewhere {lo} {c} own (last e) =
      last (ap (λ (a : CircularArray A). a.prev) (same c own).0 ∙ e)
  Chain-elsewhere {lo} {c} {m} own (link p e l h rest) =
      link p (ap (λ (a : CircularArray A). a.prev) (same c own).0 ∙ e)
        (sizes c ∙ l ∙ ap suc (sym (sizes p)))
        (subst (Holds arrays' flags' item lo hi p) mark (Holds-elsewhere lo p _ h))
        (subst (Chain arrays' flags' item lo hi p) mark (Chain-elsewhere h.0 rest))
    where
      mark : min_mark m (s.arrays c).low_water_mark ≡ min_mark m (arrays' c).low_water_mark
      mark = ap (λ (a : CircularArray A). min_mark m a.low_water_mark) (sym (same c own).0)

  Discard-elsewhere : {d c : ℕ} → Discard s.arrays s.flags d c → Discard arrays' flags' d c
  Discard-elsewhere (done e) = done e
  Discard-elsewhere (more {c} p own e l rest) =
      more p (same c own).1 (ap (λ (a : CircularArray A). a.prev) (same c own).0 ∙ e)
        (sizes c ∙ l ∙ ap suc (sym (sizes p))) (Discard-elsewhere rest)

  Copied-elsewhere :
      (d i : ℕ) → s.flags d ≡ owned → Copied s item hi d i → Copied elsewhere item hi d i
  Copied-elsewhere d i own copied j ge lt j_i = same_load d j own ∙ copied j ge lt j_i

  module _ (active_own : s.flags s.active ≡ owned) where
    hang : Hangs s item hi s.active → Hangs elsewhere item hi s.active
    hang h = Chain-elsewhere active_own h

    hang_at : (d : ℕ) → s.flags d ≡ owned → Hangs s item hi d → Hangs elsewhere item hi d
    hang_at d own h = Chain-elsewhere own h

    active_at : (d : ℕ) → d ≡ s.active → s.flags d ≡ owned
    active_at d e = ap s.flags e ∙ active_own

    grows : (d : ℕ) → Grows s item hi d → Grows elsewhere item hi d
    grows d (own, larger, before, fresh) = (
      (same d own).1,
      sizes d ∙ larger ∙ ap suc (sym (sizes s.active)),
      ap (λ (a : CircularArray A). a.prev) (same d own).0 ∙ before,
      ap (λ (a : CircularArray A). a.low_water_mark) (same d own).0 ∙ fresh,
    )

    shrinks : (b : ℤ) (a d : ℕ) → Shrinks s item hi b a d → Shrinks elsewhere item hi b a d
    shrinks b a d (p, q, r, own, smaller, fits, two, path, h) = (
      p,
      q,
      r,
      (same d own).1,
      omega (arith, sizes d, sizes a),
      omega (arith, same_size d own),
      omega (arith, same_size d own),
      Discard-elsewhere path,
      hang_at d own h,
    )

    shifted : (b : ℤ) (c d : ℕ) → Shifted s item hi b c d → Shifted elsewhere item hi b c d
    shifted b c d (p, q, two, path, h) = (
      p,
      q,
      omega (arith, same_size d (active_at d q)),
      Discard-elsewhere path,
      hang_at d (active_at d q) h,
    )

    far : (d : ℕ) → d ≡ s.active → pos (hi + size (s.arrays d)) ≡ pos (hi + size (arrays' d))
    far d e = ap (λ (n : ℕ). pos (hi + n)) (sym (same_size d (active_at d e)))

    elsewhere-OwnerOk : (pc : OwnerPc A) → OwnerOk s item hi pc → OwnerOk elsewhere item hi pc
    elsewhere-OwnerOk idle (b, h) = (b, hang h)
    elsewhere-OwnerOk (push_start x) (b, h) = (b, hang h)
    elsewhere-OwnerOk (push_refresh x b a) (p, q, r, h) = (p, q, r, hang h)
    elsewhere-OwnerOk (push_acquire x b t a i left) (p, q, r, le, wide, scans, h) = (
      p,
      q,
      r,
      le,
      omega (arith, same_size a (active_at a r)),
      λ j ge lt. sizes j ∙ scans j ge lt ∙ ap suc (sym (sizes a)),
      hang h,
    )
    elsewhere-OwnerOk (push_copy x b a d i) (p, q, r, near, g, copied, h) = (
      p,
      q,
      r,
      omega (arith, same_size d g.0),
      grows d g,
      Copied-elsewhere d i g.0 copied,
      hang h,
    )
    elsewhere-OwnerOk (push_publish x b d) (p, q, g, copied, h) =
        (p, q, grows d g, Copied-elsewhere d hi g.0 copied, hang h)
    elsewhere-OwnerOk (push_store x b a) (p, q, r, wide, h) =
        (p, q, r, omega (arith, same_size a (active_at a r)), hang h)
    elsewhere-OwnerOk (push_bottom x b) (p, q, wide, slot, marked, h) = (
      p,
      q,
      omega (arith, same_size s.active active_own),
      same_load s.active hi active_own ∙ slot,
      λ i below. marked i (
          subst (λ (a : CircularArray A). Below i a.low_water_mark) (same s.active active_own).0
            below),
      hang h,
    )
    elsewhere-OwnerOk pop_start (b, h) = (b, hang h)
    elsewhere-OwnerOk (pop_refresh b a) (p, q, r, h) = (p, q, r, hang h)
    elsewhere-OwnerOk (pop_empty t) (p, q, r, h) = (p, q, r, hang h)
    elsewhere-OwnerOk (pop_load b t a) (p, q, le, which, h) = (p, q, le, which, hang h)
    elsewhere-OwnerOk (pop_cas x t) (p, end, le, right, h) = (p, end, le, right, hang h)
    elsewhere-OwnerOk (pop_won x t) (p, end, top_hi, h) = (p, end, top_hi, hang h)
    elsewhere-OwnerOk (pop_lost t) (p, end, top_hi, h) = (p, end, top_hi, hang h)
    elsewhere-OwnerOk (shrink_start x b t) (p, q, lt, le, h) = (p, q, lt, le, hang h)
    elsewhere-OwnerOk (shrink_copy x b a d i) (k, near, copied) =
        (shrinks b a d k, omega (arith, same_size d k.3), Copied-elsewhere d i k.3 copied)
    elsewhere-OwnerOk (shrink_publish x b a d) (k, copied) =
        (shrinks b a d k, Copied-elsewhere d hi k.3 copied)
    elsewhere-OwnerOk (shrink_shift x b a d) (p, k) = (p, shifted b a d k)
    elsewhere-OwnerOk (shrink_snapshot x b a d) (p, k) = (p ∙ far d k.1, shifted b a d k)
    elsewhere-OwnerOk (shrink_cas x b a d snapshot) (p, le, k) =
        (p ∙ far d k.1, le, shifted b a d k)
    elsewhere-OwnerOk (shrink_restore x b a d) (p, k) = (p ∙ far d k.1, shifted b a d k)
    elsewhere-OwnerOk (shrink_release x c d) (p, q, path, h) =
        (p, q, Discard-elsewhere path, hang_at d (active_at d q) h)
    elsewhere-OwnerOk fault ok = ok

    elsewhere-in_hand :
        (pc : OwnerPc A) → OwnerOk s item hi pc → in_hand elsewhere pc ≡ in_hand s pc
    elsewhere-in_hand (pop_load b t a) ok =
        ap (λ (y : A). if is_positive (b -ℤ pos t) then some y else none)
          (same_load a (to_u64 b) (active_at a ok.1))
    elsewhere-in_hand idle ok = refl
    elsewhere-in_hand _ ok = refl

  pub elsewhere-Outcome :
      Inv s item hi s.owner
      → Outcome (view s item hi s.owner) (record s { arrays = arrays'; flags = flags' })
  elsewhere-Outcome inv = (item, hi, kept, stays seen)
    where
      st : Stable s elsewhere item item hi hi s.owner s.owner
      st = record {
        grows = omega arith;
        same_item = λ t now still lt. (lt, refl);
        same_slot = λ t a now still lt own slot r. ((same a own).1, same_load a t own ∙ slot, r);
        same_offset = λ t b now still off. inr (
          off.0 ∙ ap (λ (n : ℕ). pos (t + n)) (sym (same_size s.active inv.held.0)),
          omega (arith, same_size s.active inv.held.0),
          off.2,
        );
      }

      kept : Inv elsewhere item hi s.owner
      kept = record {
        le = inv.le;
        room = omega (arith, inv.room, same_size s.active inv.held.0);
        cached = inv.cached;
        pool = λ log_size found j ge lt. sizes j ∙ inv.pool log_size found j ge lt;
        held = Holds-elsewhere s.top s.active none inv.held;
        owner_ok = elsewhere-OwnerOk inv.held.0 s.owner inv.owner_ok;
        thief_ok = λ i.
            ThiefOk-Stable s elsewhere item item hi hi s.owner s.owner st (s.thieves i)
              (inv.thief_ok i);
      }

      seen : view elsewhere item hi s.owner ≡ view s item hi s.owner
      seen k = record {
        queue = window item s.top (hi - s.top);
        pushed = pushed_values s.trace;
        popped =
            consed (elsewhere-in_hand inv.held.0 s.owner inv.owner_ok k) (popped_values s.trace);
        stolen = stolen_values s.trace;
      }
