-- ===== src/Deque/Lent.antt =====
-- What the code of src/work_stealing_deque.h does to buffers that others hold: nothing.
use lock_free_deque.Prelude.{
  ℕ, zero, suc, ◌+◌, ◌≤◌, ◌≡◌, ◌≢◌, refl, ap, sym, ◌∙◌, subst, Option, none, some, Bool, true,
  false, if◌then◌else◌, ◌==◌, ◌&&◌, ==_iff, ltb, update_ne, either_way, arith,
}
use lock_free_deque.Prelude.Int.{ℤ, pos, ◌-ℤ◌, is_positive, to_u64}
use lock_free_deque.CircularArray.{size}
use lock_free_deque.BufferPool.Acquire.{available-is_available}
use lock_free_deque.StealResult.{PushResult}
use lock_free_deque.Deque.State.{available, owned, lent, SizeClassRange, OwnerPc, ThiefPc, Machine}
use lock_free_deque.Deque.State.OwnerPc.{
  push_refresh, push_acquire, push_copy, push_store, pop_cas, pop_won, pop_lost, shrink_start,
  shrink_copy, shrink_cas, shrink_restore, shrink_release,
}
use lock_free_deque.Deque.Owner.{
  find_range, is_available, is_full, count_shrink, at_owner, return_push, return_pop, claim,
  begin_acquire, begin_shrink, decide_shrink, release_next, cas_top, owner_move, owner_step,
}
use lock_free_deque.Deque.Thief.{thief_move, thief_step}
use lock_free_deque.Deque.Invariant.Chain.{Discard, done, more}
use lock_free_deque.Deque.Invariant.Defs.{Inv}
use lock_free_deque.Deque.Invariant.Moves.Find.{Found, find}

module _ {A : Type 0} (s : Machine A) (r : ℕ) where
  -- Buffer `r` and its flag are as in `s`.
  abbrev pub Untouched : Machine A → Type 0
  Untouched s' = (s'.arrays r ≡ s.arrays r) × (s'.flags r ≡ s.flags r)

  cas_top-Untouched :
      (expected desired : ℕ) (won lost : OwnerPc A)
      → Untouched (cas_top s expected desired won lost)
  unfolding cas_top
  cas_top-Untouched expected desired won lost =
      either_way Untouched _ _ (s.top == expected) (refl, refl) (refl, refl)

  begin_acquire-Untouched :
      (x : A) (b : ℤ) (t a n : ℕ) → Untouched (begin_acquire (record s { cached_top = n }) x b t a)
  unfolding begin_acquire
  begin_acquire-Untouched x b t a n = go (find_range s.ranges ((s.arrays a).log_size + 1))
    where
      go :
          (range : Option SizeClassRange)
          → Untouched (elim range [
            | none ↦ return_push (record s { cached_top = n }) x PushResult.no_buffer_acquired
            | some range ↦
                at_owner
                  (record s { cached_top = n })
                  (push_acquire x b t a range.begin range.count)
          ])
      go none = (refl, refl)
      go (some range) = (refl, refl)

  module _ (held : s.flags r ≡ lent) where
    -- A record that this deque owns is another one.
    elsewhere : (d : ℕ) → s.flags d ≡ owned → d ≢ r
    elsewhere d own e = absurd (cc (ap s.flags e))

    claims : (i : ℕ) → is_available (s.flags i) ≡ true → i ≢ r
    claims i free e = absurd (cc (ap s.flags e, available-is_available (s.flags i) free))

    decide_shrink-Untouched :
        (item : ℕ → A) (hi : ℕ) (x : A) (b : ℤ) (t n : ℕ)
        → Found s.arrays s.flags item s.top hi t s.active (s.arrays s.active).low_water_mark n
        → Untouched (decide_shrink s x b t n)
    unfolding decide_shrink begin_shrink
    decide_shrink-Untouched item hi x b t zero f = (refl, refl)
    decide_shrink-Untouched item hi x b t (suc n) f =
        subst (λ (o : Option (ℕ × Option ℕ)). Untouched (begin_shrink s x b t o)) (sym f.found)
          (update_ne s.arrays f.d r _ (elsewhere f.d f.holds.0), refl)

    module _ (item : ℕ → A) (hi : ℕ) (active_own : s.flags s.active ≡ owned) (le : s.top ≤ hi) where
      owner_move-Untouched : (pc : OwnerPc A) → Inv s item hi pc → Untouched (owner_move s pc)
      unfolding owner_move release_next
      owner_move-Untouched (push_refresh x b a) inv =
          either_way Untouched _ _ (is_full (s.arrays a) b s.top)
            (begin_acquire-Untouched x b s.top a s.top) (refl, refl)
      owner_move-Untouched (push_acquire x b t a i zero) inv = (refl, refl)
      owner_move-Untouched (push_acquire x b t a i (suc left)) inv =
          go (is_available (s.flags i)) refl
        where
          go :
              (free : Bool)
              → is_available (s.flags i) ≡ free
              → Untouched (
                  if free
                  then claim s x b t a i
                  else at_owner s (push_acquire x b t a (i + 1) left))
          go true e =
              (update_ne s.arrays i r _ (claims i e), update_ne s.flags i r owned (claims i e))
          go false e = (refl, refl)
      owner_move-Untouched (push_copy x b a d i) inv =
          either_way Untouched _ _ (ltb i (to_u64 b))
            (update_ne s.arrays d r _ (elsewhere d inv.owner_ok.4.0), refl) (refl, refl)
      owner_move-Untouched (push_store x b a) inv =
          (update_ne s.arrays a r _ (elsewhere a (ap s.flags inv.owner_ok.2 ∙ active_own)), refl)
      owner_move-Untouched (pop_cas x t) inv =
          cas_top-Untouched t (t + 1) (pop_won x t) (pop_lost t)
      owner_move-Untouched (shrink_start x b t) inv =
          let (at_hi, b_hi, t_lt, t_le, hangs) = inv.owner_ok in
          decide_shrink-Untouched item hi x b t
            (count_shrink (s.arrays s.active).log_size s.arrays s.active s.min_log_size b t)
            (find s.arrays s.flags item s.top hi s.min_log_size b t b_hi (omega arith)
              (s.arrays s.active).log_size s.active none (s.arrays s.active).low_water_mark hangs
              inv.held (λ i b. b))
      owner_move-Untouched (shrink_copy x b a d i) inv =
          either_way Untouched _ _ (ltb i (to_u64 b))
            (update_ne s.arrays d r _ (elsewhere d inv.owner_ok.0.3), refl) (refl, refl)
      owner_move-Untouched (shrink_cas x b a d snapshot) inv =
          cas_top-Untouched snapshot (snapshot + size (s.arrays d)) (shrink_release x a d)
            (shrink_restore x b a d)
      owner_move-Untouched (shrink_release x c d) inv = go inv.owner_ok.2 (c == d) refl
        where
          go :
              Discard s.arrays s.flags d c
              → (last : Bool) → (c == d) ≡ last
              → Untouched
                  (if last then return_pop s (some x) else release_next s x c d (s.arrays c).prev)
          go path true e = (refl, refl)
          go (done same) false e = absurd (cc ((==_iff c d).1 same))
          go (more p own before log rest) false e = (
            update_ne s.arrays c r _ (elsewhere c own),
            update_ne s.flags c r available (elsewhere c own),
          )
      owner_move-Untouched OwnerPc.idle inv = (refl, refl)
      owner_move-Untouched _ inv = (refl, refl)

  thief_move-Untouched : (i : ℕ) (p : ThiefPc A) → Untouched (thief_move s i p)
  unfolding thief_move
  thief_move-Untouched i (ThiefPc.got_bottom t old_array b) =
      either_way Untouched _ _ (is_positive (b -ℤ pos t)) (refl, refl) (refl, refl)
  thief_move-Untouched i (ThiefPc.recheck t old_array a) =
      either_way Untouched _ _ (a == old_array && t == s.top) (refl, refl) (refl, refl)
  thief_move-Untouched i (ThiefPc.claiming t x) =
      either_way Untouched _ _ (s.top == t) (refl, refl) (refl, refl)
  thief_move-Untouched i ThiefPc.idle = (refl, refl)
  thief_move-Untouched i _ = (refl, refl)

  pub owner_step-Untouched :
      (item : ℕ → A) (hi : ℕ) → Inv s item hi s.owner → s.flags r ≡ lent → Untouched (owner_step s)
  unfolding owner_step
  owner_step-Untouched item hi inv held =
      owner_move-Untouched held item hi inv.held.0 inv.le s.owner inv

  pub thief_step-Untouched : (i : ℕ) → Untouched (thief_step s i)
  unfolding thief_step
  thief_step-Untouched i = thief_move-Untouched i (s.thieves i)
