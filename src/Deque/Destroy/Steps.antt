-- ===== src/Deque/Destroy/Steps.antt =====
-- Every step keeps the owned records in the chain.
use lock_free_deque.Prelude.{
  ℕ, zero, suc, ◌+◌, ◌≡◌, ◌≢◌, refl, ap, sym, ◌∙◌, subst, Option, some, Bool, true, false,
  if◌then◌else◌, either_way, ◌==◌, ==_iff, ◌&&◌, ltb, update, update_self, update_ne, arith,
}
use lock_free_deque.Prelude.Int.{pos, ◌-ℤ◌, is_negative, is_positive, to_u64}
use lock_free_deque.CircularArray.{CircularArray, size, load, store_no_mark, reset_for_reuse}
use lock_free_deque.CircularArray.Slots.{update-keeps}
use lock_free_deque.BufferPool.Acquire.{available-is_available}
use lock_free_deque.Deque.State.{Flag, available, owned, lent, OwnerPc, ThiefPc, Machine}
use lock_free_deque.Deque.State.OwnerPc.{
  push_start, push_refresh, push_acquire, push_copy, push_publish, push_store, push_bottom,
  pop_start, pop_refresh, pop_empty, pop_load, pop_cas, pop_won, pop_lost, shrink_start,
  shrink_copy, shrink_publish, shrink_shift, shrink_snapshot, shrink_cas, shrink_restore,
  shrink_release,
}
use lock_free_deque.Deque.Owner.{
  is_available, is_full, count_shrink, at_owner, return_pop, claim, release_next, owner_move,
  owner_step,
}
use lock_free_deque.Deque.Thief.{at_thief, thief_move, thief_step}
use lock_free_deque.Deque.System.{
  owner_moves, push_called, pop_called, thief_moves, steal_called, other_claims, other_uses,
  other_returns, Step,
}
use lock_free_deque.Deque.Invariant.Chain.{Discard, done, more}
use lock_free_deque.Deque.Invariant.Defs.{Inv}
use lock_free_deque.Deque.Destroy.Kept.{On, head, KeptAt, Kept, On-frame}
use lock_free_deque.Deque.Destroy.Parts.{
  Quiet, quiet, written, begin_acquire-Quiet, decide_shrink-Quiet, cas_top-Quiet, claim-Kept,
  release_array-On,
}

module _ {A : Type 0} (s : Machine A) where
  owner_move-Kept :
      {item : ℕ → A} {hi : ℕ} (pc : OwnerPc A)
      → s.owner ≡ pc
      → Inv s item hi pc
      → KeptAt s pc
      → Kept (owner_move s pc)
  unfolding owner_move store_no_mark release_next
  owner_move-Kept (push_start x) at inv kept =
      quiet s s.active (owner_move s (push_start x))
        (either_way (λ (pc : OwnerPc A). Quiet s s.active (at_owner s pc))
          (push_refresh x s.bottom s.active) (push_store x s.bottom s.active)
          (is_full (s.arrays s.active) s.bottom s.cached_top) (refl, λ q. refl, refl)
          (refl, λ q. refl, refl))
        kept
  owner_move-Kept (push_refresh x b a) at inv kept =
      quiet s s.active (owner_move s (push_refresh x b a))
        (either_way (Quiet s s.active) _ _ (is_full (s.arrays a) b s.top)
          (begin_acquire-Quiet s x b s.top a s.top) (refl, λ q. refl, refl))
        kept
  owner_move-Kept (push_acquire x b t a i zero) at inv kept =
      quiet s s.active (owner_move s (push_acquire x b t a i zero)) (refl, λ q. refl, refl) kept
  owner_move-Kept (push_acquire x b t a i (suc left)) at inv kept =
      acquires (is_available (s.flags i)) refl
    where
      acquires :
          (free : Bool)
          → is_available (s.flags i) ≡ free
          → Kept
              (if free then claim s x b t a i else at_owner s (push_acquire x b t a (i + 1) left))
      acquires true free =
          let (at_hi, b_hi, same, t_le, room, scans, hangs) = inv.owner_ok in
          claim-Kept s x b t a i (available-is_available (s.flags i) free)
            (scans i (omega arith) (omega arith))
            (λ r own. subst (On s.arrays s.flags r) (sym same) (kept r own))
      acquires false free =
          quiet s s.active (at_owner s (push_acquire x b t a (i + 1) left)) (refl, λ q. refl, refl)
            kept
  owner_move-Kept (push_copy x b a d i) at inv kept =
      quiet s d (owner_move s (push_copy x b a d i))
        (either_way (Quiet s d) _ _ (ltb i (to_u64 b)) (refl, written s d _ refl, refl)
          (refl, λ q. refl, refl))
        kept
  owner_move-Kept (push_publish x b d) at inv kept =
      quiet s d (owner_move s (push_publish x b d)) (refl, λ q. refl, refl) kept
  owner_move-Kept (push_store x b a) at inv kept =
      quiet s s.active (owner_move s (push_store x b a)) (refl, written s a _ refl, refl) kept
  owner_move-Kept (push_bottom x b) at inv kept =
      quiet s s.active (owner_move s (push_bottom x b)) (refl, λ q. refl, refl) kept
  owner_move-Kept pop_start at inv kept =
      quiet s s.active (owner_move s pop_start) (refl, λ q. refl, refl) kept
  owner_move-Kept (pop_refresh b a) at inv kept =
      quiet s s.active (owner_move s (pop_refresh b a))
        (either_way (λ (pc : OwnerPc A). Quiet s s.active (at_owner s pc)) (pop_empty s.top)
          (pop_load b s.top a) (is_negative (b -ℤ pos s.top)) (refl, λ q. refl, refl)
          (refl, λ q. refl, refl))
        kept
  owner_move-Kept (pop_empty t) at inv kept =
      quiet s s.active (owner_move s (pop_empty t)) (refl, λ q. refl, refl) kept
  owner_move-Kept (pop_load b t a) at inv kept =
      quiet s s.active (owner_move s (pop_load b t a))
        (either_way (λ (pc : OwnerPc A). Quiet s s.active (at_owner s pc))
          (shrink_start (load (s.arrays a) (to_u64 b)) b t)
          (pop_cas (load (s.arrays a) (to_u64 b)) t) (is_positive (b -ℤ pos t))
          (refl, λ q. refl, refl) (refl, λ q. refl, refl))
        kept
  owner_move-Kept (pop_cas x t) at inv kept =
      quiet s s.active (owner_move s (pop_cas x t))
        (cas_top-Quiet s s.active t (t + 1) (pop_won x t) (pop_lost t) refl refl) kept
  owner_move-Kept (pop_won x t) at inv kept =
      quiet s s.active (owner_move s (pop_won x t)) (refl, λ q. refl, refl) kept
  owner_move-Kept (pop_lost t) at inv kept =
      quiet s s.active (owner_move s (pop_lost t)) (refl, λ q. refl, refl) kept
  owner_move-Kept (shrink_start x b t) at inv kept =
      quiet s s.active (owner_move s (shrink_start x b t))
        (decide_shrink-Quiet s x b t
          (count_shrink (s.arrays s.active).log_size s.arrays s.active s.min_log_size b t))
        kept
  owner_move-Kept (shrink_copy x b a d i) at inv kept =
      quiet s s.active (owner_move s (shrink_copy x b a d i))
        (either_way (Quiet s s.active) _ _ (ltb i (to_u64 b)) (refl, written s d _ refl, refl)
          (refl, λ q. refl, refl))
        kept
  owner_move-Kept (shrink_publish x b a d) at inv kept =
      quiet s s.active (owner_move s (shrink_publish x b a d)) (refl, λ q. refl, inv.owner_ok.0.2)
        kept
  owner_move-Kept (shrink_shift x b a d) at inv kept =
      quiet s a (owner_move s (shrink_shift x b a d)) (refl, λ q. refl, refl) kept
  owner_move-Kept (shrink_snapshot x b a d) at inv kept =
      quiet s a (owner_move s (shrink_snapshot x b a d)) (refl, λ q. refl, refl) kept
  owner_move-Kept (shrink_cas x b a d snapshot) at inv kept =
      quiet s a (owner_move s (shrink_cas x b a d snapshot))
        (cas_top-Quiet s a snapshot (snapshot + size (s.arrays d)) (shrink_release x a d)
          (shrink_restore x b a d) refl refl)
        kept
  owner_move-Kept (shrink_restore x b a d) at inv kept =
      quiet s a (owner_move s (shrink_restore x b a d)) (refl, λ q. refl, refl) kept
  owner_move-Kept (shrink_release x c d) at inv kept = releases inv.owner_ok.2 (c == d) refl
    where
      releases :
          Discard s.arrays s.flags d c
          → (last : Bool) → (c == d) ≡ last
          → Kept (if last then return_pop s (some x) else release_next s x c d (s.arrays c).prev)
      releases path true e =
          quiet s c (return_pop s (some x))
            (refl, λ q. refl, sym inv.owner_ok.1 ∙ sym ((==_iff c d).0 e)) kept
      releases (done same) false e = absurd (cc ((==_iff c d).1 same))
      releases (more p own before log rest) false e =
          subst (λ (o : Option ℕ). Kept (release_next s x c d o)) (sym before)
            (release_array-On s c p before log kept)
  owner_move-Kept OwnerPc.idle at inv kept =
      quiet s s.active (owner_move s OwnerPc.idle) (refl, λ q. refl, ap (head s.active) at) kept
  owner_move-Kept OwnerPc.fault at inv kept =
      quiet s s.active (owner_move s OwnerPc.fault) (refl, λ q. refl, ap (head s.active) at) kept

  thief_move-Quiet : (i : ℕ) (p : ThiefPc A) → Quiet s (head s.active s.owner) (thief_move s i p)
  unfolding thief_move
  thief_move-Quiet i (ThiefPc.got_bottom t old_array b) =
      either_way (Quiet s (head s.active s.owner)) _ _ (is_positive (b -ℤ pos t))
        (refl, λ q. refl, refl) (refl, λ q. refl, refl)
  thief_move-Quiet i (ThiefPc.recheck t old_array a) =
      either_way (Quiet s (head s.active s.owner)) _ _ (a == old_array && t == s.top)
        (refl, λ q. refl, refl) (refl, λ q. refl, refl)
  thief_move-Quiet i (ThiefPc.claiming t x) =
      either_way (Quiet s (head s.active s.owner)) _ _ (s.top == t) (refl, λ q. refl, refl)
        (refl, λ q. refl, refl)
  thief_move-Quiet i ThiefPc.idle = (refl, λ q. refl, refl)
  thief_move-Quiet i _ = (refl, λ q. refl, refl)

  -- What happens to the records that the deque does not own, and leaves them so.
  elsewhere-Kept :
      (arrays : ℕ → CircularArray A) (flags : ℕ → Flag)
      → ((n : ℕ) → s.flags n ≡ owned → (flags n ≡ owned) × ((arrays n).prev ≡ (s.arrays n).prev))
      → ((n : ℕ) → flags n ≡ owned → s.flags n ≡ owned)
      → ((n : ℕ) → (arrays n).log_size ≡ (s.arrays n).log_size)
      → Kept s
      → Kept (record s { arrays = arrays; flags = flags })
  elsewhere-Kept arrays flags same back sizes kept q own =
      On-frame (s.arrays (head s.active s.owner)).log_size (λ n le is_owned. same n is_owned) sizes
        (omega arith) (kept q (back q own))

  module _ (r : ℕ) (away : s.flags r ≢ owned) where
    flag_kept : (f : Flag) (n : ℕ) → s.flags n ≡ owned → update s.flags r f n ≡ owned
    flag_kept f n own = update_ne s.flags r n f (λ e. away (ap s.flags e ∙ own)) ∙ own

    prev_kept :
        (c : CircularArray A) (n : ℕ)
        → s.flags n ≡ owned
        → (update s.arrays r c n).prev ≡ (s.arrays n).prev
    prev_kept c n own =
        ap (λ (a : CircularArray A). a.prev)
          (update_ne s.arrays r n c (λ e. away (ap s.flags e ∙ own)))

    flag_back : (f : Flag) → f ≢ owned → (n : ℕ) → update s.flags r f n ≡ owned → s.flags n ≡ owned
    flag_back f stays_away n own = sym (update_ne s.flags r n f other) ∙ own
      where
        other : r ≢ n
        other e = stays_away (sym (update_self s.flags r f) ∙ ap (update s.flags r f) e ∙ own)

    claims-Kept :
        Kept s
        → Kept (record s {
          arrays = update s.arrays r (reset_for_reuse (s.arrays r));
          flags = update s.flags r lent;
        })
    claims-Kept =
        elsewhere-Kept (update s.arrays r (reset_for_reuse (s.arrays r))) (update s.flags r lent)
          (λ n own. (flag_kept lent n own, prev_kept (reset_for_reuse (s.arrays r)) n own))
          (flag_back lent (λ e. absurd (cc (e))))
          (update-keeps (λ (a : CircularArray A). a.log_size) s.arrays r _ refl)

    uses-Kept :
        (c : CircularArray A)
        → c.log_size ≡ (s.arrays r).log_size
        → Kept s
        → Kept (record s { arrays = update s.arrays r c })
    uses-Kept c keeps =
        elsewhere-Kept (update s.arrays r c) s.flags (λ n own. (own, prev_kept c n own))
          (λ n own. own) (update-keeps (λ (a : CircularArray A). a.log_size) s.arrays r c keeps)

    returns-Kept : Kept s → Kept (record s { flags = update s.flags r available })
    returns-Kept =
        elsewhere-Kept s.arrays (update s.flags r available)
          (λ n own. (flag_kept available n own, refl)) (flag_back available (λ e. absurd (cc (e))))
          (λ n. refl)

  pub Step-Kept :
      {s' : Machine A} {item : ℕ → A} {hi : ℕ}
      → Inv s item hi s.owner
      → Step s s'
      → Kept s
      → Kept s'
  unfolding owner_step thief_step
  Step-Kept inv owner_moves kept = owner_move-Kept s.owner refl inv kept
  Step-Kept inv (push_called x e) kept =
      quiet s s.active (at_owner s (push_start x)) (refl, λ q. refl, refl)
        (subst (λ (pc : OwnerPc A). KeptAt s pc) e kept)
  Step-Kept inv (pop_called e) kept =
      quiet s s.active (at_owner s pop_start) (refl, λ q. refl, refl)
        (subst (λ (pc : OwnerPc A). KeptAt s pc) e kept)
  Step-Kept inv (thief_moves i) kept =
      quiet s (head s.active s.owner) (thief_step s i) (thief_move-Quiet i (s.thieves i)) kept
  Step-Kept inv (steal_called i e) kept =
      quiet s (head s.active s.owner) (at_thief s i ThiefPc.start) (refl, λ q. refl, refl) kept
  Step-Kept inv (other_claims r e) kept = claims-Kept r (λ own. absurd (cc (e, own))) kept
  Step-Kept inv (other_uses r c e keeps) kept =
      uses-Kept r (λ own. absurd (cc (e, own))) c keeps kept
  Step-Kept inv (other_returns r e) kept = returns-Kept r (λ own. absurd (cc (e, own))) kept
