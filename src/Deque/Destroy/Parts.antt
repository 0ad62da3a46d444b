-- ===== src/Deque/Destroy/Parts.antt =====
-- The parts of the code that claim and return records keep the owned records in the chain.
use lock_free_deque.Prelude.{
  ℕ, zero, suc, ◌+◌, ◌≤◌, ◌≡◌, ◌≢◌, refl, ap, sym, ◌∙◌, subst, Option, none, some, either_way, ◌==◌,
  update, update_self, update_ne, arith,
}
use native.Mathlib.Decide.{ℕ_discrete}
use lock_free_deque.Prelude.Int.{ℤ}
use lock_free_deque.CircularArray.{CircularArray}
use lock_free_deque.CircularArray.Slots.{update-keeps}
use lock_free_deque.StealResult.{PushResult}
use lock_free_deque.Deque.State.{Flag, available, owned, SizeClassRange, OwnerPc, Machine}
use lock_free_deque.Deque.State.OwnerPc.{push_acquire}
use lock_free_deque.Deque.Owner.{
  find_range, descend, at_owner, return_push, claim, begin_acquire, begin_shrink, decide_shrink,
  cas_top,
}
use lock_free_deque.Deque.Destroy.{release_array}
use lock_free_deque.Deque.Destroy.Kept.{On, found, below, link_of, head, Kept, On-frame}

module _ {A : Type 0} (s : Machine A) where
  -- A step that neither claims nor returns a record, and that keeps the links and the head.
  abbrev pub Quiet : ℕ → Machine A → Type 0
  Quiet h m =
      (m.flags ≡ s.flags)
      × ((q : ℕ) → link_of (m.arrays q) ≡ link_of (s.arrays q))
      × (head m.active m.owner ≡ h)

  pub quiet :
      (h : ℕ) (m : Machine A)
      → Quiet h m
      → ((r : ℕ) → s.flags r ≡ owned → On s.arrays s.flags r h)
      → Kept m
  quiet h m (same, links, same_head) kept r own = subst (On m.arrays m.flags r) (sym same_head) (
      On-frame (s.arrays h).log_size
        (λ q le is_owned.
          (ap (λ (flags : ℕ → Flag). flags q) same ∙ is_owned, ap (λ l. l.0) (links q)))
        (λ q. ap (λ l. l.1) (links q)) (omega arith)
        (kept r (ap (λ (flags : ℕ → Flag). flags r) (sym same) ∙ own)))

  -- Record `d` is written, and keeps its link.
  pub written :
      (d : ℕ) (c : CircularArray A)
      → link_of c ≡ link_of (s.arrays d)
      → (q : ℕ) → link_of (update s.arrays d c q) ≡ link_of (s.arrays q)
  written d c e q = update-keeps link_of s.arrays d c e q

  pub begin_acquire-Quiet :
      (x : A) (b : ℤ) (t a n : ℕ)
      → Quiet s.active (begin_acquire (record s { cached_top = n }) x b t a)
  unfolding begin_acquire
  begin_acquire-Quiet x b t a n = go (find_range s.ranges ((s.arrays a).log_size + 1))
    where
      go :
          (range : Option SizeClassRange)
          → Quiet s.active (elim range [
            | none ↦ return_push (record s { cached_top = n }) x PushResult.no_buffer_acquired
            | some range ↦
                at_owner
                  (record s { cached_top = n })
                  (push_acquire x b t a range.begin range.count)
          ])
      go none = (refl, λ q. refl, refl)
      go (some range) = (refl, λ q. refl, refl)

  pub decide_shrink-Quiet : (x : A) (b : ℤ) (t n : ℕ) → Quiet s.active (decide_shrink s x b t n)
  unfolding decide_shrink begin_shrink
  decide_shrink-Quiet x b t zero = (refl, λ q. refl, refl)
  decide_shrink-Quiet x b t (suc n) =
      go (descend (suc n) s.arrays s.active (s.arrays s.active).low_water_mark)
    where
      go : (d : Option (ℕ × Option ℕ)) → Quiet s.active (begin_shrink s x b t d)
      go none = (refl, λ q. refl, refl)
      go (some (d, m)) = (refl, written d _ refl, refl)

  pub cas_top-Quiet :
      (h expected desired : ℕ) (won lost : OwnerPc A)
      → head s.active won ≡ h
      → head s.active lost ≡ h
      → Quiet h (cas_top s expected desired won lost)
  unfolding cas_top
  cas_top-Quiet h expected desired won lost p q =
      either_way (Quiet h) _ _ (s.top == expected) (refl, λ q. refl, p) (refl, λ q. refl, q)

  pub claim-Kept :
      (x : A) (b : ℤ) (t a i : ℕ)
      → s.flags i ≡ available
      → (s.arrays i).log_size ≡ suc (s.arrays a).log_size
      → ((r : ℕ) → s.flags r ≡ owned → On s.arrays s.flags r a)
      → Kept (claim s x b t a i)
  claim-Kept x b t a i free log kept r own = elim (ℕ_discrete i r) [
    | yes same ↦ found same
    | no ne ↦
        below a (update_self s.flags i owned)
          (ap (λ (c : CircularArray A). c.prev) (update_self s.arrays i _))
          (sizes i ∙ log ∙ ap suc (sym (sizes a)))
          (On-frame (s.arrays a).log_size
            (λ q le is_owned. (
              update_ne s.flags i q owned (other q is_owned) ∙ is_owned,
              ap (λ (c : CircularArray A). c.prev) (update_ne s.arrays i q _ (other q is_owned)),
            ))
            sizes (omega arith) (kept r (sym (update_ne s.flags i r owned ne) ∙ own)))
  ]
    where
      other : (q : ℕ) → s.flags q ≡ owned → i ≢ q
      other q is_owned e = absurd (cc (ap s.flags e))

      sizes : (q : ℕ) → ((claim s x b t a i).arrays q).log_size ≡ (s.arrays q).log_size
      sizes q = update-keeps (λ (c : CircularArray A). c.log_size) s.arrays i _ refl q

  -- A chain that loses its first record keeps the others.
  pub release_array-On :
      (c p : ℕ)
      → (s.arrays c).prev ≡ some p
      → (s.arrays c).log_size ≡ suc (s.arrays p).log_size
      → ((r : ℕ) → s.flags r ≡ owned → On s.arrays s.flags r c)
      → (r : ℕ) → (release_array s c).flags r ≡ owned
      → On (release_array s c).arrays (release_array s c).flags r p
  release_array-On c p before log kept r own =
      On-frame (s.arrays p).log_size
        (λ q le is_owned. (
          update_ne s.flags c q available (apart q le) ∙ is_owned,
          ap (λ (e : CircularArray A). e.prev) (update_ne s.arrays c q _ (apart q le)),
        ))
        (λ q. update-keeps (λ (e : CircularArray A). e.log_size) s.arrays c _ refl q) (omega arith)
        (tail (kept r (sym (update_ne s.flags c r available not_returned) ∙ own)))
    where
      apart : (q : ℕ) → (s.arrays q).log_size ≤ (s.arrays p).log_size → c ≢ q
      apart q le e = omega (arith, ap (λ (n : ℕ). (s.arrays n).log_size) e)

      not_returned : c ≢ r
      not_returned e = absurd (cc (own, update_self s.flags c available, e))

      tail : On s.arrays s.flags r c → On s.arrays s.flags r p
      tail (found e) = absurd (not_returned e)
      tail (below p' is_owned before' log' rest) =
          let same : p' ≡ p = cc in subst (On s.arrays s.flags r) same rest
