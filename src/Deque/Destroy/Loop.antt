-- ===== src/Deque/Destroy/Loop.antt =====
-- The loop of `release_chain` in src/work_stealing_deque.h ends, and returns every owned record.
use lock_free_deque.Prelude.{
  ℕ, zero, suc, ◌<◌, ◌≡◌, ◌≢◌, refl, ap, sym, ◌∙◌, subst, Option, none, some, true, ◌&&◌,
  update_self, update_ne, arith,
}
use native.Mathlib.Decide.{ℕ_discrete}
use lock_free_deque.CircularArray.{CircularArray}
use lock_free_deque.CircularArray.Slots.{update-keeps}
use lock_free_deque.Deque.State.{Flag, available, owned, lent, Machine}
use lock_free_deque.Deque.Owner.{is_available}
use lock_free_deque.Deque.Invariant.Chain.{Chain, last, link, log_size-ne}
use lock_free_deque.Deque.Destroy.{release_array, release_chain, all_available}
use lock_free_deque.Deque.Destroy.Kept.{On, found, below}
use lock_free_deque.Deque.Destroy.Parts.{release_array-On}

-- The flag of a record after the deque has returned what it owns.
abbrev pub given_back : Flag → Flag
given_back available = available
given_back owned = available
given_back lent = lent

given_back-other : (f : Flag) → f ≢ owned → f ≡ given_back f
given_back-other available ne = refl
given_back-other owned ne = absurd (ne refl)
given_back-other lent ne = refl

pub all_available-true :
    (flags : ℕ → Flag) → ((r : ℕ) → flags r ≡ available) → (n : ℕ) → all_available flags n ≡ true
unfolding all_available
all_available-true flags free zero = refl
all_available-true flags free (suc n) =
    subst (λ (f : Flag). (is_available f && all_available flags n) ≡ true) (sym (free n))
      (all_available-true flags free n)

-- The owner's records from `c` on, down to a null pointer.
pub data Trail {A : Type 0} (arrays : ℕ → CircularArray A) (flags : ℕ → Flag) : ℕ → Type 0 where
  ends : {c : ℕ} → flags c ≡ owned → (arrays c).prev ≡ none → Trail arrays flags c
  goes :
      {c : ℕ} (p : ℕ)
      → flags c ≡ owned
      → (arrays c).prev ≡ some p
      → (arrays c).log_size ≡ suc (arrays p).log_size
      → Trail arrays flags p
      → Trail arrays flags c

pub Chain-Trail :
    {A : Type 0} {arrays : ℕ → CircularArray A} {flags : ℕ → Flag} {item : ℕ → A} {lo hi c : ℕ}
    {m : Option ℕ}
    → flags c ≡ owned
    → Chain arrays flags item lo hi c m
    → Trail arrays flags c
Chain-Trail own (last e) = ends own e
Chain-Trail own (link p e log h rest) = goes p own e log (Chain-Trail h.0 rest)

module _ {A : Type 0} where
  Trail-returned :
      (s : Machine A) (c : ℕ) {p : ℕ}
      → (s.arrays p).log_size < (s.arrays c).log_size
      → Trail s.arrays s.flags p
      → Trail (release_array s c).arrays (release_array s c).flags p
  Trail-returned s c lt (ends {c = p} own e) =
      let apart : c ≢ p = log_size-ne s.arrays p c lt in
      ends (update_ne s.flags c p available apart ∙ own)
        (ap (λ (a : CircularArray A). a.prev) (update_ne s.arrays c p _ apart) ∙ e)
  Trail-returned s c lt (goes {c = p} q own e log rest) =
      let apart : c ≢ p = log_size-ne s.arrays p c lt in
      goes q (update_ne s.flags c p available apart ∙ own)
        (ap (λ (a : CircularArray A). a.prev) (update_ne s.arrays c p _ apart) ∙ e)
        (same_size p ∙ log ∙ ap suc (sym (same_size q)))
        (Trail-returned s c (omega (arith, log)) rest)
    where
      same_size : (r : ℕ) → ((release_array s c).arrays r).log_size ≡ (s.arrays r).log_size
      same_size r = update-keeps (λ (a : CircularArray A). a.log_size) s.arrays c _ refl r

  -- The state after the loop: every record that was owned is available, and the others are as they
  -- were.
  abbrev pub Returned : Machine A → Option (Machine A) → Type 0
  Returned s none = ⊥
  Returned s (some s') =
      ((r : ℕ) → s'.flags r ≡ given_back (s.flags r))
      × ((r : ℕ) → s.flags r ≢ owned → s'.arrays r ≡ s.arrays r)

  -- Record `c` is the last that is owned.
  last-Returned :
      (s : Machine A) (c : ℕ)
      → s.flags c ≡ owned
      → (s.arrays c).prev ≡ none
      → ((r : ℕ) → s.flags r ≡ owned → On s.arrays s.flags r c)
      → Returned s (some (release_array s c))
  last-Returned s c own e kept = (
    λ r. elim (ℕ_discrete c r) [
      | yes same ↦ cc (same, own, update_self s.flags c available)
      | no ne ↦
          update_ne s.flags c r available ne
          ∙ given_back-other (s.flags r) (λ own'. only r ne (kept r own'))
    ],
    λ r away. update_ne s.arrays c r _ (λ same. away (ap s.flags (sym same) ∙ own)),
  )
    where
      only : (r : ℕ) → c ≢ r → On s.arrays s.flags r c → ⊥
      only r ne (found same) = ne same
      only r ne (below p own' e' log rest) = absurd (cc (e, e'))

  after-Returned :
      (s : Machine A) (c : ℕ) (o : Option (Machine A))
      → s.flags c ≡ owned
      → Returned (release_array s c) o
      → Returned s o
  after-Returned s c none own done = done
  after-Returned s c (some s') own (flags, arrays) = (
    λ r. flags r ∙ elim (ℕ_discrete c r) [
      | yes same ↦ cc (same, own, update_self s.flags c available)
      | no ne ↦ ap given_back (update_ne s.flags c r available ne)
    ],
    λ r away.
        let ne : c ≢ r = λ same. away (ap s.flags (sym same) ∙ own) in
        arrays r (λ own'. away (sym (update_ne s.flags c r available ne) ∙ own'))
        ∙ update_ne s.arrays c r _ ne,
  )

  pub release_chain-Returned :
      (fuel : ℕ) (s : Machine A) (c : ℕ)
      → (s.arrays c).log_size < fuel
      → Trail s.arrays s.flags c
      → ((r : ℕ) → s.flags r ≡ owned → On s.arrays s.flags r c)
      → Returned s (release_chain fuel s (some c))
  unfolding release_chain
  release_chain-Returned zero s c lt path kept = absurd (omega arith)
  release_chain-Returned (suc fuel) s c lt (ends own e) kept =
      subst (λ (o : Option ℕ). Returned s (release_chain fuel (release_array s c) o)) (sym e)
        (stops fuel)
    where
      stops : (n : ℕ) → Returned s (release_chain n (release_array s c) none)
      stops zero = last-Returned s c own e kept
      stops (suc n) = last-Returned s c own e kept
  release_chain-Returned (suc fuel) s c lt (goes p own e log rest) kept =
      subst (λ (o : Option ℕ). Returned s (release_chain fuel (release_array s c) o)) (sym e)
        (after-Returned s c _ own (
          release_chain-Returned fuel (release_array s c) p (omega (arith, log, same_size))
            (Trail-returned s c (omega (arith, log)) rest) (release_array-On s c p e log kept)))
    where
      same_size : ((release_array s c).arrays p).log_size ≡ (s.arrays p).log_size
      same_size = update-keeps (λ (a : CircularArray A). a.log_size) s.arrays c _ refl p
