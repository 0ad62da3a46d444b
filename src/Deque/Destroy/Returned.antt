-- ===== src/Deque/Destroy/Returned.antt =====
-- The destructors find every record: the deque's returns all that it owns, and the pool's asserts
-- that nobody holds one any more.
use lock_free_deque.Prelude.{
  ℕ, suc, ◌≡◌, ◌≢◌, refl, ◌∙◌, subst, List, Option, none, some, true, update_ne, arith,
}
use native.Mathlib.Decide.{ℕ_discrete}
use lock_free_deque.BufferPool.{SizeClassConfig, ok, Pool, construct, try_acquire}
use lock_free_deque.BufferPool.Acquire.{claimed, Acquires, try_acquire-Acquires}
use lock_free_deque.BufferPool.Ranges.{construct-Filled}
use lock_free_deque.BufferPool.Fresh.{AllFree, construct-AllFree}
use lock_free_deque.Deque.State.{Flag, available, owned, lent, OwnerPc, Machine}
use lock_free_deque.Deque.State.OwnerPc.{idle}
use lock_free_deque.Deque.System.{Reach, here, next}
use lock_free_deque.Deque.Construct.{fresh_machine, new_deque, new_deque-Made}
use lock_free_deque.Deque.Invariant.Defs.{OwnerOk, Inv}
use lock_free_deque.Deque.Refinement.{Reach-Runs}
use lock_free_deque.Deque.Guarantees.{linearizes}
use lock_free_deque.Deque.Destroy.{destroy, all_available}
use lock_free_deque.Deque.Destroy.Kept.{found, KeptAt, Kept}
use lock_free_deque.Deque.Destroy.Steps.{Step-Kept}
use lock_free_deque.Deque.Destroy.Loop.{
  given_back, all_available-true, Chain-Trail, Returned, release_chain-Returned,
}

module _ {A : Type 0} where
  Reach-Kept :
      {s s' : Machine A} {item : ℕ → A} {hi : ℕ}
      → Inv s item hi s.owner
      → Kept s
      → Reach s s'
      → Kept s'
  Reach-Kept inv kept here = kept
  Reach-Kept inv kept (next {t} reach step) =
      let (item, hi, inv', runs) = Reach-Runs inv reach in
      Step-Kept t inv' step (Reach-Kept inv kept reach)

  -- A new deque owns one record, its first array.
  new_deque-Kept :
      (pool : Pool A) (l : ℕ) (s : Machine A) → AllFree pool → new_deque pool l ≡ some s → Kept s
  unfolding new_deque
  new_deque-Kept pool l s free e = made (try_acquire pool l) (try_acquire-Acquires pool l) e
    where
      first : (r : ℕ) → Kept (fresh_machine l (claimed pool r, r))
      first r q own = elim (ℕ_discrete r q) [
        | yes same ↦ found same
        | no ne ↦ absurd (cc (free q, own, update_ne pool.flags r q owned ne))
      ]

      made :
          (result : Option (Pool A × ℕ))
          → Acquires pool l result
          → elim result [ none ↦ none | some result ↦ some (fresh_machine l result) ] ≡ some s
          → Kept s
      made none acquires e = absurd (cc)
      made (some (p, r)) (range, at, scanned, same) e =
          let whole : fresh_machine l (claimed pool r, r) ≡ s = cc in subst Kept whole (first r)

module _ {A : Type 0} (zero_value : A) (max_records : ℕ) (config : List SizeClassConfig)
    (pool : Pool A) (log_initial_size : ℕ) (s₀ s : Machine A)
    (built : construct zero_value max_records config ≡ ok pool)
    (made : new_deque pool log_initial_size ≡ some s₀) (reach : Reach s₀ s) where
  -- In every state that a new deque on a newly built pool reaches between two calls of its owner,
  -- the destructor ends within the `log_size` of the active array and one round of its loop, makes
  -- every record available that the deque owns, and leaves the flags and the slots of all others.
  pub destroy-Returned : s.owner ≡ idle → Returned s (destroy s)
  unfolding destroy
  destroy-Returned rest =
      let (item, hi, inv, runs) =
        linearizes zero_value max_records config pool log_initial_size s₀ s built made reach in
      let at_rest : OwnerOk s item hi idle = subst (OwnerOk s item hi) rest inv.owner_ok in
      release_chain-Returned (suc (s.arrays s.active).log_size) s s.active (omega arith)
        (Chain-Trail inv.held.0 at_rest.1) (subst (λ (pc : OwnerPc A). KeptAt s pc) rest kept)
    where
      kept : Kept s
      kept =
          let (item₀, inv₀, seen) =
            new_deque-Made pool log_initial_size s₀
              (λ l range at j ge lt.
                ((construct-Filled zero_value max_records config pool built l range at).1 j ge
                  lt).0)
              made in
          Reach-Kept inv₀
            (new_deque-Kept pool log_initial_size s₀
              (construct-AllFree zero_value max_records config pool built) made)
            reach

  -- In every state that a new deque on a newly built pool reaches between two calls of its owner,
  -- while no other user of the pool holds a record: after the deque's destructor, every assertion
  -- of the pool's destructor holds.
  pub all_returned :
      s.owner ≡ idle
      → ((r : ℕ) → s.flags r ≢ lent)
      → (s' : Machine A) × (destroy s ≡ some s') × (all_available s'.flags pool.size ≡ true)
  all_returned rest none_lent = ends_at (destroy s) refl (destroy-Returned rest)
    where
      free : (f : Flag) → f ≢ lent → given_back f ≡ available
      free available ne = refl
      free owned ne = refl
      free lent ne = absurd (ne refl)

      ends_at :
          (o : Option (Machine A))
          → destroy s ≡ o
          → Returned s o
          → (s' : Machine A) × (destroy s ≡ some s') × (all_available s'.flags pool.size ≡ true)
      ends_at none e done = absurd done
      ends_at (some s') e (flags, arrays) = (
        s',
        e,
        all_available-true s'.flags (λ r. flags r ∙ free (s.flags r) (none_lent r)) pool.size,
      )
