-- ===== src/Deque/Invariant/Moves/Fuel.antt =====
-- The fuel of the first loop of `perhaps_shrink` is enough.
use lock_free_deque.Prelude.{
  ℕ, zero, suc, ◌≤◌, ◌≡◌, refl, ap, sym, ◌∙◌, Option, Bool-cases, inl, inr, arith,
}
use lock_free_deque.Prelude.Int.{ℤ}
use lock_free_deque.CircularArray.{CircularArray}
use lock_free_deque.Deque.State.{Flag}
use lock_free_deque.Deque.Owner.{is_sparse, count_shrink}
use lock_free_deque.Deque.Invariant.Chain.{Chain, last, link}
use lock_free_deque.Deque.Invariant.Moves.Find.{count_full, count_last, count_link}

module _ {A : Type 0} (arrays : ℕ → CircularArray A) (low : ℕ) (b : ℤ) (t : ℕ) where
  -- An array of one slot is not shrunk.
  smallest : (n c : ℕ) → (arrays c).log_size ≤ 0 → count_shrink n arrays c low b t ≡ 0
  unfolding count_shrink
  smallest zero c le = refl
  smallest (suc n) c le = count_full arrays low b t n c (ground arith)

  pub count_shrink-Chain :
      {flags : ℕ → Flag} {item : ℕ → A} {lo hi : ℕ} (n k c : ℕ) (m : Option ℕ)
      → (arrays c).log_size ≤ n
      → (arrays c).log_size ≤ k
      → Chain arrays flags item lo hi c m
      → count_shrink n arrays c low b t ≡ count_shrink k arrays c low b t
  count_shrink-Chain zero k c m p q chain = smallest zero c p ∙ sym (smallest k c p)
  count_shrink-Chain (suc n) zero c m p q chain = smallest (suc n) c q ∙ sym (smallest zero c q)
  count_shrink-Chain (suc n) (suc k) c m p q (last e) =
      count_last arrays low b t n c e ∙ sym (count_last arrays low b t k c e)
  count_shrink-Chain (suc n) (suc k) c m p q (link r e log kept rest) =
      elim (Bool-cases (is_sparse (arrays c) low b t)) [
        | inl sparse ↦
            count_link arrays low b t n c r sparse e
            ∙ ap suc (count_shrink-Chain n k r _ (omega arith) (omega arith) rest)
            ∙ sym (count_link arrays low b t k c r sparse e)
        | inr full ↦ count_full arrays low b t n c full ∙ sym (count_full arrays low b t k c full)
      ]
