-- ===== src/Deque/Invariant/Steal/Bottom.antt =====
-- What a thief may conclude from the value of `bottom_`.
use lock_free_deque.Prelude.{
  ℕ, ◌+◌, ◌≤◌, ◌<◌, ◌≡◌, ap, ◌∙◌, subst, ◌⊎◌, inl, inr, Bool-cases, true, false, arith,
}
use native.Mathlib.Decide.{dec_lt}
use lock_free_deque.Prelude.Int.{ℤ, pos, sub_ℕ, ◌-ℤ◌, is_positive}
use lock_free_deque.CircularArray.{size}
use lock_free_deque.Deque.State.{OwnerPc, Machine}
use lock_free_deque.Deque.State.OwnerPc.{
  pop_refresh, pop_empty, pop_load, pop_cas, pop_won, pop_lost, shrink_copy, shrink_publish,
  shrink_snapshot, shrink_cas, shrink_restore, fault,
}
use lock_free_deque.Deque.Invariant.Defs.{Settled, Offset, OwnerOk}
use lock_free_deque.Deque.Invariant.Tests.{positive-lt, positive-pred}

-- A thief that loaded `top_` as `t` and loads `bottom_` as `b`.
abbrev pub Reads : {A : Type 0} → Machine A → (ℕ → A) → ℕ → OwnerPc A → ℕ → ℤ → Type 0
Reads s item hi pc t b = (is_positive (b -ℤ pos t) ≡ false) ⊎ ((t < hi) ⊎ Offset s item hi pc t b)

module _ {A : Type 0} (s : Machine A) (item : ℕ → A) (hi : ℕ) (pc : OwnerPc A) where
  sees_end : (t n : ℕ) (b : ℤ) → b ≡ pos n → n ≤ hi → Reads s item hi pc t b
  sees_end t n b e le = elim (Bool-cases (is_positive (b -ℤ pos t))) [
    | inl more ↦ inr (inl (omega (arith, positive-lt b t n e more)))
    | inr none_left ↦ inl none_left
  ]

  sees_before : (t : ℕ) (b : ℤ) → b ≡ sub_ℕ hi 1 → Reads s item hi pc t b
  sees_before t b e = elim (Bool-cases (is_positive (b -ℤ pos t))) [
    | inl more ↦
        inr (inl (positive-pred t hi (subst (λ z. is_positive (z -ℤ pos t) ≡ true) e more)))
    | inr none_left ↦ inl none_left
  ]

  sees_shift :
      (d : ℕ) (b : ℤ)
      → s.top ≤ hi
      → b ≡ pos (hi + size (s.arrays d))
      → d ≡ s.active
      → 2 ≤ size (s.arrays d)
      → Settled pc
      → Reads s item hi pc s.top b
  sees_shift d b le e same two settled = elim (dec_lt s.top hi) [
    | yes lt ↦ inr (inl lt)
    | no end ↦
        let same_size = ap (λ (r : ℕ). size (s.arrays r)) same in
        inr (inr (e ∙ ap pos (omega arith), omega arith, settled))
  ]

pub bottom-Reads :
    {A : Type 0} (s : Machine A) (item : ℕ → A) (hi : ℕ) (pc : OwnerPc A)
    → s.top ≤ hi
    → OwnerOk s item hi pc
    → Reads s item hi pc s.top s.bottom
bottom-Reads s item hi (pop_refresh b a) le ok =
    sees_before s item hi (pop_refresh b a) s.top s.bottom (ok.0 ∙ ok.1)
bottom-Reads s item hi (pop_empty t) le ok = sees_before s item hi (pop_empty t) s.top s.bottom ok.0
bottom-Reads s item hi (pop_load b t a) le (e, same, t_le, inl (b_hi, lt), h) =
    sees_end s item hi (pop_load b t a) s.top hi s.bottom (e ∙ b_hi) (omega arith)
bottom-Reads s item hi (pop_load b t a) le (e, same, t_le, inr (b_t, last), h) =
    sees_end s item hi (pop_load b t a) s.top t s.bottom (e ∙ b_t) (omega arith)
bottom-Reads s item hi (pop_cas x t) le ok =
    sees_end s item hi (pop_cas x t) s.top t s.bottom ok.0 (omega arith)
bottom-Reads s item hi (pop_won x t) le ok =
    sees_end s item hi (pop_won x t) s.top t s.bottom ok.0 (omega arith)
bottom-Reads s item hi (pop_lost t) le ok =
    sees_end s item hi (pop_lost t) s.top t s.bottom ok.0 (omega arith)
bottom-Reads s item hi (shrink_copy x b a d i) le ok =
    sees_end s item hi (shrink_copy x b a d i) s.top hi s.bottom ok.0.0 (omega arith)
bottom-Reads s item hi (shrink_publish x b a d) le ok =
    sees_end s item hi (shrink_publish x b a d) s.top hi s.bottom ok.0.0 (omega arith)
bottom-Reads s item hi (shrink_snapshot x b a d) le ok =
    sees_shift s item hi (shrink_snapshot x b a d) d s.bottom le ok.0 ok.1.1 ok.1.2 tt
bottom-Reads s item hi (shrink_cas x b a d snapshot) le ok =
    sees_shift s item hi (shrink_cas x b a d snapshot) d s.bottom le ok.0 ok.2.1 ok.2.2 tt
bottom-Reads s item hi (shrink_restore x b a d) le ok =
    sees_shift s item hi (shrink_restore x b a d) d s.bottom le ok.0 ok.1.1 ok.1.2 tt
bottom-Reads s item hi fault le ok = absurd ok
bottom-Reads s item hi pc le ok = sees_end s item hi pc s.top hi s.bottom ok.0 (omega arith)
