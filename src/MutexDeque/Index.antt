-- ===== src/MutexDeque/Index.antt =====
-- The slots of src/mutex/work_stealing_deque.h.
use native.Mathlib.Nat.{mod-eq_of_lt}
use native.Mathlib.Decide.{ℕ_discrete}
use lock_free_deque.Prelude.{
  ℕ, zero, suc, ◌+◌, ◌-◌, ◌%◌, ◌^◌, ◌≤◌, ◌<◌, ◌≡◌, ◌≢◌, ap, sym, ◌∙◌, subst, bit_and, List,
  update_self, update_ne, window, arith,
}
use lock_free_deque.Prelude.Bits.{bit_and_mask}
use lock_free_deque.CircularArray.Slots.{mod-eq-apart}
use lock_free_deque.MutexDeque.{MutexDeque, index, copied_slots}

module _ {A : Type 0} where
  -- The capacity is a power of two, no smaller than the minimum, which is one too, and one slot
  -- stays unused.
  pub record WellFormed (d : MutexDeque A) : Type 0 where
    pub log_capacity : ℕ
    pub power : d.capacity ≡ 2 ^ log_capacity
    pub log_min : ℕ
    pub min_power : d.min_capacity ≡ 2 ^ log_min
    pub least : log_min ≤ log_capacity
    pub word : d.capacity ≤ 2 ^ 63
    pub fits : d.size < d.capacity
    pub top_fits : d.top < d.capacity

  pub index-eq_mod :
      (d : MutexDeque A) (wf : WellFormed d) (i : ℕ)
      → i ≤ d.capacity
      → index d i ≡ (d.top + i) % d.capacity
  index-eq_mod d wf i le =
      ap (λ (m : ℕ). bit_and m (d.capacity - 1)) (mod-eq_of_lt below)
      ∙ subst (λ (n : ℕ). bit_and (d.top + i) (n - 1) ≡ (d.top + i) % n) (sym wf.power)
          (bit_and_mask wf.log_capacity (d.top + i))
    where
      below : d.top + i < 2 ^ 64
      below = omega (arith, wf.word, wf.top_fits)

  pub index-apart :
      (d : MutexDeque A) (wf : WellFormed d) (i j : ℕ)
      → i < j
      → j < d.capacity
      → index d j ≢ index d i
  index-apart d wf i j lt fits e = omega (
    arith,
    mod-eq-apart d.capacity (d.top + i) (d.top + j) (omega arith)
        (sym (index-eq_mod d wf i (omega arith)) ∙ sym e ∙ index-eq_mod d wf j (omega arith))
        (omega arith),
  )

  pub copied_slots_lem :
      (zero_value : A) (d : MutexDeque A) (n j : ℕ)
      → j < n
      → copied_slots zero_value d n j ≡ d.buffer (index d j)
  copied_slots_lem zero_value d zero j lt = absurd (omega arith)
  copied_slots_lem zero_value d (suc n) j lt = elim (ℕ_discrete n j) [
    | yes e ↦
        subst (λ (k : ℕ). copied_slots zero_value d (suc n) k ≡ d.buffer (index d k)) e
          (update_self (copied_slots zero_value d n) n (d.buffer (index d n)))
    | no ne ↦
        update_ne (copied_slots zero_value d n) n j (d.buffer (index d n)) ne
        ∙ copied_slots_lem zero_value d n j (omega arith)
  ]

  -- The values of the deque, the top first.
  abbrev pub contents : MutexDeque A → List A
  contents d = window (λ i. d.buffer (index d i)) 0 d.size
