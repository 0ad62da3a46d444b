-- ===== src/Deque/Empty.antt =====
-- When `steal` of src/work_stealing_deque.h finds `size <= 0`.
use mathlib.Core.List.{Perm}
use mathlib.Core.List.Perm
use lock_free_deque.Prelude.{
  ℕ, ◌+◌, ◌-◌, ◌≤◌, ◌≡◌, ◌∙◌, subst, inl, inr, List, [], ◌++◌, some, false, length, window,
  length-window, arith,
}
use lock_free_deque.Prelude.Int.{ℤ, pos, sub_ℕ, ◌-ℤ◌, is_positive}
use lock_free_deque.BufferPool.{SizeClassConfig, ok, Pool, construct}
use lock_free_deque.Deque.State.{OwnerPc, ThiefPc, Machine}
use lock_free_deque.Deque.State.OwnerPc.{
  idle, push_start, push_refresh, push_acquire, push_copy, push_publish, push_store, push_bottom,
  pop_start, pop_refresh, pop_empty, pop_load, pop_cas, pop_won, pop_lost, shrink_start,
  shrink_copy, shrink_publish, shrink_shift, shrink_snapshot, shrink_cas, shrink_restore,
  shrink_release, fault,
}
use lock_free_deque.Deque.State.ThiefPc.{got_array}
use lock_free_deque.Deque.System.{Reach}
use lock_free_deque.Deque.View.{in_hand, consed, pushed_values, popped_values, stolen_values}
use lock_free_deque.Deque.View.Conserved.{Conserved-Runs}
use lock_free_deque.Deque.Invariant.Defs.{OwnerOk, ThiefOk}
use lock_free_deque.Deque.Construct.{new_deque}
use lock_free_deque.Deque.Guarantees.{linearizes}

-- What a load of `bottom_` below `t` says of the index after the last item.
at_end : (b : ℤ) (t hi : ℕ) → is_positive (b -ℤ pos t) ≡ false → b ≡ pos hi → hi ≤ t
at_end b t hi e same = ground (arith, subst (λ (c : ℤ). is_positive (c -ℤ pos t) ≡ false) same e)

before_end : (b : ℤ) (t hi : ℕ) → is_positive (b -ℤ pos t) ≡ false → b ≡ sub_ℕ hi 1 → hi ≤ t + 1
before_end b t hi e same =
    ground (arith, subst (λ (c : ℤ). is_positive (c -ℤ pos t) ≡ false) same e)

-- The values that a pop and the thieves compete for, at most, by where the owner stands.
abbrev pub contested : {A : Type 0} → OwnerPc A → ℕ
contested (pop_refresh b a) = 1
contested (pop_empty t) = 1
contested (pop_load b t a) = 1
contested (pop_cas x t) = 1
contested (pop_won x t) = 1
contested (pop_lost t) = 1
contested _ = 0

module _ {A : Type 0} (s : Machine A) (item : ℕ → A) (hi t : ℕ) (le : t ≤ s.top)
    (low : is_positive (s.bottom -ℤ pos t) ≡ false) where
  few_left : (pc : OwnerPc A) → OwnerOk s item hi pc → hi ≤ s.top + contested pc
  few_left idle okay = omega (arith, at_end s.bottom t hi low okay.0)
  few_left (push_start x) okay = omega (arith, at_end s.bottom t hi low okay.0)
  few_left (push_refresh x b a) okay = omega (arith, at_end s.bottom t hi low okay.0)
  few_left (push_acquire x b t' a i left) okay = omega (arith, at_end s.bottom t hi low okay.0)
  few_left (push_copy x b a d i) okay = omega (arith, at_end s.bottom t hi low okay.0)
  few_left (push_publish x b d) okay = omega (arith, at_end s.bottom t hi low okay.0)
  few_left (push_store x b a) okay = omega (arith, at_end s.bottom t hi low okay.0)
  few_left (push_bottom x b) okay = omega (arith, at_end s.bottom t hi low okay.0)
  few_left pop_start okay = omega (arith, at_end s.bottom t hi low okay.0)
  few_left (pop_refresh b a) okay = omega (arith, before_end s.bottom t hi low (okay.0 ∙ okay.1))
  few_left (pop_empty t') okay = omega (arith, before_end s.bottom t hi low okay.0)
  few_left (pop_load b t' a) okay = elim okay.3 [
    | inl (at_hi, lt) ↦ omega (arith, at_end s.bottom t hi low (okay.0 ∙ at_hi))
    | inr (at_t, next) ↦ omega (arith, at_end s.bottom t t' low (okay.0 ∙ at_t))
  ]
  few_left (pop_cas x t') okay = omega (arith, at_end s.bottom t t' low okay.0, okay.1)
  few_left (pop_won x t') okay = omega (arith, at_end s.bottom t t' low okay.0, okay.1)
  few_left (pop_lost t') okay = omega (arith, at_end s.bottom t t' low okay.0, okay.1)
  few_left (shrink_start x b t') okay = omega (arith, at_end s.bottom t hi low okay.0)
  few_left (shrink_copy x b a d i) okay = omega (arith, at_end s.bottom t hi low okay.0.0)
  few_left (shrink_publish x b a d) okay = omega (arith, at_end s.bottom t hi low okay.0.0)
  few_left (shrink_shift x b a d) okay = omega (arith, at_end s.bottom t hi low okay.0)
  few_left (shrink_snapshot x b a d) okay = omega (arith, at_end s.bottom t _ low okay.0)
  few_left (shrink_cas x b a d snapshot) okay = omega (arith, at_end s.bottom t _ low okay.0)
  few_left (shrink_restore x b a d) okay = omega (arith, at_end s.bottom t _ low okay.0)
  few_left (shrink_release x c d) okay = omega (arith, at_end s.bottom t hi low okay.0)
  few_left fault okay = absurd okay

-- The values that are given back, and that the owner holds.
abbrev pub taken_values : {A : Type 0} → Machine A → List A
taken_values s = consed (in_hand s s.owner) (popped_values s.trace) ++ stolen_values s.trace

module _ {A : Type 0} (zero_value : A) (max_records : ℕ) (config : List SizeClassConfig)
    (pool : Pool A) (log_initial_size : ℕ) (s₀ s : Machine A)
    (built : construct zero_value max_records config ≡ ok pool)
    (made : new_deque pool log_initial_size ≡ some s₀) (reach : Reach s₀ s) where
  -- In every state that a new deque on a newly built pool reaches where a thief is about to load a
  -- `bottom_` that is not above the `top_` it has loaded, so that its call returns EMPTY because of
  -- `size <= 0`: all values that were pushed were taken, but for one at most, for which a pop that
  -- is under way and the thieves compete.
  pub size_zero-Perm :
      (i t old_array : ℕ)
      → s.thieves i ≡ got_array t old_array
      → is_positive (s.bottom -ℤ pos t) ≡ false
      → (rest : List A) × (length rest ≤ contested s.owner)
        × Perm (rest ++ taken_values s) (pushed_values s.trace)
  size_zero-Perm i t old_array at low =
      let (item, hi, inv, runs) =
        linearizes zero_value max_records config pool log_initial_size s₀ s built made reach in
      let le : t ≤ s.top =
        subst (λ (p : ThiefPc A). ThiefOk s item hi s.owner p) at (inv.thief_ok i) in
      let kept = Conserved-Runs runs (Perm.refl []) in
      (
        window item s.top (hi - s.top),
        omega (
          arith,
          length-window item s.top (hi - s.top),
          few_left s item hi t le low s.owner inv.owner_ok,
        ),
        kept,
      )
