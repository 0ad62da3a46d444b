-- ===== src/Deque/Progress/Runs.antt =====
-- Every call of the owner of src/work_stealing_deque.h returns after boundedly many of its own
-- steps, whatever the other threads do in between.
use lock_free_deque.Prelude.{ℕ, ◌+◌, ◌-◌, ◌≤◌, ◌≡◌, ◌⊎◌, refl, subst, inl, inr, List, some, arith}
use lock_free_deque.Prelude.Int.{ℤ, pos}
use lock_free_deque.CircularArray.{size}
use lock_free_deque.BufferPool.{SizeClassConfig, ok, Pool, construct}
use lock_free_deque.Deque.State.{SizeClassRange, OwnerPc, Machine}
use lock_free_deque.Deque.State.OwnerPc.{idle, push_start, pop_start, fault}
use lock_free_deque.Deque.Owner.{find_range, owner_move, owner_step}
use lock_free_deque.Deque.Thief.{thief_step}
use lock_free_deque.Deque.System.{
  owner_moves, push_called, pop_called, thief_moves, steal_called, other_claims, other_uses,
  other_returns, Step, Reach, here, next,
}
use lock_free_deque.Deque.Construct.{new_deque}
use lock_free_deque.Deque.Invariant.Defs.{OwnerOk, Inv}
use lock_free_deque.Deque.Refinement.{Reach-Runs}
use lock_free_deque.Deque.Guarantees.{linearizes}
use lock_free_deque.Deque.Progress.{
  class_count, steps_left, log_sizes, left, owner_turns, owner_calls,
}
use lock_free_deque.Deque.Progress.Sizes.{owner_move-SameSizes, Step-SameSizes}
use lock_free_deque.Deque.Progress.Lower.{owner_move-Within}
use lock_free_deque.Deque.Progress.Stays.{Beside, left-SameSizes, Beside-left, thief_move-Beside}

module _ {A : Type 0} where
  turn-left :
      (s : Machine A) {item : ℕ → A} {hi : ℕ}
      → Inv s item hi s.owner
      → left (owner_move s s.owner) ≤ left s - 1
  turn-left s inv = omega (
    arith,
    left-SameSizes s (owner_move s s.owner) (owner_move-SameSizes s s.owner),
    owner_move-Within s s.owner refl inv,
  )

  Step-left :
      (s : Machine A) {s' : Machine A} {n : ℕ} (step : Step s s')
      → Beside s s'
      → left s ≤ n
      → left s' ≤ n
  Step-left s {s'} step beside le =
      omega (arith, le, Beside-left s s' (Step-SameSizes s step) beside)

  -- Each of its turns leaves the owner's call fewer steps, until it has returned, and nothing else
  -- leaves it more.
  run-left :
      {s s' : Machine A} {item : ℕ → A} {hi : ℕ}
      → Inv s item hi s.owner
      → (reach : Reach s s') → owner_calls reach ≡ 0
      → left s' ≤ left s - owner_turns reach
  unfolding owner_step thief_step
  run-left inv here none = omega arith
  run-left inv (next {t} reach owner_moves) none =
      let (item, hi, inv', runs) = Reach-Runs inv reach in
      omega (arith, run-left inv reach none, turn-left t inv')
  run-left inv (next reach (push_called x e)) none = absurd (omega arith)
  run-left inv (next reach (pop_called e)) none = absurd (omega arith)
  run-left inv (next {t} reach (thief_moves i)) none =
      Step-left t (thief_moves i) (thief_move-Beside t i (t.thieves i)) (run-left inv reach none)
  run-left inv (next {t} reach (steal_called i e)) none =
      Step-left t (steal_called i e) (omega arith, refl, refl, refl) (run-left inv reach none)
  run-left inv (next {t} reach (other_claims r e)) none =
      Step-left t (other_claims r e) (omega arith, refl, refl, refl) (run-left inv reach none)
  run-left inv (next {t} reach (other_uses r c e same)) none =
      Step-left t (other_uses r c e same) (omega arith, refl, refl, refl) (run-left inv reach none)
  run-left inv (next {t} reach (other_returns r e)) none =
      Step-left t (other_returns r e) (omega arith, refl, refl, refl) (run-left inv reach none)

  nothing_left :
      (ranges : List SizeClassRange) (sizes : ℕ → ℕ) (active : ℕ) (bottom : ℤ) (top : ℕ)
      (pc : OwnerPc A)
      → steps_left ranges sizes active bottom top pc ≡ 0
      → (pc ≡ idle) ⊎ (pc ≡ fault)
  nothing_left ranges sizes active bottom top idle e = inl refl
  nothing_left ranges sizes active bottom top fault e = inr refl
  nothing_left ranges sizes active bottom top _ e = absurd (omega arith)

  returned :
      {s s' : Machine A} {item : ℕ → A} {hi : ℕ} (n : ℕ)
      → Inv s item hi s.owner
      → left s ≤ n
      → (more : Reach s s') → owner_calls more ≡ 0
      → n ≤ owner_turns more
      → s'.owner ≡ idle
  returned {s} {s'} n inv within more none turns =
      let (item', hi', inv', runs) = Reach-Runs inv more in
      elim (nothing_left s'.ranges (log_sizes s') s'.active s'.bottom s'.top s'.owner
        (omega (arith, run-left inv more none))) [
          | inl e ↦ e
          | inr e ↦ absurd (subst (OwnerOk s' item' hi') e inv'.owner_ok)
        ]

module _ {A : Type 0} (zero_value : A) (max_records : ℕ) (config : List SizeClassConfig)
    (pool : Pool A) (log_initial_size : ℕ) (s₀ s : Machine A)
    (built : construct zero_value max_records config ≡ ok pool)
    (made : new_deque pool log_initial_size ≡ some s₀) (reach : Reach s₀ s) where
  -- In every state that a new deque on a newly built pool reaches where the owner begins a push,
  -- and in every run from there without another call of the owner: after as many of its own turns
  -- as the active array has slots, and the next size class records, and six, the push has returned,
  -- whatever the other threads did in between.
  pub push_returns :
      (x : A)
      → s.owner ≡ push_start x
      → {s' : Machine A} (more : Reach s s') → owner_calls more ≡ 0
      → 6
          + size (s.arrays s.active)
          + class_count (find_range s.ranges ((s.arrays s.active).log_size + 1))
        ≤ owner_turns more
      → s'.owner ≡ idle
  push_returns x at more none turns =
      let (item, hi, inv, runs) =
        linearizes zero_value max_records config pool log_initial_size s₀ s built made reach in
      let at_rest : OwnerOk s item hi (push_start x) = subst (OwnerOk s item hi) at inv.owner_ok in
      let whole : left s
          ≡ steps_left s.ranges (log_sizes s) s.active (pos hi) s.top (push_start x) =
        cc (at, at_rest.0) in
      returned _ inv (omega (arith, whole, inv.room)) more none turns

  -- In every state that a new deque on a newly built pool reaches where the owner begins a pop, and
  -- in every run from there without another call of the owner: after as many of its own turns as
  -- the active array has slots, and its `log_size`, and ten, the pop has returned, also where it
  -- shrinks the array, and whatever the other threads did in between.
  pub pop_returns :
      s.owner ≡ pop_start
      → {s' : Machine A} (more : Reach s s') → owner_calls more ≡ 0
      → 10 + (s.arrays s.active).log_size + size (s.arrays s.active) ≤ owner_turns more
      → s'.owner ≡ idle
  pop_returns at more none turns =
      let (item, hi, inv, runs) =
        linearizes zero_value max_records config pool log_initial_size s₀ s built made reach in
      let at_rest : OwnerOk s item hi pop_start = subst (OwnerOk s item hi) at inv.owner_ok in
      let whole : left s
          ≡ steps_left {A = A} s.ranges (log_sizes s) s.active (pos hi) s.top pop_start =
        cc (at, at_rest.0) in
      returned _ inv (ground (arith, whole, inv.room)) more none turns
