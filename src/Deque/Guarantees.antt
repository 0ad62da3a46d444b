-- ===== src/Deque/Guarantees.antt =====
-- What holds in every state that a deque of src/work_stealing_deque.h can reach, from the
-- construction of its pool on.
use mathlib.Core.List.{Perm, Sublist, Sublistᴰ, sublist-append_right, reverse, append_assoc}
use mathlib.Core.List.Perm
use mathlib.Core.List.Sublist
use lock_free_deque.Prelude.{
  ℕ, ◌+◌, ◌-◌, ◌≤◌, ◌<◌, ◌≡◌, ◌≢◌, ap, sym, ◌∙◌, subst, ◌⊎◌, inl, inr, List, [], ◌∷◌, ◌++◌, Option,
  none, some, window, window_congr, window_empty, arith,
}
use lock_free_deque.Prelude.Int.{ℤ, pos}
use lock_free_deque.CircularArray.{size, load}
use lock_free_deque.BufferPool.{SizeClassConfig, ok, Pool, construct}
use lock_free_deque.BufferPool.Ranges.{construct-Filled}
use lock_free_deque.Deque.State.{lent, OwnerPc, Machine}
use lock_free_deque.Deque.State.OwnerPc.{idle, pop_empty, pop_lost, shrink_start, fault}
use lock_free_deque.Deque.Owner.{count_shrink, owner_step}
use lock_free_deque.Deque.Invariant.Moves.Fuel.{count_shrink-Chain}
use lock_free_deque.Deque.Thief.{thief_step}
use lock_free_deque.Deque.Lent.{Untouched, owner_step-Untouched, thief_step-Untouched}
use lock_free_deque.Deque.System.{Reach}
use lock_free_deque.Deque.View.{
  View, view, consed, in_hand, pushed_values, popped_values, stolen_values, Runs,
}
use lock_free_deque.Deque.View.Conserved.{Conserved, Conserved-Runs}
use lock_free_deque.Deque.View.Order.{InOrder-Runs}
use lock_free_deque.Deque.Invariant.Defs.{OwnerOk, Inv}
use lock_free_deque.Deque.Construct.{new_deque, empty_view, new_deque-Made}
use lock_free_deque.Deque.Refinement.{Reach-Runs}

module _ {A : Type 0} (zero_value : A) (max_records : ℕ) (config : List SizeClassConfig)
    (pool : Pool A) (log_initial_size : ℕ) (s₀ s : Machine A)
    (built : construct zero_value max_records config ≡ ok pool)
    (made : new_deque pool log_initial_size ≡ some s₀) (reach : Reach s₀ s) where
  -- In every state that a new deque on a newly built pool reaches, the invariant holds, and the
  -- steps so far, of the owner, the thieves and the other users of the pool, are a run of the
  -- abstract deque from the empty one: one sequence of values, with the values that the calls got
  -- and gave.
  pub linearizes :
      (item : ℕ → A) × (hi : ℕ) × Inv s item hi s.owner × Runs empty_view (view s item hi s.owner)
  linearizes =
      let (item₀, inv₀, seen) =
        new_deque-Made pool log_initial_size s₀
          (λ l range found j ge lt.
            ((construct-Filled zero_value max_records config pool built l range found).1 j ge lt).0)
          made in
      let (item, hi, inv, runs) = Reach-Runs inv₀ reach in
      (item, hi, inv, subst (λ (v : View A). Runs v (view s item hi s.owner)) seen runs)

  -- In every state that a new deque on a newly built pool reaches between two calls of its owner,
  -- the values that were pushed are, each as often as it was pushed, those in the active array from
  -- `top_` up to `bottom_` and those that pops and steals have returned: none is lost, and none is
  -- given twice. The array has more slots than the deque has values.
  pub exactly_once :
      s.owner ≡ idle
      → (n : ℕ) × (s.bottom ≡ pos (s.top + n))
        × (n < size (s.arrays s.active))
        × Perm
            (window (load (s.arrays s.active)) s.top n
              ++ (popped_values s.trace ++ stolen_values s.trace))
            (pushed_values s.trace)
  exactly_once rest =
      let (item, hi, inv, runs) = linearizes in
      let at_rest : OwnerOk s item hi idle = subst (OwnerOk s item hi) rest inv.owner_ok in
      let held = inv.held.1 in
      let kept = Conserved-Runs runs (Perm.refl []) in
      (
        hi - s.top,
        at_rest.0 ∙ ap pos (omega (arith, inv.le)),
        omega (arith, inv.le, inv.room),
        subst
            (λ (xs : List A).
              Perm (xs ++ (popped_values s.trace ++ stolen_values s.trace)) (pushed_values s.trace))
            (window_congr item (load (s.arrays s.active)) s.top s.top (hi - s.top)
              (λ i lt. sym (held (s.top + i) (omega arith) (omega arith) tt)))
            (subst (λ (pc : OwnerPc A). Conserved (view s item hi pc)) rest kept),
      )

  -- In every state that a new deque on a newly built pool reaches, also in the middle of calls,
  -- what pops and steals have returned is part of what was pushed, as a multiset.
  pub returned_once :
      (rest : List A) × Perm
        (rest ++ (popped_values s.trace ++ stolen_values s.trace))
        (pushed_values s.trace)
  returned_once =
      let (item, hi, inv, runs) = linearizes in
      held (in_hand s s.owner) (window item s.top (hi - s.top)) (Conserved-Runs runs (Perm.refl []))
    where
      held :
          (taken : Option A) (queue : List A)
          → Perm
              (queue ++ (consed taken (popped_values s.trace) ++ stolen_values s.trace))
              (pushed_values s.trace)
          → (rest : List A) × Perm
              (rest ++ (popped_values s.trace ++ stolen_values s.trace))
              (pushed_values s.trace)
      held none queue p = (queue, p)
      held (some x) queue p = (
        queue ++ (x ∷ []),
        subst (λ (xs : List A). Perm xs (pushed_values s.trace))
            (sym (append_assoc queue (x ∷ []) (popped_values s.trace ++ stolen_values s.trace))) p,
      )

  -- In every state that a new deque on a newly built pool reaches, the values that thieves have got
  -- are, in the order in which they got them, a subsequence of the values in the order in which
  -- they were pushed.
  pub steals_in_order : Sublist (stolen_values s.trace) (pushed_values s.trace)
  steals_in_order =
      let (item, hi, inv, runs) = linearizes in
      Sublist.trans
        (sublist-append_right (reverse (window item s.top (hi - s.top))) (stolen_values s.trace))
        (InOrder-Runs runs ∣ Sublistᴰ.slnil ∣₁)

  -- In every state that a new deque on a newly built pool reaches where `pop_bottom` is about to
  -- return nothing, every value that was pushed has been returned: it reports an empty deque only
  -- where the deque is empty.
  pub empty_is_true :
      (t : ℕ)
      → (s.owner ≡ pop_empty t) ⊎ (s.owner ≡ pop_lost t)
      → Perm (popped_values s.trace ++ stolen_values s.trace) (pushed_values s.trace)
  empty_is_true t at =
      let (item, hi, inv, runs) = linearizes in
      ends item hi at (Conserved-Runs runs (Perm.refl [])) inv.owner_ok
    where
      Goal : Type 0
      Goal = Perm (popped_values s.trace ++ stolen_values s.trace) (pushed_values s.trace)

      nothing :
          (item : ℕ → A) (hi : ℕ)
          → s.top ≡ hi
          → Perm
              (window item s.top (hi - s.top) ++ (popped_values s.trace ++ stolen_values s.trace))
              (pushed_values s.trace)
          → Goal
      nothing item hi end p =
          subst
            (λ (xs : List A).
              Perm (xs ++ (popped_values s.trace ++ stolen_values s.trace)) (pushed_values s.trace))
            (window_empty item s.top (hi - s.top) (omega arith)) p

      ends :
          (item : ℕ → A) (hi : ℕ)
          → (s.owner ≡ pop_empty t) ⊎ (s.owner ≡ pop_lost t)
          → Conserved (view s item hi s.owner)
          → OwnerOk s item hi s.owner
          → Goal
      ends item hi (inl e) p okay =
          let here = subst (OwnerOk s item hi) e okay in
          nothing item hi here.2 (subst (λ (pc : OwnerPc A). Conserved (view s item hi pc)) e p)
      ends item hi (inr e) p okay =
          let here = subst (OwnerOk s item hi) e okay in
          nothing item hi here.2 (subst (λ (pc : OwnerPc A). Conserved (view s item hi pc)) e p)

  -- In every state that a new deque on a newly built pool reaches, the owner has not followed a
  -- null pointer: neither when it counted the arrays to shrink by, nor when it walked to the
  -- destination, nor when it returned the arrays in between to the pool.
  pub never_faults : s.owner ≢ fault
  never_faults e =
      let (item, hi, inv, runs) = linearizes in subst (OwnerOk s item hi) e inv.owner_ok

  -- In every state that a new deque on a newly built pool reaches, the owner's cached copy of
  -- `top_` is a lower bound of it.
  pub cached_top-le : s.cached_top ≤ s.top
  cached_top-le = let (item, hi, inv, runs) = linearizes in inv.cached

  -- In every state that a new deque on a newly built pool reaches, a buffer that another user of
  -- the pool holds is left alone by the owner and by every thief: their next step does not change
  -- its slots, its mark, its link or its flag.
  pub lent-Untouched :
      (r : ℕ)
      → s.flags r ≡ lent
      → Untouched s r (owner_step s) × ((i : ℕ) → Untouched s r (thief_step s i))
  lent-Untouched r held =
      let (item, hi, inv, runs) = linearizes in
      (owner_step-Untouched s r item hi inv held, thief_step-Untouched s r)

  -- In every state that a new deque on a newly built pool reaches where the owner counts the arrays
  -- to shrink by, the active array's `log_size` is fuel enough: with any more, the loop counts the
  -- same.
  pub count_is_complete :
      (x : A) (b : ℤ) (t extra : ℕ)
      → s.owner ≡ shrink_start x b t
      → count_shrink ((s.arrays s.active).log_size + extra) s.arrays s.active s.min_log_size b t
        ≡ count_shrink (s.arrays s.active).log_size s.arrays s.active s.min_log_size b t
  count_is_complete x b t extra at =
      let (item, hi, inv, runs) = linearizes in
      let (at_hi, b_hi, t_lt, t_le, hangs) = subst (OwnerOk s item hi) at inv.owner_ok in
      count_shrink-Chain s.arrays s.min_log_size b t ((s.arrays s.active).log_size + extra)
        (s.arrays s.active).log_size s.active none (omega arith) (omega arith) hangs
