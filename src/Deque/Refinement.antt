-- ===== src/Deque/Refinement.antt =====
-- Every step of the machine keeps the invariant, and is one action of the abstract deque.
use lock_free_deque.Prelude.{
  ℕ, zero, suc, ◌≡◌, ◌≢◌, refl, ap, sym, ◌∙◌, subst, inr, update, update_ne,
}
use lock_free_deque.CircularArray.{CircularArray, reset_for_reuse}
use lock_free_deque.CircularArray.Slots.{log_size-update}
use lock_free_deque.Deque.State.{Flag, available, owned, lent, OwnerPc, ThiefPc, Machine}
use lock_free_deque.Deque.State.OwnerPc.{
  idle, push_start, push_refresh, push_acquire, push_copy, push_publish, push_store, push_bottom,
  pop_start, pop_refresh, pop_empty, pop_load, pop_cas, pop_won, pop_lost, shrink_start,
  shrink_copy, shrink_publish, shrink_shift, shrink_snapshot, shrink_cas, shrink_restore,
  shrink_release, fault,
}
use lock_free_deque.Deque.Owner.{with_array, at_owner, owner_move, owner_step}
use lock_free_deque.Deque.System.{
  Step, owner_moves, push_called, pop_called, thief_moves, steal_called, other_claims, other_uses,
  other_returns, Reach, here, next,
}
use lock_free_deque.Deque.View.{stays, view, Runs, begins, then}
use lock_free_deque.Deque.Invariant.Defs.{Inv}
use lock_free_deque.Deque.Invariant.Quiet.{Outcome, quiet-Outcome}
use lock_free_deque.Deque.Invariant.Steal.{local-Outcome}
use lock_free_deque.Deque.Invariant.Thieves.{thief_step-Outcome}
use lock_free_deque.Deque.Invariant.Others.{elsewhere-Outcome}
use lock_free_deque.Deque.Invariant.Moves.Push.{
  push_start-Outcome, push_refresh-Outcome, push_acquire_none-Outcome,
}
use lock_free_deque.Deque.Invariant.Moves.Grow.{push_acquire-Outcome, push_publish-Outcome}
use lock_free_deque.Deque.Invariant.Moves.Copy.{push_copy-Outcome, shrink_copy-Outcome}
use lock_free_deque.Deque.Invariant.Moves.Store.{push_store-Outcome, push_bottom-Outcome}
use lock_free_deque.Deque.Invariant.Moves.Pop.{
  pop_start-Outcome, pop_refresh-Outcome, pop_empty-Outcome,
}
use lock_free_deque.Deque.Invariant.Moves.Take.{
  pop_load-Outcome, pop_cas-Outcome, pop_won-Outcome, pop_lost-Outcome,
}
use lock_free_deque.Deque.Invariant.Moves.Shrink.{shrink_start-Outcome}
use lock_free_deque.Deque.Invariant.Moves.Shift.{
  shrink_publish-Outcome, shrink_shift-Outcome, shrink_snapshot-Outcome, shrink_cas-Outcome,
  shrink_restore-Outcome,
}
use lock_free_deque.Deque.Invariant.Moves.Release.{shrink_release-Outcome}

module _ {A : Type 0} {s : Machine A} {item : ℕ → A} {hi : ℕ} where
  owner_move-Outcome :
      (pc : OwnerPc A)
      → s.owner ≡ pc
      → Inv s item hi pc
      → Outcome (view s item hi pc) (owner_move s pc)
  unfolding owner_move
  owner_move-Outcome idle e inv =
      subst (λ (p : OwnerPc A). Outcome (view s item hi p) s) e
        (item, hi, subst (Inv s item hi) (sym e) inv, stays refl)
  owner_move-Outcome (push_start x) e inv = push_start-Outcome x inv
  owner_move-Outcome (push_refresh x b a) e inv = push_refresh-Outcome x b a inv
  owner_move-Outcome (push_acquire x b t a i zero) e inv = push_acquire_none-Outcome x b t a i inv
  owner_move-Outcome (push_acquire x b t a i (suc left)) e inv =
      push_acquire-Outcome x b t a i left inv
  owner_move-Outcome (push_copy x b a d i) e inv = push_copy-Outcome x b a d i inv
  owner_move-Outcome (push_publish x b d) e inv = push_publish-Outcome x b d inv
  owner_move-Outcome (push_store x b a) e inv = push_store-Outcome x b a inv
  owner_move-Outcome (push_bottom x b) e inv = push_bottom-Outcome x b inv
  owner_move-Outcome pop_start e inv = pop_start-Outcome inv
  owner_move-Outcome (pop_refresh b a) e inv = pop_refresh-Outcome b a inv
  owner_move-Outcome (pop_empty t) e inv = pop_empty-Outcome t inv
  owner_move-Outcome (pop_load b t a) e inv = pop_load-Outcome b t a inv
  owner_move-Outcome (pop_cas x t) e inv = pop_cas-Outcome x t inv
  owner_move-Outcome (pop_won x t) e inv = pop_won-Outcome x t inv
  owner_move-Outcome (pop_lost t) e inv = pop_lost-Outcome t inv
  owner_move-Outcome (shrink_start x b t) e inv = shrink_start-Outcome x b t inv
  owner_move-Outcome (shrink_copy x b a d i) e inv = shrink_copy-Outcome x b a d i inv
  owner_move-Outcome (shrink_publish x b a d) e inv = shrink_publish-Outcome x b a d inv
  owner_move-Outcome (shrink_shift x b a d) e inv = shrink_shift-Outcome x b a d inv
  owner_move-Outcome (shrink_snapshot x b a d) e inv = shrink_snapshot-Outcome x b a d inv
  owner_move-Outcome (shrink_cas x b a d snapshot) e inv = shrink_cas-Outcome x b a d snapshot inv
  owner_move-Outcome (shrink_restore x b a d) e inv = shrink_restore-Outcome x b a d inv
  owner_move-Outcome (shrink_release x c d) e inv = shrink_release-Outcome x c d inv
  owner_move-Outcome fault e inv = absurd inv.owner_ok

  owner_step-Outcome : Inv s item hi s.owner → Outcome (view s item hi s.owner) (owner_step s)
  unfolding owner_step
  owner_step-Outcome inv = owner_move-Outcome s.owner refl inv

  -- The owner begins a call.
  called :
      (pc : OwnerPc A)
      → s.owner ≡ idle
      → (Inv s item hi idle → Outcome (view s item hi idle) (at_owner s pc))
      → Inv s item hi s.owner
      → Outcome (view s item hi s.owner) (at_owner s pc)
  called pc e begin inv =
      subst (λ (p : OwnerPc A). Outcome (view s item hi p) (at_owner s pc)) (sym e)
        (begin (subst (Inv s item hi) e inv))

  push_called-Outcome :
      (x : A) → Inv s item hi idle → Outcome (view s item hi idle) (at_owner s (push_start x))
  push_called-Outcome x inv =
      quiet-Outcome inv s.bottom s.cached_top s.trace (push_start x) refl inv.cached inv.owner_ok
        (λ t a now lt r. tt) (λ t now two k. inr tt)

  pop_called-Outcome : Inv s item hi idle → Outcome (view s item hi idle) (at_owner s pop_start)
  pop_called-Outcome inv =
      quiet-Outcome inv s.bottom s.cached_top s.trace pop_start refl inv.cached inv.owner_ok
        (λ t a now lt r. tt) (λ t now two k. inr tt)

  -- Another user changes the contents of record `r`, which this deque does not own.
  contents-Outcome :
      (r : ℕ) (c : CircularArray A)
      → s.flags r ≢ owned
      → c.log_size ≡ (s.arrays r).log_size
      → Inv s item hi s.owner
      → Outcome (view s item hi s.owner) (with_array s r c)
  contents-Outcome r c away keeps inv =
      elsewhere-Outcome s item hi (update s.arrays r c) s.flags
        (λ q own. (update_ne s.arrays r q c (λ e. away (ap s.flags e ∙ own)), own))
        (log_size-update s.arrays r c keeps) inv

  -- Another user sets the flag of record `r`, which this deque does not own.
  flag-Outcome :
      (r : ℕ) (f : Flag)
      → s.flags r ≢ owned
      → Inv s item hi s.owner
      → Outcome (view s item hi s.owner) (record s { flags = update s.flags r f })
  flag-Outcome r f away inv =
      elsewhere-Outcome s item hi s.arrays (update s.flags r f)
        (λ q own. (refl, update_ne s.flags r q f (λ e. away (ap s.flags e ∙ own)) ∙ own))
        (λ q. refl) inv

  -- Another user claims record `r`, which is available.
  claims-Outcome :
      (r : ℕ)
      → s.flags r ≢ owned
      → Inv s item hi s.owner
      → Outcome
          (view s item hi s.owner)
          (record (with_array s r (reset_for_reuse (s.arrays r))) { flags = update s.flags r lent })
  claims-Outcome r away inv =
      elsewhere-Outcome s item hi (update s.arrays r (reset_for_reuse (s.arrays r)))
        (update s.flags r lent)
        (λ q own.
          let ne : r ≢ q = λ e. away (ap s.flags e ∙ own) in
          (update_ne s.arrays r q _ ne, update_ne s.flags r q lent ne ∙ own))
        (log_size-update s.arrays r (reset_for_reuse (s.arrays r)) refl) inv

available-not_owned : {f : Flag} → f ≡ available → f ≢ owned
available-not_owned e e' = absurd (cc)

lent-not_owned : {f : Flag} → f ≡ lent → f ≢ owned
lent-not_owned e e' = absurd (cc)

module _ {A : Type 0} where
  -- A step from a state in which the invariant holds leads to such a state, and the abstract deque
  -- does nothing, or one of its actions.
  pub Step-Outcome :
      {s s' : Machine A} {item : ℕ → A} {hi : ℕ}
      → Inv s item hi s.owner
      → Step s s'
      → Outcome (view s item hi s.owner) s'
  Step-Outcome inv owner_moves = owner_step-Outcome inv
  Step-Outcome inv (push_called x e) = called (push_start x) e (push_called-Outcome x) inv
  Step-Outcome inv (pop_called e) = called pop_start e pop_called-Outcome inv
  Step-Outcome inv (thief_moves i) = thief_step-Outcome inv i
  Step-Outcome {s} inv (steal_called i e) =
      local-Outcome inv i ThiefPc.start s.trace tt refl refl refl
  Step-Outcome inv (other_claims r e) = claims-Outcome r (available-not_owned e) inv
  Step-Outcome inv (other_uses r c e keeps) = contents-Outcome r c (lent-not_owned e) keeps inv
  Step-Outcome inv (other_returns r e) = flag-Outcome r available (lent-not_owned e) inv

  pub Reach-Runs :
      {s s' : Machine A} {item : ℕ → A} {hi : ℕ}
      → Inv s item hi s.owner
      → Reach s s'
      → (item' : ℕ → A) × (hi' : ℕ) × Inv s' item' hi' s'.owner
        × Runs (view s item hi s.owner) (view s' item' hi' s'.owner)
  Reach-Runs {s} {s'} {item} {hi} inv here = (item, hi, inv, begins)
  Reach-Runs inv (next reach step) =
      let (item₁, hi₁, inv₁, runs) = Reach-Runs inv reach in
      let (item₂, hi₂, inv₂, action) = Step-Outcome inv₁ step in
      (item₂, hi₂, inv₂, then runs action)
