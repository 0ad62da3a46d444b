-- ===== src/Deque/Invariant/Steal.antt =====
-- Steps of a thief that leave the memory alone.
mod Raise
mod Bottom
use lock_free_deque.Prelude.{
  ℕ, suc, ◌+◌, ◌-◌, ◌%◌, ◌≤◌, ◌<◌, ◌≡◌, ◌≢◌, refl, ap, sym, ◌∙◌, subst, ◌⊎◌, inl, inr, List, ◌∷◌,
  Option, none, some, Bool, Bool-cases, true, false, arith, update, if◌then◌else◌, ◌==◌, ◌&&◌,
  ==_iff, window, window-steal, update_self, update_ne,
}
use native.Mathlib.Decide.{ℕ_discrete}
use lock_free_deque.Prelude.Int.{ℤ, pos, sub_ℕ, ◌-ℤ◌, pos_part, is_positive}
use lock_free_deque.StealResult.{StealState, StealResult, of_state, of_value}
use lock_free_deque.CircularArray.{CircularArray, size, load}
use lock_free_deque.CircularArray.Slots.{size-pos}
use lock_free_deque.Deque.State.{Flag, owned, OwnerPc, ThiefPc, Event, steal_returned, Machine}
use lock_free_deque.Deque.State.OwnerPc.{
  idle, push_start, push_refresh, push_acquire, push_copy, push_publish, push_store, push_bottom,
  pop_start, pop_refresh, pop_empty, pop_load, pop_cas, pop_won, pop_lost, shrink_start,
  shrink_copy, shrink_publish, shrink_shift, shrink_snapshot, shrink_cas, shrink_restore,
  shrink_release, fault,
}
use lock_free_deque.Deque.State.ThiefPc.{
  start, got_top, got_array, got_bottom, recheck, reading, claiming,
}
use lock_free_deque.Deque.Owner.{at_owner}
use lock_free_deque.Deque.Thief.{at_thief, return_steal, judge, thief_move}
use lock_free_deque.Deque.View.{
  View, Action, stays, steals, view, consed, in_hand, pushed_values, popped_values, stolen_values,
}
use lock_free_deque.Deque.Invariant.Chain.{Chain}
use lock_free_deque.Deque.Invariant.Defs.{Hangs, Recent, Settled, Offset, OwnerOk, ThiefOk, Inv}
use lock_free_deque.Deque.Invariant.Stable.{Stable, ThiefOk-Stable}
use lock_free_deque.Deque.Invariant.Quiet.{Outcome}
use lock_free_deque.Deque.Invariant.Tests.{shift_is_whole}
pub use Raise.{
  raised, raised-OwnerOk, raised-in_hand, beside, beside-OwnerOk, beside-in_hand, Recent-active,
}
pub use Bottom.{Reads, bottom-Reads}

-- The places of the threads, with thief `i` at `p`.
pub placed :
    {A : Type 0} (Ok : ThiefPc A → Type 0) (thieves : ℕ → ThiefPc A) (i : ℕ) (p : ThiefPc A)
    → Ok p
    → ((k : ℕ) → Ok (thieves k))
    → (k : ℕ) → Ok (update thieves i p k)
placed Ok thieves i p ok others k = elim (ℕ_discrete i k) [
  | yes same ↦
      subst (λ j. Ok (update thieves i p j)) same (subst Ok (sym (update_self thieves i p)) ok)
  | no ne ↦ subst Ok (sym (update_ne thieves i k p ne)) (others k)
]

abbrev pub after : {A : Type 0} → Machine A → ℕ → ThiefPc A → List (Event A) → Machine A
after s i p trace = beside s (update s.thieves i p) trace

module _ {A : Type 0} {s : Machine A} {item : ℕ → A} {hi : ℕ} where
  beside-Stable :
      (thieves : ℕ → ThiefPc A) (trace : List (Event A))
      → Stable s (beside s thieves trace) item item hi hi s.owner s.owner
  beside-Stable thieves trace = record {
    grows = omega arith;
    same_item = λ t now still lt. (lt, refl);
    same_slot = λ t a now still lt own slot r. (own, slot, r);
    same_offset = λ t b now still off. inr off;
  }

  -- A thief goes on at `p`, and the memory stays.
  local-Inv :
      Inv s item hi s.owner
      → (i : ℕ) (p : ThiefPc A) (trace : List (Event A)) → ThiefOk s item hi s.owner p
      → Inv (after s i p trace) item hi s.owner
  local-Inv inv i p trace ok = record {
    le = inv.le;
    room = inv.room;
    cached = inv.cached;
    pool = inv.pool;
    held = inv.held;
    owner_ok = beside-OwnerOk s item hi (update s.thieves i p) trace s.owner inv.owner_ok;
    thief_ok =
        placed (ThiefOk (after s i p trace) item hi s.owner) s.thieves i p (keep p ok)
          (λ k. keep (s.thieves k) (inv.thief_ok k));
  }
    where
      keep :
          (q : ThiefPc A)
          → ThiefOk s item hi s.owner q
          → ThiefOk (after s i p trace) item hi s.owner q
      keep =
          ThiefOk-Stable s (after s i p trace) item item hi hi s.owner s.owner
            (beside-Stable (update s.thieves i p) trace)

  pub local-Outcome :
      Inv s item hi s.owner
      → (i : ℕ) (p : ThiefPc A) (trace : List (Event A)) → ThiefOk s item hi s.owner p
      → pushed_values trace ≡ pushed_values s.trace
      → popped_values trace ≡ popped_values s.trace
      → stolen_values trace ≡ stolen_values s.trace
      → Outcome (view s item hi s.owner) (after s i p trace)
  local-Outcome inv i p trace ok e₁ e₂ e₃ = (item, hi, local-Inv inv i p trace ok, stays same)
    where
      same : view (after s i p trace) item hi s.owner ≡ view s item hi s.owner
      same k = record {
        queue = window item s.top (hi - s.top);
        pushed = e₁ k;
        popped = consed (beside-in_hand s (update s.thieves i p) trace s.owner k) (e₂ k);
        stolen = e₃ k;
      }

  pub judge-ThiefOk :
      Inv s item hi s.owner
      → (t old_array : ℕ) (b : ℤ) → ThiefOk s item hi s.owner (got_bottom t old_array b)
      → is_positive (b -ℤ pos t) ≡ true
      → ThiefOk s item hi s.owner (judge t old_array b s.active (size (s.arrays s.active)))
  judge-ThiefOk inv t old_array b (t_le, reads) more =
      go (pos_part (b -ℤ pos t) % size (s.arrays s.active) == 0) refl
    where
      at_top :
          s.top ≡ t
          → (is_positive (b -ℤ pos t) ≡ false) ⊎ ((t < hi) ⊎ Offset s item hi s.owner t b)
          → (pos_part (b -ℤ pos t) % size (s.arrays s.active) == 0) ≡ false
          → t < hi
      at_top now (inl none_left) odd = absurd (cc)
      at_top now (inr (inl lt)) odd = lt
      at_top now (inr (inr off)) odd =
          absurd (
            cc (shift_is_whole b t (size (s.arrays s.active)) (size-pos (s.arrays s.active)) off.0))

      go :
          (whole : Bool)
          → (pos_part (b -ℤ pos t) % size (s.arrays s.active) == 0) ≡ whole
          → ThiefOk s item hi s.owner
              (if whole then recheck t old_array s.active else reading t s.active)
      go true e = tt
      go false e = (
        t_le,
        λ now.
            let lt = at_top now (reads now) e in
            (lt, inv.held.0, inv.held.1 t (omega arith) lt tt, Recent-active s.owner s.active t),
      )
