-- ===== src/Deque/Invariant/Thieves.antt =====
-- Every step of a thief keeps the invariant, and is one action of the abstract deque.
use lock_free_deque.Prelude.{
  ℕ, ◌⊎◌, ◌+◌, ◌-◌, ◌<◌, ◌≡◌, refl, ap, sym, ◌∙◌, subst, ◌∷◌, Bool, true, false, arith, update,
  if◌then◌else◌, ◌==◌, ==_iff, window, window-steal,
}
use lock_free_deque.Prelude.Int.{pos, ◌-ℤ◌, is_positive}
use lock_free_deque.StealResult.{StealState, of_state, of_value}
use lock_free_deque.CircularArray.{size, load}
use lock_free_deque.Deque.State.{ThiefPc, steal_returned, Machine}
use lock_free_deque.Deque.State.ThiefPc.{
  idle, start, got_top, got_array, got_bottom, recheck, reading, claiming,
}
use lock_free_deque.Deque.Thief.{at_thief, return_steal, judge, thief_move, thief_step}
use lock_free_deque.Deque.View.{
  Action, stays, steals, view, consed, in_hand, pushed_values, popped_values, stolen_values,
}
use lock_free_deque.Deque.Invariant.Defs.{Offset, ThiefOk, Inv}
use lock_free_deque.Deque.Invariant.Stable.{Stable, ThiefOk-Stable}
use lock_free_deque.Deque.Invariant.Quiet.{Outcome}
use lock_free_deque.Deque.Invariant.Steal.{
  placed, after, local-Outcome, judge-ThiefOk, raised, raised-OwnerOk, raised-in_hand,
  beside-OwnerOk, beside-in_hand, Reads, bottom-Reads,
}

module _ {A : Type 0} {s : Machine A} {item : ℕ → A} {hi : ℕ} (inv : Inv s item hi s.owner)
    (i : ℕ) where
  -- A steal that fails.
  failed :
      (state : StealState) → Outcome (view s item hi s.owner) (return_steal s i (of_state state))
  failed state =
      local-Outcome inv i idle (steal_returned (of_state state) ∷ s.trace) tt refl refl refl

  taken : A → Machine A
  taken x = after (raised s) i idle (steal_returned (of_value x) ∷ s.trace)

  taken-Inv : (x : A) → s.top < hi → Inv (taken x) item hi s.owner
  unfolding taken
  taken-Inv x lt = record {
    le = omega arith;
    room = omega (arith, inv.room);
    cached = omega (arith, inv.cached);
    pool = inv.pool;
    held = (inv.held.0, λ j ge j_lt b. inv.held.1 j (omega arith) j_lt b);
    owner_ok =
        beside-OwnerOk (raised s) item hi (update s.thieves i idle)
          (steal_returned (of_value x) ∷ s.trace) s.owner
          (raised-OwnerOk s item hi lt s.owner inv.owner_ok);
    thief_ok = placed (ThiefOk (taken x) item hi s.owner) s.thieves i idle tt (λ k.
        ThiefOk-Stable s (taken x) item item hi hi s.owner s.owner st (s.thieves k)
          (inv.thief_ok k));
  }
    where
      st : Stable s (taken x) item item hi hi s.owner s.owner
      st = record {
        grows = omega arith;
        same_item = λ t' was is. absurd (omega arith);
        same_slot = λ t' a was is. absurd (omega arith);
        same_offset = λ t' b was is. absurd (omega arith);
      }

  taken-steals :
      (x : A)
      → s.top < hi
      → x ≡ item s.top
      → Action (view s item hi s.owner) (view (taken x) item hi s.owner)
  unfolding taken
  taken-steals x lt e = steals x same refl
    where
      front : window item s.top (hi - s.top) ≡ x ∷ window item (s.top + 1) (hi - (s.top + 1))
      front =
          window-steal item s.top hi lt
          ∙ ap (λ (y : A). y ∷ window item (s.top + 1) (hi - (s.top + 1))) (sym e)

      hand : in_hand s s.owner ≡ in_hand (taken x) s.owner
      hand =
          sym (raised-in_hand s s.owner)
          ∙ sym (
              beside-in_hand (raised s) (update s.thieves i idle)
                (steal_returned (of_value x) ∷ s.trace) s.owner)

      same : view s item hi s.owner ≡ record (view (taken x) item hi s.owner) {
        queue = x ∷ (view (taken x) item hi s.owner).queue;
        stolen = stolen_values s.trace;
      }
      same k = record {
        queue = front k;
        pushed = pushed_values s.trace;
        popped = consed (hand k) (popped_values s.trace);
        stolen = stolen_values s.trace;
      }

  taken-Outcome :
      (t : ℕ) (x : A)
      → s.top ≡ t
      → ThiefOk s item hi s.owner (claiming t x)
      → Outcome (view s item hi s.owner) (return_steal (record s { top = t + 1 }) i (of_value x))
  unfolding taken
  taken-Outcome t x now ok =
      subst
        (λ (n : ℕ).
          Outcome (view s item hi s.owner) (return_steal (record s { top = n + 1 }) i (of_value x)))
        now
        (
          item,
          hi,
          taken-Inv x (omega (arith, ok.1 now)),
          taken-steals x (omega (arith, ok.1 now)) ((ok.1 now).1 ∙ ap item (sym now)),
        )

  thief_move-Outcome :
      (p : ThiefPc A)
      → ThiefOk s item hi s.owner p
      → Outcome (view s item hi s.owner) (thief_move s i p)
  unfolding thief_move
  thief_move-Outcome idle ok = (item, hi, inv, stays refl)
  thief_move-Outcome start ok =
      local-Outcome inv i (got_top s.top) s.trace (omega arith) refl refl refl
  thief_move-Outcome (got_top t) ok =
      local-Outcome inv i (got_array t s.active) s.trace ok refl refl refl
  thief_move-Outcome (got_array t old_array) ok =
      local-Outcome inv i (got_bottom t old_array s.bottom) s.trace (ok, λ now. reads now) refl refl
        refl
    where
      reads :
          s.top ≡ t
          → (is_positive (s.bottom -ℤ pos t) ≡ false)
            ⊎ ((t < hi) ⊎ Offset s item hi s.owner t s.bottom)
      reads now =
          subst (λ (n : ℕ). Reads s item hi s.owner n s.bottom) now
            (bottom-Reads s item hi s.owner inv.le inv.owner_ok)
  thief_move-Outcome (got_bottom t old_array b) ok = go _ refl
    where
      go :
          (more : Bool)
          → is_positive (b -ℤ pos t) ≡ more
          → Outcome (view s item hi s.owner) (
              if more
              then at_thief s i (judge t old_array b s.active (size (s.arrays s.active)))
              else return_steal s i (of_state StealState.empty))
      go true e =
          local-Outcome inv i (judge t old_array b s.active (size (s.arrays s.active))) s.trace
            (judge-ThiefOk inv t old_array b ok e) refl refl refl
      go false e = failed StealState.empty
  thief_move-Outcome (recheck t old_array a) ok = go _
    where
      go :
          (same : Bool)
          → Outcome (view s item hi s.owner) (
              if same
              then return_steal s i (of_state StealState.empty)
              else return_steal s i (of_state StealState.abort))
      go true = failed StealState.empty
      go false = failed StealState.abort
  thief_move-Outcome (reading t a) ok =
      local-Outcome inv i (claiming t (load (s.arrays a) t)) s.trace
        (ok.0, λ now. ((ok.1 now).0, (ok.1 now).2)) refl refl refl
  thief_move-Outcome (claiming t x) ok = go _ refl
    where
      go :
          (same : Bool)
          → (s.top == t) ≡ same
          → Outcome (view s item hi s.owner) (
              if same
              then return_steal (record s { top = t + 1 }) i (of_value x)
              else return_steal s i (of_state StealState.abort))
      go true e = taken-Outcome t x ((==_iff s.top t).0 e) ok
      go false e = failed StealState.abort

  pub thief_step-Outcome : Outcome (view s item hi s.owner) (thief_step s i)
  unfolding thief_step
  thief_step-Outcome = thief_move-Outcome (s.thieves i) (inv.thief_ok i)
