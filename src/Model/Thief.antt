-- ===== src/Model/Thief.antt =====
-- `steal` of model/deque_model.c is the `steal` of src/work_stealing_deque.h: the same accesses in the
-- same order, with the same results.
pub mod Places
use lock_free_deque.Prelude.{
  ℕ, ◌+◌, ◌-◌, ◌%◌, ◌^◌, bit_and, ◌≡◌, ◌⊎◌, refl, ap, sym, ◌∙◌, subst, inl, inr, ◌∷◌, Bool, true,
  false, not, ◌&&◌, ◌==◌, if◌then◌else◌, update_self,
}
use lock_free_deque.Prelude.Int.{ℤ, pos, ◌-ℤ◌, is_positive, pos_part}
use lock_free_deque.StealResult.{StealState, StealResult, of_state, of_value}
use lock_free_deque.CircularArray.{size, index, load}
use lock_free_deque.Deque.State.{steal_returned, ThiefPc, Machine}
use lock_free_deque.Deque.State.ThiefPc.{start, got_top, got_array, got_bottom, reading, claiming}
use lock_free_deque.Deque.Thief
use lock_free_deque.Deque.Thief.{at_thief, return_steal, thief_move}
use lock_free_deque.Model.Program.{
  Array, small, large, DequeName, original, borrower, load_active, load_bottom, Program, returns,
  ◌>>=◌, perform, Memory, with_deque, step,
}
use lock_free_deque.Model.Deque
use lock_free_deque.Model.Deque.{
  empty, abort, log_size, same_array, capacity, judge, claim, take, steal,
}
use lock_free_deque.Model.Thief.Places.{
  number, Agrees, Reports, says_empty, says_abort, says_value, Place, before_top, before_array,
  before_bottom, before_judge, before_recheck, before_slot, before_claim, Ended, Follows,
}

with_deque_self :
    {X : Type 0} (f : DequeName → X) (deque : DequeName) (x : X) → with_deque f deque x deque ≡ x
with_deque_self f original x = refl
with_deque_self f borrower x = refl

module _ (deque : DequeName) (s : Machine ℤ) (i : ℕ) where
  module _ (m : Memory) (agrees : Agrees deque m s) where
    -- A step that only moves the thief.
    moves :
        (pc pc' : ThiefPc ℤ) (program : Program ℤ)
        → pc ≡ pc'
        → Place deque pc program
        → Follows deque s i (at_thief s i pc') (m, program)
    moves pc pc' program same place = (
      record {
        active = agrees.active;
        bottom = agrees.bottom;
        top = agrees.top;
        sizes = agrees.sizes;
        slots = agrees.slots;
      },
      inl (
          subst (λ (p : ThiefPc ℤ). Place deque p program)
            (same ∙ sym (update_self s.thieves i pc')) place),
    )

    -- A step that ends the call.
    ends :
        (result : StealResult ℤ) (code : ℤ)
        → Reports result code
        → Follows deque s i (return_steal s i result) (m, returns code)
    ends result code reports = (
      record {
        active = agrees.active;
        bottom = agrees.bottom;
        top = agrees.top;
        sizes = agrees.sizes;
        slots = agrees.slots;
      },
      inr (result, code, reports, refl, update_self s.thieves i ThiefPc.idle, refl),
    )

    same_size : (a : Array) → size (s.arrays (number a)) ≡ capacity a
    same_size a = ap (λ (n : ℕ). 2 ^ n) (agrees.sizes a)

    judges :
        (t : ℕ) (old_array : Array) (b : ℤ) (array : Array)
        → number array ≡ s.active
        → (more : Bool)
        → Follows deque s i
            (if more
              then at_thief s i
                  (Thief.judge t (number old_array) b s.active (size (s.arrays s.active)))
              else return_steal s i (of_state StealState.empty))
            (
              m,
              if more
                  then if pos_part (b -ℤ pos t) % capacity array == 0
                    then Deque.recheck deque t old_array array
                    else take deque t array
                  else returns empty,
            )
    judges t old_array b array e false = ends (of_state StealState.empty) empty says_empty
    judges t old_array b array e true =
        moves (Thief.judge t (number old_array) b (number array) (capacity array))
          (Thief.judge t (number old_array) b s.active (size (s.arrays s.active))) _ same
          (whole (pos_part (b -ℤ pos t) % capacity array == 0))
      where
        same :
            Thief.judge {A = ℤ} t (number old_array) b (number array) (capacity array)
            ≡ Thief.judge t (number old_array) b s.active (size (s.arrays s.active))
        same =
            ap (λ (n : ℕ). Thief.judge t (number old_array) b (number array) n)
              (sym (same_size array))
            ∙ ap (λ (r : ℕ). Thief.judge t (number old_array) b r (size (s.arrays r))) e

        whole :
            (aligned : Bool)
            → Place deque
                (if aligned
                  then ThiefPc.recheck t (number old_array) (number array)
                  else reading t (number array))
                (if aligned then Deque.recheck deque t old_array array else take deque t array)
        whole true = before_recheck t old_array array
        whole false = before_slot t array

    rechecks :
        (array old_array : Array) (same : Bool)
        → Follows deque s i
            (if number array == number old_array && same
              then return_steal s i (of_state StealState.empty)
              else return_steal s i (of_state StealState.abort))
            (
              m,
              if not (same_array array old_array)
                  then returns abort
                  else if not same
                  then returns abort
                  else returns empty,
            )
    rechecks small small true = ends (of_state StealState.empty) empty says_empty
    rechecks small small false = ends (of_state StealState.abort) abort says_abort
    rechecks small large same = ends (of_state StealState.abort) abort says_abort
    rechecks large small same = ends (of_state StealState.abort) abort says_abort
    rechecks large large true = ends (of_state StealState.empty) empty says_empty
    rechecks large large false = ends (of_state StealState.abort) abort says_abort

    slot-eq-load :
        (array : Array) (t : ℕ)
        → m.slots array (bit_and t (capacity array - 1)) ≡ load (s.arrays (number array)) t
    unfolding load index
    slot-eq-load array t =
        agrees.slots array (bit_and t (capacity array - 1))
        ∙ ap (λ (n : ℕ). (s.arrays (number array)).segment (bit_and t (n - 1)))
            (sym (same_size array))

    -- The compare-and-swap, where it succeeds or not.
    tried : ℕ → Bool → Bool × Memory
    tried t same =
        if same then (true, record m { top = with_deque m.top deque (t + 1) }) else (false, m)

    claims :
        (t : ℕ) (x : ℤ) (same : Bool)
        → Follows deque s i
            (if same
              then return_steal (record s { top = t + 1 }) i (of_value x)
              else return_steal s i (of_state StealState.abort))
            ((tried t same).1, if (tried t same).0 then returns x else returns abort)
    unfolding tried
    claims t x true = (
      record {
        active = agrees.active;
        bottom = agrees.bottom;
        top = with_deque_self m.top deque (t + 1);
        sizes = agrees.sizes;
        slots = agrees.slots;
      },
      inr (of_value x, x, says_value x, refl, update_self s.thieves i ThiefPc.idle, refl),
    )
    claims t x false = ends (of_state StealState.abort) abort says_abort

    -- One access of `steal` of the model is one step of the machine's thief: from memories that
    -- agree and from the same place in the code, the thief's step and the access lead to memories
    -- that agree, and either to the same place again, or to the end of both calls, with the same
    -- result.
    pub thief_move-Follows :
        (pc : ThiefPc ℤ) (program : Program ℤ)
        → Place deque pc program
        → Follows deque s i (thief_move s i pc) (step m program)
    unfolding thief_move tried
    thief_move-Follows _ _ before_top =
        moves (got_top (m.top deque)) (got_top s.top) _ (ap got_top agrees.top)
          (before_array (m.top deque))
    thief_move-Follows _ _ (before_array t) =
        moves (got_array t (number (m.active deque))) (got_array t s.active) _
          (ap (got_array t) agrees.active) (before_bottom t (m.active deque))
    thief_move-Follows _ _ (before_bottom t old_array) =
        moves (got_bottom t (number old_array) (m.bottom deque))
          (got_bottom t (number old_array) s.bottom) _
          (ap (got_bottom t (number old_array)) agrees.bottom)
          (before_judge t old_array (m.bottom deque))
    thief_move-Follows _ _ (before_judge t old_array b) =
        judges t old_array b (m.active deque) agrees.active (is_positive (b -ℤ pos t))
    thief_move-Follows _ _ (before_recheck t old_array array) =
        subst
          (λ (top : ℕ).
            Follows deque s i
              (if number array == number old_array && t == s.top
                then return_steal s i (of_state StealState.empty)
                else return_steal s i (of_state StealState.abort))
              (
                m,
                if not (same_array array old_array)
                    then returns abort
                    else if not (t == top)
                    then returns abort
                    else returns empty,
              ))
          (sym agrees.top) (rechecks array old_array (t == s.top))
    thief_move-Follows _ _ (before_slot t array) =
        moves (claiming t (m.slots array (bit_and t (capacity array - 1))))
          (claiming t (load (s.arrays (number array)) t)) _ (ap (claiming t) (slot-eq-load array t))
          (before_claim t (m.slots array (bit_and t (capacity array - 1))))
    thief_move-Follows _ _ (before_claim t x) =
        subst
          (λ (top : ℕ).
            Follows deque s i
              (if s.top == t
                then return_steal (record s { top = t + 1 }) i (of_value x)
                else return_steal s i (of_state StealState.abort))
              ((tried t (top == t)).1, if (tried t (top == t)).0 then returns x else returns abort))
          (sym agrees.top) (claims t x (s.top == t))
