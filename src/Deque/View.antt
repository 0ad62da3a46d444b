-- ===== src/Deque/View.antt =====
-- What a client of src/work_stealing_deque.h can see: a sequence of values, of which the owner adds
-- and takes at the back and the thieves take at the front.
pub mod Conserved
pub mod Order
use lock_free_deque.Prelude.{
  ℕ, ◌-◌, ◌≡◌, List, [], ◌∷◌, ◌++◌, Option, none, some, window, if◌then◌else◌,
}
use lock_free_deque.Prelude.Int.{ℤ, pos, ◌-ℤ◌, is_positive, to_u64}
use lock_free_deque.StealResult.{PushResult, StealResult}
use lock_free_deque.CircularArray.{load}
use lock_free_deque.Deque.State.{
  OwnerPc, Event, push_returned, pop_returned, steal_returned, Machine,
}
use lock_free_deque.Deque.State.OwnerPc.{
  pop_load, pop_won, shrink_start, shrink_copy, shrink_publish, shrink_shift, shrink_snapshot,
  shrink_cas, shrink_restore, shrink_release,
}

-- The state of the abstract deque: the values in it, the front first, and all values that went in,
-- that the owner took and that thieves took, the latest first.
pub record View (A : Type 0) : Type 0 where
  pub queue : List A
  pub pushed : List A
  pub popped : List A
  pub stolen : List A

-- What the abstract deque can do in one step.
pub data Action {A : Type 0} (v v' : View A) : Type 0 where
  stays : v' ≡ v → Action v v'
  pushes :
      (x : A) → v' ≡ record v { queue = v.queue ++ (x ∷ []); pushed = x ∷ v.pushed } → Action v v'
  pops :
      (x : A)
      → v ≡ record v' { queue = v'.queue ++ (x ∷ []); popped = v.popped }
      → v'.popped ≡ x ∷ v.popped
      → Action v v'
  steals :
      (x : A)
      → v ≡ record v' { queue = x ∷ v'.queue; stolen = v.stolen }
      → v'.stolen ≡ x ∷ v.stolen
      → Action v v'

-- A run of the abstract deque.
pub data Runs {A : Type 0} (v : View A) : View A → Type 0 where
  begins : Runs v v
  then : {u w : View A} → Runs v u → Action u w → Runs v w

module _ {A : Type 0} where
  abbrev pub consed : Option A → List A → List A
  consed none xs = xs
  consed (some x) xs = x ∷ xs

  abbrev pub pushed_values : List (Event A) → List A
  pushed_values [] = []
  pushed_values (push_returned x PushResult.success ∷ es) = x ∷ pushed_values es
  pushed_values (push_returned x PushResult.no_buffer_acquired ∷ es) = pushed_values es
  pushed_values (pop_returned result ∷ es) = pushed_values es
  pushed_values (steal_returned result ∷ es) = pushed_values es

  abbrev pub popped_values : List (Event A) → List A
  popped_values [] = []
  popped_values (push_returned x result ∷ es) = popped_values es
  popped_values (pop_returned result ∷ es) = consed result (popped_values es)
  popped_values (steal_returned result ∷ es) = popped_values es

  abbrev pub stolen_values : List (Event A) → List A
  stolen_values [] = []
  stolen_values (push_returned x result ∷ es) = stolen_values es
  stolen_values (pop_returned result ∷ es) = stolen_values es
  stolen_values (steal_returned result ∷ es) = consed result.value (stolen_values es)

  -- The value that the owner has taken and not yet returned.
  abbrev pub in_hand : Machine A → OwnerPc A → Option A
  in_hand s (pop_load b t a) =
      if is_positive (b -ℤ pos t) then some (load (s.arrays a) (to_u64 b)) else none
  in_hand s (pop_won x t) = some x
  in_hand s (shrink_start x b t) = some x
  in_hand s (shrink_copy x b a d i) = some x
  in_hand s (shrink_publish x b a d) = some x
  in_hand s (shrink_shift x b a d) = some x
  in_hand s (shrink_snapshot x b a d) = some x
  in_hand s (shrink_cas x b a d snapshot) = some x
  in_hand s (shrink_restore x b a d) = some x
  in_hand s (shrink_release x c d) = some x
  in_hand s _ = none

  abbrev pub view : Machine A → (ℕ → A) → ℕ → OwnerPc A → View A
  view s item hi pc = record {
    queue = window item s.top (hi - s.top);
    pushed = pushed_values s.trace;
    popped = consed (in_hand s pc) (popped_values s.trace);
    stolen = stolen_values s.trace;
  }
