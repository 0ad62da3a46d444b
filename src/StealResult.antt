-- ===== src/StealResult.antt =====
-- src/steal_result.h and the result of a push in src/work_stealing_deque.h.
use lock_free_deque.Prelude.{Option, none, some}

-- `enum class StealState`
pub data StealState : Type 0 where
  success empty abort : StealState

-- `struct StealResult`
pub record StealResult (A : Type 0) : Type 0 where
  pub state : StealState
  pub value : Option A

module _ {A : Type 0} where
  -- The constructor from a state: it carries no value.
  abbrev pub of_state : StealState → StealResult A
  of_state state = record { state = state; value = none }

  -- The constructor from a value: the state is SUCCESS.
  abbrev pub of_value : A → StealResult A
  of_value value = record { state = StealState.success; value = some value }

-- `enum class PushResult`
pub data PushResult : Type 0 where
  success no_buffer_acquired : PushResult
