-- ===== src/Epics/Queue.antt =====
-- epics/anyvalue_update_command.cpp, epics/anyvalue_update_queue.cpp, epics/epics_server.cpp: updates are
-- queued by the callers and applied to the process variables by one thread.
pub mod Loop
pub mod Publish
use oac_tree_server.Base.{
  ℕ, zero, suc, Bool, true, false, List, [], ◌∷◌, ◌++◌, Option, none, some, Bytes, Result, ok,
  throws, codes, Exception, invalid_operation, ◌>>=◌, or_throw,
}

pub data CommandType : Type 0 where
  update exit : CommandType

module _ (V : Type 0) where
  -- An `AnyValueUpdateCommand`; an exit command has the empty name and the empty value.
  pub record Command : Type 0 where
    pub command_type : CommandType
    pub channel : Bytes
    pub value : V

  abbrev pub create_value_update : Bytes → V → Command
  create_value_update channel value = record {
    command_type = update;
    channel = channel;
    value = value;
  }

  abbrev pub create_exit_command : V → Command
  create_exit_command empty = record { command_type = exit; channel = []; value = empty }

  -- The queue is the list of its commands; the mutex makes each method one step.
  unfoldable pub push : List Command → Bytes → V → List Command
  push q channel value = q ++ create_value_update channel value ∷ []

  unfoldable pub push_exit : List Command → V → List Command
  push_exit q empty = q ++ create_exit_command empty ∷ []

  -- The predicate on which `WaitForNonEmpty` sleeps.
  unfoldable pub is_non_empty : List Command → Bool
  is_non_empty [] = false
  is_non_empty (c ∷ q) = true

  -- The commands, and the queue that is left.
  unfoldable pub pop_commands : List Command → List Command × List Command
  pop_commands q = (q, [])

  -- `ProcessCommandQueue` over the state that the function changes: whether an exit command was met, the
  -- rest of the queue, and the state.
  unfoldable pub process_command_queue {ℓ} :
      {S : Type ℓ} → (Bytes → V → S → S) → List Command → S → Bool × List Command × S
  process_command_queue func [] s = (false, [], s)
  process_command_queue func (c ∷ q) s = elim c.command_type [
    | exit ↦ (true, q, s)
    | update ↦ process_command_queue func q (func c.channel c.value s)
  ]
