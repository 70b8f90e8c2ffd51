-- ===== src/JobInfo.antt =====
-- The reports of a job: i_anyvalue_manager.h and i_anyvalue_io.h as an interface, and the methods of
-- `IJobInfoIO` of the oac-tree core that are called on the client's side.
pub mod ValueSets
pub mod ClientManager
pub mod ServerIo
pub mod Reports
pub mod Forward
pub mod Ask
pub mod Names
pub mod Session
pub mod InitialNames
pub mod JobValues
pub mod RequestName
pub mod Registrations
pub mod Updates
pub mod Callbacks
pub mod Registers
use oac_tree_server.Base.{ℕ, Bool, List, Bytes, Result}
use oac_tree_server.External.Scalars.{ℤ}
use oac_tree_server.External.Dto.{Dto}
use oac_tree_server.External.UserInput.{UserInputRequest, UserInputReply}
use oac_tree_server.External.OacTree.{OacTree}

module _ (d : Dto) where
  open d use {AnyValue}

  -- `IAnyValueIO` over the state `M`.
  pub record AnyValueIo (M : Type 0) : Type 0 where
    pub add_any_values : M → List (Bytes × AnyValue) → Result (M × Bool)
    pub add_input_handler : M → Bytes → Result (M × Bool)

  -- `IAnyValueManager` over the state `M`; an exception ends the run of the model.
  pub record AnyValueManager (M : Type 0) : Type 0 where
    pub add_any_values : M → List (Bytes × AnyValue) → Result (M × Bool)
    pub add_input_handler : M → Bytes → Result (M × Bool)
    pub update_any_value : M → Bytes → AnyValue → Result (M × Bool)
    pub get_user_input : M → Bytes → ℕ → UserInputRequest d → Result (M × UserInputReply d)
    pub interrupt : M → Bytes → ℕ → Result M

  -- `IAnyValueManager` extends `IAnyValueIO`.
  abbrev pub as_io : {M : Type 0} → AnyValueManager M → AnyValueIo M
  as_io m = record { add_any_values = m.add_any_values; add_input_handler = m.add_input_handler }

  -- The calls of `IJobInfoIO` that return nothing.
  pub data JobInfoCall (o : OacTree d) : Type 0 where
    init_number_of_instructions : ℕ → JobInfoCall o
    instruction_state_updated : ℕ → o.InstructionState → JobInfoCall o
    breakpoint_instruction_updated : ℕ → JobInfoCall o
    variable_updated : ℕ → AnyValue → Bool → JobInfoCall o
    job_state_updated : ℕ → JobInfoCall o
    put_value : AnyValue → Bytes → JobInfoCall o
    interrupt : ℕ → JobInfoCall o
    message : Bytes → JobInfoCall o
    log : ℤ → Bytes → JobInfoCall o

  -- What an `IJobInfoIO` answers to the calls that return something: whether there is a value, the value
  -- behind the call, and the choice.
  pub record UserAnswers : Type 0 where
    pub get_user_value : ℕ → AnyValue → Bytes → Bool × AnyValue
    pub get_user_choice : ℕ → List Bytes → AnyValue → ℤ
