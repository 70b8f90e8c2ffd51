-- ===== src/External/OacTree.antt =====
-- What the program uses of the oac-tree core beside `ValidateMemberType`: instruction and job states, and
-- the functions on user input. A pair whose first component is `false` is `none`, as is an exception of
-- `to_instruction_state`.
use oac_tree_server.Base.{ℕ, ◌≡◌, Bool, true, List, Option, some, Bytes, if◌then◌else◌, none}
use oac_tree_server.External.Scalars.{ℤ}
use oac_tree_server.External.Dto.{Dto}
use oac_tree_server.External.UserInput.{UserInput, UserInputRequest, UserInputReply}

module _ (d : Dto) where
  pub record OacTree : Type 1 where
    pub InstructionState : Type 0
    -- `JobState::kInitial`; a `JobState` is its underlying 32-bit number.
    pub initial_state : ℕ
    -- `kInvalidInstructionIndex`.
    pub invalid_instruction_index : ℕ
    -- `Constants::kInstructionStateAnyValue`, `ToAnyValue` and `ToInstructionState`.
    pub instruction_state_any_value : d.AnyValue
    pub to_any_value : InstructionState → d.AnyValue
    pub to_instruction_state : d.AnyValue → Option InstructionState
    -- `sup::dto::TryAssign`.
    pub try_assign : d.AnyValue → d.AnyValue → Option d.AnyValue
    pub create_user_value_request : d.AnyValue → Bytes → UserInputRequest d
    pub parse_user_value_request : UserInputRequest d → Option (d.AnyValue × Bytes)
    pub create_user_value_reply : Bool → d.AnyValue → UserInputReply d
    pub parse_user_value_reply : UserInputReply d → Option d.AnyValue
    pub create_user_choice_request : List Bytes → d.AnyValue → UserInputRequest d
    pub parse_user_choice_request : UserInputRequest d → Option (List Bytes × d.AnyValue)
    pub create_user_choice_reply : Bool → ℤ → UserInputReply d
    pub parse_user_choice_reply : UserInputReply d → Option ℤ

  -- The documented behaviour that the program relies on: what is created is parsed, and a reply whose
  -- result is `false` carries no value.
  pub record OacTreeLaws (u : UserInput d) (o : OacTree) : Type 0 where
    pub to_instruction_state-to_any_value :
        (s : o.InstructionState) → o.to_instruction_state (o.to_any_value s) ≡ some s
    pub value_request-type :
        (v : d.AnyValue) (s : Bytes)
        → (o.create_user_value_request v s).request_type ≡ u.user_value_type
    pub parse-value_request :
        (v : d.AnyValue) (s : Bytes)
        → o.parse_user_value_request (o.create_user_value_request v s) ≡ some (v, s)
    pub parse-value_reply :
        (b : Bool) (v : d.AnyValue)
        → o.parse_user_value_reply (o.create_user_value_reply b v) ≡ (if b then some v else none)
    pub choice_request-type :
        (cs : List Bytes) (v : d.AnyValue)
        → (o.create_user_choice_request cs v).request_type ≡ u.user_choice_type
    pub parse-choice_request :
        (cs : List Bytes) (v : d.AnyValue)
        → o.parse_user_choice_request (o.create_user_choice_request cs v) ≡ some (cs, v)
    pub parse-choice_reply :
        (z : ℤ) → o.parse_user_choice_reply (o.create_user_choice_reply true z) ≡ some z
