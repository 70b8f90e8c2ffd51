-- ===== src/External/UserInput.antt =====
-- The user input types of the oac-tree core: `UserInputRequest`, `UserInputReply`, `InputRequestType`.
use oac_tree_server.Base.{ℕ, ◌≡◌, ◌≢◌, Bool}
use oac_tree_server.External.Dto.{Dto}

-- An `InputRequestType` is its underlying 32-bit number.
module _ (d : Dto) where
  pub record UserInputRequest : Type 0 where
    pub request_type : ℕ
    pub meta_data : d.AnyValue
    pub input_value : d.AnyValue

  pub record UserInputReply : Type 0 where
    pub request_type : ℕ
    pub result : Bool
    pub payload : d.AnyValue

  -- The constants `kInvalid`, `kUserValue`, `kUserChoice`, `kInvalidUserInputRequest` and
  -- `kInvalidUserInputReply`.
  pub record UserInput : Type 0 where
    pub invalid_type : ℕ
    pub user_value_type : ℕ
    pub user_choice_type : ℕ
    pub invalid_request : UserInputRequest
    pub invalid_reply : UserInputReply

  pub record UserInputLaws (u : UserInput) : Type 0 where
    pub invalid_request-type : u.invalid_request.request_type ≡ u.invalid_type
    pub invalid_reply-type : u.invalid_reply.request_type ≡ u.invalid_type
    pub user_value-ne-invalid : u.user_value_type ≢ u.invalid_type
    pub user_choice-ne-invalid : u.user_choice_type ≢ u.invalid_type
    pub user_value-ne-user_choice : u.user_value_type ≢ u.user_choice_type
