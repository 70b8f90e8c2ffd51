-- ===== src/External/Rpc.antt =====
-- The remote calls of sup-protocol, and the jobs of the oac-tree core. Results of the protocol are their
-- numbers; `none` stands for a call that returns `false` or throws.
use oac_tree_server.Base.{
  ℕ, ◌≡◌, Bool, true, false, List, [], ◌∷◌, Option, some, Bytes, ◌⊎◌, inl, lookup, All, get_elem?,
  ◌<◌, ◌≤◌,
}
use oac_tree_server.External.Scalars.{of_bool, of_string, valid_members}
use oac_tree_server.External.Dto.{Dto}
use oac_tree_server.Protocol.Fields.{
  job_index_field, instruction_index_field, breakpoint_active_field, job_command_field,
  user_reply_value_field,
}

module _ (d : Dto) where
  open d use {AnyValue, scalar, empty_value}

  pub record Rpc : Type 1 where
    -- `FunctionProtocolInput` and `FunctionProtocolPack`.
    pub function_input : Bytes → AnyValue
    pub pack : AnyValue → Bytes → AnyValue → AnyValue
    -- `FunctionProtocolExtract` of a value, a `bool` and a `std::string`.
    pub extract : AnyValue → Bytes → Option AnyValue
    pub extract_bool : AnyValue → Bytes → Option Bool
    pub extract_string : AnyValue → Bytes → Option Bytes
    -- What `CallFunctionProtocol` does with a map of these names: it calls one, or returns a result.
    pub called_function : AnyValue → List Bytes → ℕ → Bytes ⊎ ℕ
    -- `IsApplicationProtocolRequestPayload`, and `HandleApplicationProtocolInfo` with its output.
    pub is_application_protocol_request_payload : AnyValue → Bool
    pub handle_application_protocol_info : AnyValue → Bytes → Bytes → ℕ × AnyValue
    -- `TryAssignIfEmptyOrConvert`.
    pub try_assign_if_empty_or_convert : AnyValue → AnyValue → Option AnyValue
    -- `Success`, `ServerProtocolDecodingError`, `ServerProtocolEncodingError`, and the first application errors.
    pub success : ℕ
    pub decoding_error : ℕ
    pub encoding_error : ℕ
    pub generic_application_error_start : ℕ
    pub specific_application_error_start : ℕ
    pub protocol_result_to_string : ℕ → Bytes
    -- `JobInfo`, `GetNumberOfInstructions`, `ToAnyValue` and `ToJobInfo`.
    pub JobInfo : Type 0
    pub number_of_instructions : JobInfo → ℕ
    pub job_info_to_any_value : JobInfo → AnyValue
    pub to_job_info : AnyValue → Option JobInfo
    -- `JobCommand::kTerminate`; a `JobCommand` is its underlying 32-bit number.
    pub terminate : ℕ

  -- A value with members packed one after the other.
  abbrev pub packed : Rpc → AnyValue → List (Bytes × AnyValue) → AnyValue
  packed r v [] = v
  packed r v ((k, w) ∷ ms) = packed r (r.pack v k w) ms

  -- The documented behaviour that the program relies on: a function's input names the function, and gives
  -- back what was packed into it, under names that differ.
  pub record RpcLaws (r : Rpc) : Type 0 where
    -- The member names that a function's input keeps for itself; none of them is a field of the program.
    pub reserved : Bytes → Bool
    pub reserved-fields :
        All
          (λ k. reserved k ≡ false)
          (job_index_field ∷ instruction_index_field ∷ breakpoint_active_field ∷ job_command_field
            ∷ user_reply_value_field ∷ [])
    pub called-input :
        (f : Bytes) (ms : List (Bytes × AnyValue)) (names : List Bytes) (i failure : ℕ)
        → valid_members ms ≡ true
        → All (λ m. reserved m.0 ≡ false) ms
        → get_elem? names i ≡ some f
        → r.called_function (packed r (r.function_input f) ms) names failure ≡ inl f
    pub extract-input :
        (f : Bytes) (ms : List (Bytes × AnyValue)) (k : Bytes) (v : AnyValue)
        → valid_members ms ≡ true
        → All (λ m. reserved m.0 ≡ false) ms
        → lookup k ms ≡ some v
        → r.extract (packed r (r.function_input f) ms) k ≡ some v
    pub extract-output : (k : Bytes) (v : AnyValue) → r.extract (r.pack empty_value k v) k ≡ some v
    pub extract_bool_lem :
        (v : AnyValue) (k : Bytes) (b : Bool)
        → r.extract v k ≡ some (scalar (of_bool b))
        → r.extract_bool v k ≡ some b
    pub extract_string_lem :
        (v : AnyValue) (k s : Bytes)
        → r.extract v k ≡ some (scalar (of_string s))
        → r.extract_string v k ≡ some s
    pub try_assign-empty : (v : AnyValue) → r.try_assign_if_empty_or_convert empty_value v ≡ some v
    pub to_job_info-job_info_to_any_value :
        (i : r.JobInfo) → r.to_job_info (r.job_info_to_any_value i) ≡ some i
    pub success-lt : r.success < r.generic_application_error_start
    pub generic-le : r.generic_application_error_start ≤ r.specific_application_error_start
