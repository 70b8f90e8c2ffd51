-- ===== src/Protocol/Values.antt =====
-- base/oac_tree_protocol.cpp: the values of variables, of the job's state and of the breakpoint.
pub mod RoundTrip
use oac_tree_server.Base.{
  ℕ, Bool, true, false, not, List, [], ◌∷◌, Option, none, some, Result, ok, or_throw, ◌>>=◌,
  if◌then◌else◌, Bytes,
}
use oac_tree_server.External.Scalars.{of_bool, of_uint32, boolean, uint32}
use oac_tree_server.External.Dto.{Dto}
use oac_tree_server.External.Dto.Read.{read_bool, read_uint32}
use oac_tree_server.External.OacTree.{OacTree}
use oac_tree_server.Protocol.Fields.{
  variable_type, variable_value_field, variable_connected_field, job_state_type, job_state_field,
}

module _ (d : Dto) where
  open d use {
    AnyValue, empty_value, scalar, struct, has_field, has_type, field, set_field,
    validate_member_type, index_field,
  }

  unfoldable pub variable_any_value : AnyValue
  variable_any_value = struct variable_type (
      (variable_value_field, empty_value) ∷ (variable_connected_field, scalar (of_bool false)) ∷ [])

  module _ (o : OacTree d) where
    unfoldable pub job_state_any_value : AnyValue
    job_state_any_value =
        struct job_state_type ((job_state_field, scalar (of_uint32 o.initial_state)) ∷ [])

    unfoldable pub job_state_value : ℕ → Result AnyValue
    unfolding job_state_any_value
    job_state_value state =
        or_throw (set_field job_state_any_value job_state_field (scalar (of_uint32 state)))

  unfoldable pub breakpoint_members : ℕ → List (Bytes × AnyValue)
  breakpoint_members instr_idx = (index_field, scalar (of_uint32 instr_idx)) ∷ []

  unfoldable pub breakpoint_instruction_value : ℕ → AnyValue
  unfolding breakpoint_members
  breakpoint_instruction_value instr_idx = struct [] (breakpoint_members instr_idx)

  abbrev pub check_breakpoint_index : AnyValue → Result (Option ℕ)
  check_breakpoint_index index_av =
      if not (has_type index_av uint32)
      then ok none
      else (or_throw (d.as_uint32 index_av) >>= λ n. ok (some n))

  unfoldable pub decode_breakpoint_instruction_index : AnyValue → Result (Option ℕ)
  decode_breakpoint_instruction_index v =
      if not (has_field v index_field)
      then ok none
      else (or_throw (field v index_field) >>= check_breakpoint_index)

  unfoldable pub variable_members : AnyValue → Bool → List (Bytes × AnyValue)
  variable_members value connected =
      (variable_value_field, value) ∷ (variable_connected_field, scalar (of_bool connected)) ∷ []

  unfoldable pub encode_variable_state : AnyValue → Bool → AnyValue
  unfolding variable_members
  encode_variable_state value connected = struct [] (variable_members value connected)

  unfoldable pub validate_variable : AnyValue → Bool
  validate_variable v =
      if not (has_field v variable_value_field)
      then false
      else if not (validate_member_type v variable_connected_field boolean)
      then false
      else true

  unfoldable pub read_variable_state : AnyValue → Result (AnyValue × Bool)
  read_variable_state v = do
    value ← or_throw (field v variable_value_field)
    connected ← or_throw (read_bool d v variable_connected_field)
    ok (value, connected)

  unfoldable pub decode_variable_state : AnyValue → Result (AnyValue × Bool)
  unfolding read_variable_state
  decode_variable_state v =
      if validate_variable v then read_variable_state v else ok (empty_value, false)
