-- ===== src/Protocol/Values/RoundTrip.antt =====
-- base/oac_tree_protocol.cpp: what the functions on values encode is what they decode.
use oac_tree_server.Base.{ℕ, ◌≡◌, refl, Bool, true, [], ◌∷◌, some, ok, arith, bytes_eq}
use oac_tree_server.External.Scalars.{of_bool, of_uint32, valid_members, FitsUint32, uint32}
use oac_tree_server.External.Dto.{Dto, DtoLaws}
use oac_tree_server.External.Dto.Members.{
  validate-at, has_field-at, field-at, read_bool-at, set_scalar-at,
}
use oac_tree_server.External.OacTree.{OacTree}
use oac_tree_server.Protocol.Fields.{
  variable_value_field, variable_connected_field, job_state_type, job_state_field,
}
use oac_tree_server.Protocol.Values.{
  job_state_any_value, job_state_value, breakpoint_members, breakpoint_instruction_value,
  decode_breakpoint_instruction_index, variable_members, encode_variable_state, validate_variable,
  read_variable_state, decode_variable_state,
}

module _ (d : Dto) (laws : DtoLaws d) where
  open d use {AnyValue, scalar, struct, index_field}

  pub job_state_valid :
      (n : ℕ) → valid_members ((job_state_field, scalar (of_uint32 n)) ∷ []) ≡ true
  unfolding valid_members
  job_state_valid n = refl

  pub job_state_value_lem :
      (o : OacTree d) (n : ℕ)
      → job_state_value d o n
        ≡ ok (struct job_state_type ((job_state_field, scalar (of_uint32 n)) ∷ []))
  unfolding job_state_value job_state_any_value
  job_state_value_lem o n =
      rw
        (set_scalar-at d laws _ _ (job_state_valid o.initial_state) 0 _ (of_uint32 o.initial_state)
          (of_uint32 n) refl refl)
        refl

  breakpoint_members-valid : (n : ℕ) → valid_members (breakpoint_members d n) ≡ true
  unfolding breakpoint_members valid_members
  breakpoint_members-valid n = ground (arith, laws.index_field_plain)

  pub decode-breakpoint_value :
      (n : ℕ)
      → FitsUint32 n
      → decode_breakpoint_instruction_index d (breakpoint_instruction_value d n) ≡ ok (some n)
  unfolding decode_breakpoint_instruction_index breakpoint_instruction_value breakpoint_members
  decode-breakpoint_value n h =
      let v = breakpoint_members-valid n in
      rw (
        has_field-at d laws [] _ v 0 index_field (scalar (of_uint32 n)) refl,
        field-at d laws [] _ v 0 index_field (scalar (of_uint32 n)) refl,
        laws.has_type-scalar (of_uint32 n) uint32,
        laws.as_uint32-scalar n h,
      )

  variable_members-valid : (v : AnyValue) (b : Bool) → valid_members (variable_members d v b) ≡ true
  unfolding variable_members valid_members bytes_eq
  variable_members-valid v b = refl

  pub decode-variable_state :
      (v : AnyValue) (b : Bool) → decode_variable_state d (encode_variable_state d v b) ≡ ok (v, b)
  unfolding decode_variable_state encode_variable_state validate_variable read_variable_state
      variable_members
  decode-variable_state v b =
      let h = variable_members-valid v b in
      rw (
        has_field-at d laws [] _ h 0 variable_value_field v refl,
        validate-at d laws [] _ h 1 variable_connected_field (of_bool b) refl,
        field-at d laws [] _ h 0 variable_value_field v refl,
        read_bool-at d laws [] _ h 1 variable_connected_field b refl,
      )
