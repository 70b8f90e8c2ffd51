-- ===== src/Input/Codec.antt =====
-- base/input_request_helper.cpp and base/input_reply_helper.cpp: requests and replies as `AnyValue`s. A
-- tuple whose first component is `false` is `none`.
pub mod RoundTrip
pub mod Total
use oac_tree_server.Base.{
  ℕ, Bool, true, false, not, List, [], ◌∷◌, Option, none, some, Result, ok, or_throw, ◌>>=◌,
  if◌then◌else◌, Bytes,
}
use oac_tree_server.External.Scalars.{of_bool, of_uint32, of_uint64, boolean, uint32, uint64}
use oac_tree_server.External.Dto.{Dto}
use oac_tree_server.External.Dto.Read.{read_bool, read_uint32, read_uint64}
use oac_tree_server.External.UserInput.{UserInputRequest, UserInputReply}
use oac_tree_server.External.Codec.{Codec}
use oac_tree_server.Protocol.Base64.{base64_encode, base64_decode}
use oac_tree_server.Protocol.Fields.{
  input_request_type, input_request_index_field, input_request_type_field,
  input_request_metadata_field, input_request_input_value_field, input_reply_index_field,
  input_reply_type_field, input_reply_result_field, input_reply_payload_field,
}

module _ (d : Dto) where
  open d use {AnyValue, empty_value, scalar, struct, has_field, field, validate_member_type}

  unfoldable pub input_request_any_value : AnyValue
  input_request_any_value = struct input_request_type (
      (input_request_index_field, scalar (of_uint64 0))
      ∷ (input_request_type_field, scalar (of_uint32 0))
      ∷ (input_request_metadata_field, empty_value)
      ∷ (input_request_input_value_field, empty_value)
      ∷ [])

  unfoldable pub request_members : ℕ → UserInputRequest d → List (Bytes × AnyValue)
  request_members id r =
      (input_request_index_field, scalar (of_uint64 id))
      ∷ (input_request_type_field, scalar (of_uint32 r.request_type))
      ∷ (input_request_metadata_field, r.meta_data)
      ∷ (input_request_input_value_field, r.input_value)
      ∷ []

  unfoldable pub encode_input_request : ℕ → UserInputRequest d → AnyValue
  unfolding request_members
  encode_input_request id r = struct [] (request_members id r)

  unfoldable pub validate_input_request : AnyValue → Bool
  validate_input_request v =
      if not (validate_member_type v input_request_index_field uint64)
      then false
      else if not (validate_member_type v input_request_type_field uint32)
      then false
      else if not (has_field v input_request_metadata_field)
      then false
      else if not (has_field v input_request_input_value_field)
      then false
      else true

  unfoldable pub read_input_request : AnyValue → Result (Option (ℕ × UserInputRequest d))
  read_input_request v = do
    i ← or_throw (read_uint64 d v input_request_index_field)
    t ← or_throw (read_uint32 d v input_request_type_field)
    m ← or_throw (field v input_request_metadata_field)
    w ← or_throw (field v input_request_input_value_field)
    ok (some (i, record { request_type = t; meta_data = m; input_value = w }))

  unfoldable pub decode_input_request : AnyValue → Result (Option (ℕ × UserInputRequest d))
  unfolding read_input_request
  decode_input_request v = if not (validate_input_request v) then ok none else read_input_request v

  unfoldable pub reply_members : ℕ → UserInputReply d → List (Bytes × AnyValue)
  reply_members id r =
      (input_reply_index_field, scalar (of_uint64 id))
      ∷ (input_reply_type_field, scalar (of_uint32 r.request_type))
      ∷ (input_reply_result_field, scalar (of_bool r.result))
      ∷ (input_reply_payload_field, r.payload)
      ∷ []

  -- The value that is then encoded.
  unfoldable pub reply_payload : ℕ → UserInputReply d → AnyValue
  unfolding reply_members
  reply_payload id r = struct [] (reply_members id r)

  unfoldable pub validate_input_reply : AnyValue → Bool
  validate_input_reply v =
      if not (validate_member_type v input_reply_index_field uint64)
      then false
      else if not (validate_member_type v input_reply_type_field uint32)
      then false
      else if not (validate_member_type v input_reply_result_field boolean)
      then false
      else if not (has_field v input_reply_payload_field)
      then false
      else true

  unfoldable pub read_input_reply : AnyValue → Result (Option (ℕ × UserInputReply d))
  read_input_reply v = do
    i ← or_throw (read_uint64 d v input_reply_index_field)
    t ← or_throw (read_uint32 d v input_reply_type_field)
    b ← or_throw (read_bool d v input_reply_result_field)
    p ← or_throw (field v input_reply_payload_field)
    ok (some (i, record { request_type = t; result = b; payload = p }))

  unfoldable pub decode_reply_payload : AnyValue → Result (Option (ℕ × UserInputReply d))
  unfolding read_input_reply
  decode_reply_payload v = if not (validate_input_reply v) then ok none else read_input_reply v

module _ (d : Dto) (c : Codec d) where
  open d use {AnyValue}

  unfoldable pub encode_input_reply : ℕ → UserInputReply d → Result AnyValue
  unfolding reply_payload
  encode_input_reply id r = base64_encode d c (reply_payload d id r)

  unfoldable pub decode_input_reply : AnyValue → Result (Option (ℕ × UserInputReply d))
  unfolding decode_reply_payload
  decode_input_reply encoded = elim (base64_decode d c encoded) [
    | none ↦ ok none
    | some payload ↦ decode_reply_payload d payload
  ]
