-- ===== src/Input/Codec/RoundTrip.antt =====
-- base/input_request_helper.cpp and base/input_reply_helper.cpp: what is encoded is decoded.
use oac_tree_server.Base.{
  ℕ, ◌≡◌, refl, true, [], Option, none, some, Result, ok, ◌>>=◌, bytes_eq, arith,
}
use oac_tree_server.External.Scalars.{
  of_bool, of_uint32, of_uint64, valid_members, FitsUint32, FitsUint64,
}
use oac_tree_server.External.Dto.{Dto, DtoLaws}
use oac_tree_server.External.Dto.Members.{
  validate-at, has_field-at, field-at, read_uint64-at, read_uint32-at, read_bool-at,
}
use oac_tree_server.External.UserInput.{UserInputRequest, UserInputReply}
use oac_tree_server.External.Codec.{Codec, CodecLaws}
use oac_tree_server.Protocol.Base64.{base64_encode, base64_decode, encoded_or_throw}
use oac_tree_server.Protocol.Fields.{
  input_request_index_field, input_request_type_field, input_request_metadata_field,
  input_request_input_value_field, input_reply_index_field, input_reply_type_field,
  input_reply_result_field, input_reply_payload_field,
}
use oac_tree_server.Input.Codec.{
  input_request_any_value, request_members, encode_input_request, decode_input_request,
  validate_input_request, read_input_request, reply_members, reply_payload, decode_reply_payload,
  validate_input_reply, read_input_reply, encode_input_reply, decode_input_reply,
}

module _ (d : Dto) (laws : DtoLaws d) where
  request_members-valid :
      (id : ℕ) (r : UserInputRequest d) → valid_members (request_members d id r) ≡ true
  unfolding request_members valid_members bytes_eq
  request_members-valid id r = refl

  pub decode-encode_request :
      (id : ℕ) (r : UserInputRequest d)
      → FitsUint64 id
      → FitsUint32 r.request_type
      → decode_input_request d (encode_input_request d id r) ≡ ok (some (id, r))
  unfolding decode_input_request encode_input_request validate_input_request read_input_request
      request_members
  decode-encode_request id r hi ht =
      let v = request_members-valid id r in
      rw (
        validate-at d laws [] _ v 0 input_request_index_field (of_uint64 id) refl,
        validate-at d laws [] _ v 1 input_request_type_field (of_uint32 r.request_type) refl,
        has_field-at d laws [] _ v 2 input_request_metadata_field r.meta_data refl,
        has_field-at d laws [] _ v 3 input_request_input_value_field r.input_value refl,
        read_uint64-at d laws [] _ v 0 input_request_index_field id refl hi,
        read_uint32-at d laws [] _ v 1 input_request_type_field r.request_type refl ht,
        field-at d laws [] _ v 2 input_request_metadata_field r.meta_data refl,
        field-at d laws [] _ v 3 input_request_input_value_field r.input_value refl,
      )

  -- The value between two requests is decoded as a request of type 0.
  pub decode_input_request_any_value :
      (q : ℕ × UserInputRequest d) × (decode_input_request d (input_request_any_value d)
        ≡ ok (some q))
      × (q.1.request_type ≡ 0)
  unfolding decode_input_request input_request_any_value validate_input_request read_input_request
      encode_input_request request_members
  decode_input_request_any_value =
      let q : UserInputRequest d = record {
        request_type = 0;
        meta_data = d.empty_value;
        input_value = d.empty_value;
      } in
      let v = request_members-valid 0 q in
      (
        (0, q),
        rw (
          validate-at d laws _ _ v 0 input_request_index_field (of_uint64 0) refl,
          validate-at d laws _ _ v 1 input_request_type_field (of_uint32 0) refl,
          has_field-at d laws _ _ v 2 input_request_metadata_field d.empty_value refl,
          has_field-at d laws _ _ v 3 input_request_input_value_field d.empty_value refl,
          read_uint64-at d laws _ _ v 0 input_request_index_field 0 refl (omega arith),
          read_uint32-at d laws _ _ v 1 input_request_type_field 0 refl (omega arith),
          field-at d laws _ _ v 2 input_request_metadata_field d.empty_value refl,
          field-at d laws _ _ v 3 input_request_input_value_field d.empty_value refl,
        ),
        refl,
      )

  reply_members-valid :
      (id : ℕ) (r : UserInputReply d) → valid_members (reply_members d id r) ≡ true
  unfolding reply_members valid_members bytes_eq
  reply_members-valid id r = refl

  pub decode-reply_payload :
      (id : ℕ) (r : UserInputReply d)
      → FitsUint64 id
      → FitsUint32 r.request_type
      → decode_reply_payload d (reply_payload d id r) ≡ ok (some (id, r))
  unfolding decode_reply_payload reply_payload validate_input_reply read_input_reply reply_members
  decode-reply_payload id r hi ht =
      let v = reply_members-valid id r in
      rw (
        validate-at d laws [] _ v 0 input_reply_index_field (of_uint64 id) refl,
        validate-at d laws [] _ v 1 input_reply_type_field (of_uint32 r.request_type) refl,
        validate-at d laws [] _ v 2 input_reply_result_field (of_bool r.result) refl,
        has_field-at d laws [] _ v 3 input_reply_payload_field r.payload refl,
        read_uint64-at d laws [] _ v 0 input_reply_index_field id refl hi,
        read_uint32-at d laws [] _ v 1 input_reply_type_field r.request_type refl ht,
        read_bool-at d laws [] _ v 2 input_reply_result_field r.result refl,
        field-at d laws [] _ v 3 input_reply_payload_field r.payload refl,
      )

  module _ (c : Codec d) (codec_laws : CodecLaws d c) where
    -- What a reply becomes on its way through both functions: an exception of the encoder, or itself.
    pub transported :
        ℕ → UserInputReply d → Option d.AnyValue → Result (Option (ℕ × UserInputReply d))
    transported id r none = encoded_or_throw d c none >>= λ w. ok none
    transported id r (some w) = ok (some (id, r))

    -- Requests whose numbers fit their machine types are decoded from their encodings; so are such replies, if the
    -- base64 codec encodes the payload, and if it does not, the encoder throws.
    pub decode-encode_input :
        (id : ℕ) (q : UserInputRequest d) (r : UserInputReply d)
        → FitsUint64 id
        → FitsUint32 q.request_type
        → FitsUint32 r.request_type
        → (decode_input_request d (encode_input_request d id q) ≡ ok (some (id, q)))
          × ((encode_input_reply d c id r >>= decode_input_reply d c)
              ≡ transported id r (c.encode (reply_payload d id r)))
    unfolding encode_input_reply decode_input_reply base64_encode base64_decode transported
    decode-encode_input id q r hi hq hr =
        (decode-encode_request id q hi hq, by_codec (c.encode (reply_payload d id r)) refl)
      where
        by_codec :
            (o : Option d.AnyValue)
            → c.encode (reply_payload d id r) ≡ o
            → (encoded_or_throw d c o >>= decode_input_reply d c) ≡ transported id r o
        by_codec none e = refl
        by_codec (some w) e =
            rw (decode_input_reply, base64_decode, codec_laws.decode-encode _ w e)
              (decode-reply_payload id r hi hr)
