-- ===== src/Input/Codec/Total.antt =====
-- base/input_request_helper.cpp and base/input_reply_helper.cpp: the decoders on values that no encoder made.
use oac_tree_server.Base.{
  ℕ, ◌≡◌, inl, inr, refl, sym, ap, ◌∙◌, subst, Option, none, some, ok, arith, Bool-cases,
}
use oac_tree_server.External.Scalars.{of_bool, of_uint32, of_uint64, is_some, some_of_is_some}
use oac_tree_server.External.Dto.{Dto, DtoLaws}
use oac_tree_server.External.Dto.Validated.{
  validated-uint64, validated-uint32, validated-boolean, validate_of_field,
}
use oac_tree_server.External.UserInput.{UserInputRequest, UserInputReply}
use oac_tree_server.External.Codec.{Codec}
use oac_tree_server.Protocol.Base64.{base64_decode}
use oac_tree_server.Protocol.Fields.{
  input_request_index_field, input_request_type_field, input_request_metadata_field,
  input_request_input_value_field, input_reply_index_field, input_reply_type_field,
  input_reply_result_field, input_reply_payload_field,
}
use oac_tree_server.Output.Total.{Finds}
use oac_tree_server.Input.Codec.{
  decode_input_request, validate_input_request, read_input_request, decode_reply_payload,
  validate_input_reply, read_input_reply, decode_input_reply,
}

module _ (d : Dto) where
  open d use {AnyValue, scalar, field}

  -- The value has the members of the request, with its contents.
  pub record HoldsRequest (v : AnyValue) (q : ℕ × UserInputRequest d) : Type 0 where
    pub index : field v input_request_index_field ≡ some (scalar (of_uint64 q.0))
    pub request_type : field v input_request_type_field ≡ some (scalar (of_uint32 q.1.request_type))
    pub meta_data : field v input_request_metadata_field ≡ some q.1.meta_data
    pub input_value : field v input_request_input_value_field ≡ some q.1.input_value

  pub record HoldsReply (v : AnyValue) (q : ℕ × UserInputReply d) : Type 0 where
    pub index : field v input_reply_index_field ≡ some (scalar (of_uint64 q.0))
    pub reply_type : field v input_reply_type_field ≡ some (scalar (of_uint32 q.1.request_type))
    pub result : field v input_reply_result_field ≡ some (scalar (of_bool q.1.result))
    pub payload : field v input_reply_payload_field ≡ some q.1.payload

  -- Base64 decoding gives a value that has these members.
  pub EncodesReply : Codec d → AnyValue → ℕ × UserInputReply d → Type 0
  EncodesReply c v q = (w : AnyValue) × (base64_decode d c v ≡ some w) × HoldsReply w q

module _ (d : Dto) (laws : DtoLaws d) (v : d.AnyValue) where
  open d use {has_field, field}

  decode_request-Finds : Finds (decode_input_request d v) (HoldsRequest d v)
  unfolding decode_input_request validate_input_request read_input_request
  decode_request-Finds = elim (Bool-cases (validate_input_request d v)) [
    | inr e ↦ inl (
      rw e,
      λ a h.
          let p = validate_of_field d laws v input_request_index_field _ h.index in
          let q = validate_of_field d laws v input_request_type_field _ h.request_type in
          let r = laws.has_field_iff v input_request_metadata_field ∙ ap is_some h.meta_data in
          let s = laws.has_field_iff v input_request_input_value_field ∙ ap is_some h.input_value in
          ground arith,
    )
    | inl e ↦
        let (i, fi, hi, _) = validated-uint64 d laws v input_request_index_field (ground arith) in
        let (t, ft, ht, _) = validated-uint32 d laws v input_request_type_field (ground arith) in
        let (m, fm) =
          some_of_is_some (field v input_request_metadata_field)
            (sym (laws.has_field_iff v input_request_metadata_field) ∙ ground arith) in
        let (w, fw) =
          some_of_is_some (field v input_request_input_value_field)
            (sym (laws.has_field_iff v input_request_input_value_field) ∙ ground arith) in
        inr (
          (i, record { request_type = t; meta_data = m; input_value = w }),
          rw (e, hi, ht, fm, fw),
          record { index = fi; request_type = ft; meta_data = fm; input_value = fw },
        )
  ]

  reply_payload-Finds : Finds (decode_reply_payload d v) (HoldsReply d v)
  unfolding decode_reply_payload validate_input_reply read_input_reply
  reply_payload-Finds = elim (Bool-cases (validate_input_reply d v)) [
    | inr e ↦ inl (
      rw e,
      λ a h.
          let p = validate_of_field d laws v input_reply_index_field _ h.index in
          let q = validate_of_field d laws v input_reply_type_field _ h.reply_type in
          let r = validate_of_field d laws v input_reply_result_field _ h.result in
          let s = laws.has_field_iff v input_reply_payload_field ∙ ap is_some h.payload in
          ground arith,
    )
    | inl e ↦
        let (i, fi, hi, _) = validated-uint64 d laws v input_reply_index_field (ground arith) in
        let (t, ft, ht, _) = validated-uint32 d laws v input_reply_type_field (ground arith) in
        let (b, fb, hb) = validated-boolean d laws v input_reply_result_field (ground arith) in
        let (w, fw) =
          some_of_is_some (field v input_reply_payload_field)
            (sym (laws.has_field_iff v input_reply_payload_field) ∙ ground arith) in
        inr (
          (i, record { request_type = t; result = b; payload = w }),
          rw (e, hi, ht, hb, fw),
          record { index = fi; reply_type = ft; result = fb; payload = fw },
        )
  ]

module _ (d : Dto) (laws : DtoLaws d) (c : Codec d) where
  -- For every value, both decoders return without an exception: the request or reply whose contents the
  -- members of the value, for a reply of the value that base64 decoding gives, are, where there is one, and nothing where there is none.
  pub decode_input-Finds :
      (v : d.AnyValue)
      → Finds (decode_input_request d v) (HoldsRequest d v)
        × Finds (decode_input_reply d c v) (EncodesReply d c v)
  unfolding decode_input_reply EncodesReply
  decode_input-Finds v = (decode_request-Finds d laws v, by_codec (base64_decode d c v) refl)
    where
      by_payload :
          (w : d.AnyValue)
          → base64_decode d c v ≡ some w
          → Finds (decode_reply_payload d w) (HoldsReply d w)
          → Finds (decode_reply_payload d w) (EncodesReply d c v)
      by_payload w e (inl (n, h)) =
          inl (n, λ q (u, f, k). h q (subst (λ o. Holds q o) (sym f ∙ e) k))
        where
          Holds : ℕ × UserInputReply d → Option d.AnyValue → Type 0
          Holds q none = Unit
          Holds q (some x) = HoldsReply d x q
      by_payload w e (inr (q, n, h)) = inr (q, n, (w, e, h))

      by_codec :
          (o : Option d.AnyValue)
          → base64_decode d c v ≡ o
          → Finds
              (elim o [ none ↦ ok none | some payload ↦ decode_reply_payload d payload ])
              (EncodesReply d c v)
      by_codec none e = inl (refl, λ q (w, f, h). cc)
      by_codec (some w) e = by_payload w e (reply_payload-Finds d laws w)
