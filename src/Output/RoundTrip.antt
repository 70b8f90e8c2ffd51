-- ===== src/Output/RoundTrip.antt =====
-- base/output_entry_helper.cpp: every entry in range is decoded from its encoding.
use oac_tree_server.Base.{
  ℕ, ◌≡◌, refl, true, [], ◌∷◌, List, some, Bytes, bytes_eq, bytes_ne, ok, ◌>>=◌, arith,
}
use oac_tree_server.External.Scalars.{
  ℤ, pos, of_int32, of_uint64, of_string, valid_members, FitsUint64, FitsInt32,
}
use oac_tree_server.External.Dto.{Dto, DtoLaws}
use oac_tree_server.External.Dto.Members.{
  set_scalar-at, set_field-at, validate-at, has_field-at, field-at, read_uint64-at, read_int32-at,
  read_string-at,
}
use oac_tree_server.Protocol.Fields.{
  log_entry_type, severity_field, message_field, message_entry_type, output_value_entry_type,
  description_field, value_field,
}
use oac_tree_server.Output.{LogEntry, MessageEntry, OutputValueEntry}
use oac_tree_server.Output.Codec.{
  encode_log_entry, decode_log_entry, validate_log_entry, encode_message_entry,
  decode_message_entry, validate_message_entry, encode_output_value_entry,
  decode_output_value_entry, validate_output_value_entry,
}

module _ (d : Dto) (laws : DtoLaws d) where
  open d use {AnyValue, empty_value, scalar, struct, index_field}

  log_members : ℕ → ℤ → Bytes → List (Bytes × AnyValue)
  log_members i z m =
      (index_field, scalar (of_uint64 i))
      ∷ (severity_field, scalar (of_int32 z))
      ∷ (message_field, scalar (of_string m))
      ∷ []

  log_members-valid : (i : ℕ) (z : ℤ) (m : Bytes) → valid_members (log_members i z m) ≡ true
  unfolding log_members valid_members bytes_eq
  log_members-valid i z m = ground (
    arith,
    laws.index_field_plain,
    bytes_ne severity_field index_field laws.index_field_fresh.0,
    bytes_ne message_field index_field laws.index_field_fresh.1,
  )

  encode_log_entry_lem :
      (e : LogEntry)
      → encode_log_entry d e ≡ ok (struct log_entry_type (log_members e.index e.severity e.message))
  unfolding encode_log_entry log_members
  encode_log_entry_lem e = rw (
    set_scalar-at d laws _ _ (log_members-valid 0 (pos 0) []) 0 _ (of_uint64 0) (of_uint64 e.index)
        refl refl,
    set_scalar-at d laws _ _ (log_members-valid e.index (pos 0) []) 1 _ (of_int32 (pos 0))
        (of_int32 e.severity) refl refl,
    set_scalar-at d laws _ _ (log_members-valid e.index e.severity []) 2 _ (of_string [])
        (of_string e.message) refl refl,
  )

  pub decode-encode_log_entry :
      (e : LogEntry)
      → FitsUint64 e.index
      → FitsInt32 e.severity
      → (encode_log_entry d e >>= decode_log_entry d) ≡ ok (some e)
  unfolding decode_log_entry validate_log_entry log_members
  decode-encode_log_entry e hi hz =
      let c = log_members-valid e.index e.severity e.message in
      rw encode_log_entry_lem (
        rw (
          validate-at d laws log_entry_type _ c 0 index_field (of_uint64 e.index) refl,
          validate-at d laws log_entry_type _ c 1 severity_field (of_int32 e.severity) refl,
          validate-at d laws log_entry_type _ c 2 message_field (of_string e.message) refl,
          read_uint64-at d laws log_entry_type _ c 0 index_field e.index refl hi,
          read_int32-at d laws log_entry_type _ c 1 severity_field e.severity refl hz,
          read_string-at d laws log_entry_type _ c 2 message_field e.message refl,
        ))

  message_members : ℕ → Bytes → List (Bytes × AnyValue)
  message_members i m =
      (index_field, scalar (of_uint64 i)) ∷ (message_field, scalar (of_string m)) ∷ []

  message_members-valid : (i : ℕ) (m : Bytes) → valid_members (message_members i m) ≡ true
  unfolding message_members valid_members bytes_eq
  message_members-valid i m =
      ground
        (arith, laws.index_field_plain, bytes_ne message_field index_field laws.index_field_fresh.1)

  encode_message_entry_lem :
      (e : MessageEntry)
      → encode_message_entry d e
        ≡ ok (struct message_entry_type (message_members e.index e.message))
  unfolding encode_message_entry message_members
  encode_message_entry_lem e = rw (
    set_scalar-at d laws _ _ (message_members-valid 0 []) 0 _ (of_uint64 0) (of_uint64 e.index) refl
        refl,
    set_scalar-at d laws _ _ (message_members-valid e.index []) 1 _ (of_string [])
        (of_string e.message) refl refl,
  )

  pub decode-encode_message_entry :
      (e : MessageEntry)
      → FitsUint64 e.index
      → (encode_message_entry d e >>= decode_message_entry d) ≡ ok (some e)
  unfolding decode_message_entry validate_message_entry message_members
  decode-encode_message_entry e hi =
      let c = message_members-valid e.index e.message in
      rw encode_message_entry_lem (
        rw (
          validate-at d laws message_entry_type _ c 0 index_field (of_uint64 e.index) refl,
          validate-at d laws message_entry_type _ c 1 message_field (of_string e.message) refl,
          read_uint64-at d laws message_entry_type _ c 0 index_field e.index refl hi,
          read_string-at d laws message_entry_type _ c 1 message_field e.message refl,
        ))

  output_members : ℕ → Bytes → AnyValue → List (Bytes × AnyValue)
  output_members i s v =
      (index_field, scalar (of_uint64 i))
      ∷ (description_field, scalar (of_string s))
      ∷ (value_field, v)
      ∷ []

  output_members-valid :
      (i : ℕ) (s : Bytes) (v : AnyValue) → valid_members (output_members i s v) ≡ true
  unfolding output_members valid_members bytes_eq
  output_members-valid i s v = ground (
    arith,
    laws.index_field_plain,
    bytes_ne description_field index_field laws.index_field_fresh.2,
    bytes_ne value_field index_field laws.index_field_fresh.3,
  )

  encode_output_value_entry_lem :
      (e : OutputValueEntry d)
      → encode_output_value_entry d e
        ≡ ok (struct output_value_entry_type (output_members e.index e.description e.value))
  unfolding encode_output_value_entry output_members
  encode_output_value_entry_lem e = rw (
    set_scalar-at d laws _ _ (output_members-valid 0 [] empty_value) 0 _ (of_uint64 0)
        (of_uint64 e.index) refl refl,
    set_scalar-at d laws _ _ (output_members-valid e.index [] empty_value) 1 _ (of_string [])
        (of_string e.description) refl refl,
    set_field-at d laws _ _ (output_members-valid e.index e.description empty_value) 2 _ empty_value
        e.value e.value refl (laws.assign-empty e.value),
  )

  pub decode-encode_output_value_entry :
      (e : OutputValueEntry d)
      → FitsUint64 e.index
      → (encode_output_value_entry d e >>= decode_output_value_entry d) ≡ ok (some e)
  unfolding decode_output_value_entry validate_output_value_entry output_members
  decode-encode_output_value_entry e hi =
      let c = output_members-valid e.index e.description e.value in
      rw encode_output_value_entry_lem (
        rw (
          validate-at d laws output_value_entry_type _ c 0 index_field (of_uint64 e.index) refl,
          validate-at d laws output_value_entry_type _ c 1 description_field
              (of_string e.description) refl,
          has_field-at d laws output_value_entry_type _ c 2 value_field e.value refl,
          read_uint64-at d laws output_value_entry_type _ c 0 index_field e.index refl hi,
          read_string-at d laws output_value_entry_type _ c 1 description_field e.description refl,
          field-at d laws output_value_entry_type _ c 2 value_field e.value refl,
        ))

-- Log, message and output value entries whose numbers fit their machine types are encoded without
-- an exception, and decoded to the same entries.
pub decode-encode_entry :
    (d : Dto) (e : LogEntry) (m : MessageEntry) (o : OutputValueEntry d)
    → DtoLaws d
    → FitsUint64 e.index
    → FitsInt32 e.severity
    → FitsUint64 m.index
    → FitsUint64 o.index
    → ((encode_log_entry d e >>= decode_log_entry d) ≡ ok (some e))
      × ((encode_message_entry d m >>= decode_message_entry d) ≡ ok (some m))
      × ((encode_output_value_entry d o >>= decode_output_value_entry d) ≡ ok (some o))
decode-encode_entry d e m o laws he hs hm ho = (
  decode-encode_log_entry d laws e he hs,
  decode-encode_message_entry d laws m hm,
  decode-encode_output_value_entry d laws o ho,
)
