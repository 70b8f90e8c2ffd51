-- ===== src/Output/Codec.antt =====
-- base/output_entry_helper.cpp: entries as `AnyValue`s. A pair `{false, {}}` is `none`.
use oac_tree_server.Base.{
  Bool, true, false, not, [], ◌∷◌, Option, none, some, Result, ok, or_throw, ◌>>=◌, if◌then◌else◌,
}
use oac_tree_server.External.Scalars.{pos, of_int32, of_uint64, of_string, int32, uint64, string}
use oac_tree_server.External.Dto.{Dto}
use oac_tree_server.External.Dto.Read.{read_int32, read_uint64, read_string}
use oac_tree_server.Protocol.Fields.{
  log_entry_type, severity_field, message_field, message_entry_type, output_value_entry_type,
  description_field, value_field,
}
use oac_tree_server.Output.{LogEntry, MessageEntry, OutputValueEntry}

module _ (d : Dto) where
  open d use {
    AnyValue, empty_value, scalar, struct, has_field, field, set_field, validate_member_type,
    index_field,
  }

  unfoldable pub log_entry_any_value : AnyValue
  log_entry_any_value = struct log_entry_type (
      (index_field, scalar (of_uint64 0))
      ∷ (severity_field, scalar (of_int32 (pos 0)))
      ∷ (message_field, scalar (of_string []))
      ∷ [])

  unfoldable pub message_entry_any_value : AnyValue
  message_entry_any_value =
      struct message_entry_type
        ((index_field, scalar (of_uint64 0)) ∷ (message_field, scalar (of_string [])) ∷ [])

  unfoldable pub output_value_entry_any_value : AnyValue
  output_value_entry_any_value = struct output_value_entry_type (
      (index_field, scalar (of_uint64 0))
      ∷ (description_field, scalar (of_string []))
      ∷ (value_field, empty_value)
      ∷ [])

  unfoldable pub validate_log_entry : AnyValue → Bool
  validate_log_entry v =
      if not (validate_member_type v index_field uint64)
      then false
      else if not (validate_member_type v severity_field int32)
      then false
      else if not (validate_member_type v message_field string)
      then false
      else true

  unfoldable pub encode_log_entry : LogEntry → Result AnyValue
  unfolding log_entry_any_value
  encode_log_entry e = do
    r ← or_throw (set_field log_entry_any_value index_field (scalar (of_uint64 e.index)))
    r' ← or_throw (set_field r severity_field (scalar (of_int32 e.severity)))
    or_throw (set_field r' message_field (scalar (of_string e.message)))

  unfoldable pub read_log_entry : AnyValue → Result (Option LogEntry)
  read_log_entry v = do
    i ← or_throw (read_uint64 d v index_field)
    z ← or_throw (read_int32 d v severity_field)
    m ← or_throw (read_string d v message_field)
    ok (some (record { index = i; severity = z; message = m }))

  unfoldable pub decode_log_entry : AnyValue → Result (Option LogEntry)
  unfolding read_log_entry
  decode_log_entry v = if not (validate_log_entry v) then ok none else read_log_entry v

  unfoldable pub validate_message_entry : AnyValue → Bool
  validate_message_entry v =
      if not (validate_member_type v index_field uint64)
      then false
      else if not (validate_member_type v message_field string)
      then false
      else true

  unfoldable pub encode_message_entry : MessageEntry → Result AnyValue
  unfolding message_entry_any_value
  encode_message_entry e = do
    r ← or_throw (set_field message_entry_any_value index_field (scalar (of_uint64 e.index)))
    or_throw (set_field r message_field (scalar (of_string e.message)))

  unfoldable pub read_message_entry : AnyValue → Result (Option MessageEntry)
  read_message_entry v = do
    i ← or_throw (read_uint64 d v index_field)
    m ← or_throw (read_string d v message_field)
    ok (some (record { index = i; message = m }))

  unfoldable pub decode_message_entry : AnyValue → Result (Option MessageEntry)
  unfolding read_message_entry
  decode_message_entry v = if not (validate_message_entry v) then ok none else read_message_entry v

  unfoldable pub validate_output_value_entry : AnyValue → Bool
  validate_output_value_entry v =
      if not (validate_member_type v index_field uint64)
      then false
      else if not (validate_member_type v description_field string)
      then false
      else if not (has_field v value_field)
      then false
      else true

  unfoldable pub encode_output_value_entry : OutputValueEntry d → Result AnyValue
  unfolding output_value_entry_any_value
  encode_output_value_entry e = do
    r ← or_throw (set_field output_value_entry_any_value index_field (scalar (of_uint64 e.index)))
    r' ← or_throw (set_field r description_field (scalar (of_string e.description)))
    or_throw (set_field r' value_field e.value)

  unfoldable pub read_output_value_entry : AnyValue → Result (Option (OutputValueEntry d))
  read_output_value_entry v = do
    i ← or_throw (read_uint64 d v index_field)
    s ← or_throw (read_string d v description_field)
    w ← or_throw (field v value_field)
    ok (some (record { index = i; description = s; value = w }))

  unfoldable pub decode_output_value_entry : AnyValue → Result (Option (OutputValueEntry d))
  unfolding read_output_value_entry
  decode_output_value_entry v =
      if validate_output_value_entry v then read_output_value_entry v else ok none
