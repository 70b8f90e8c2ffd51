-- ===== src/Tests/Entries.antt =====
-- Entries at the concrete value type.
use oac_tree_server.Base.{◌≡◌, codes, some, ok, ◌>>=◌, arith}
use oac_tree_server.External.Scalars.{pos}
use oac_tree_server.Output.{LogEntry, MessageEntry, OutputValueEntry}
use oac_tree_server.Output.Codec.{
  encode_log_entry, encode_message_entry, encode_output_value_entry, decode_log_entry,
  decode_message_entry, decode_output_value_entry, log_entry_any_value,
}
use oac_tree_server.Output.RoundTrip.{decode-encode_entry}
use oac_tree_server.Output.Total.{
  Finds, HoldsLogEntry, HoldsMessageEntry, HoldsOutputValueEntry, decode_entry-Finds,
}
use oac_tree_server.Tests.SampleDto.{sample_dto, sample_dto-laws, Value, nothing}

abbrev warning : LogEntry
warning = record { index = 3; severity = pos 4; message = codes "hot" }

abbrev notice : MessageEntry
notice = record { index = 5; message = codes "ready" }

abbrev level : OutputValueEntry sample_dto
level = record { index = 9; description = codes "level"; value = nothing }

decode-encode_entry_example :
    ((encode_log_entry sample_dto warning >>= decode_log_entry sample_dto) ≡ ok (some warning))
    × ((encode_message_entry sample_dto notice >>= decode_message_entry sample_dto)
        ≡ ok (some notice))
    × ((encode_output_value_entry sample_dto level >>= decode_output_value_entry sample_dto)
        ≡ ok (some level))
decode-encode_entry_example =
    decode-encode_entry sample_dto warning notice level sample_dto-laws (omega arith) (omega arith)
      (omega arith) (omega arith)

decode_entry-Finds_example :
    let v : Value = log_entry_any_value sample_dto in
    Finds (decode_log_entry sample_dto v) (HoldsLogEntry sample_dto v)
    × Finds (decode_message_entry sample_dto v) (HoldsMessageEntry sample_dto v)
    × Finds (decode_output_value_entry sample_dto v) (HoldsOutputValueEntry sample_dto v)
decode_entry-Finds_example =
    decode_entry-Finds sample_dto sample_dto-laws (log_entry_any_value sample_dto)
