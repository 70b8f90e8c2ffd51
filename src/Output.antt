-- ===== src/Output.antt =====
-- output_entry_types.h and base/output_entry_types.cpp: log, message and output value entries.
pub mod Codec
pub mod Equality
pub mod RoundTrip
pub mod Total
use oac_tree_server.Base.{ℕ, Bool, true, false, not, Bytes, bytes_eq, ◌==◌, if◌then◌else◌}
use oac_tree_server.External.Scalars.{ℤ, int_eq}
use oac_tree_server.External.Dto.{Dto}

pub record LogEntry : Type 0 where
  pub index : ℕ
  pub severity : ℤ
  pub message : Bytes

unfoldable pub log_entry_eq : LogEntry → LogEntry → Bool
log_entry_eq left right =
    if not (left.index == right.index)
    then false
    else if not (int_eq left.severity right.severity)
    then false
    else if not (bytes_eq left.message right.message)
    then false
    else true

unfoldable pub log_entry_ne : LogEntry → LogEntry → Bool
log_entry_ne left right = not (log_entry_eq left right)

pub record MessageEntry : Type 0 where
  pub index : ℕ
  pub message : Bytes

unfoldable pub message_entry_eq : MessageEntry → MessageEntry → Bool
message_entry_eq left right =
    if not (left.index == right.index)
    then false
    else if not (bytes_eq left.message right.message)
    then false
    else true

unfoldable pub message_entry_ne : MessageEntry → MessageEntry → Bool
message_entry_ne left right = not (message_entry_eq left right)

module _ (d : Dto) where
  pub record OutputValueEntry : Type 0 where
    pub index : ℕ
    pub description : Bytes
    pub value : d.AnyValue

  unfoldable pub output_value_entry_eq : OutputValueEntry → OutputValueEntry → Bool
  output_value_entry_eq left right =
      if not (left.index == right.index)
      then false
      else if not (bytes_eq left.description right.description)
      then false
      else if not (d.value_eq left.value right.value)
      then false
      else true

  unfoldable pub output_value_entry_ne : OutputValueEntry → OutputValueEntry → Bool
  output_value_entry_ne left right = not (output_value_entry_eq left right)
