-- ===== src/Protocol/ValueName.antt =====
-- base/oac_tree_protocol.cpp: `ParseValueName`.
pub mod Text
pub mod RoundTrip
pub mod Sound
use oac_tree_server.Base.{
  ℕ, ◌+◌, Bool, not, ◌&&◌, List, [], ◌∷◌, Option, none, some, Bytes, length, take, drop, ◌==◌,
  if◌then◌else◌,
}
use oac_tree_server.Protocol.Text.{find_last_of, ends_with}
use oac_tree_server.Protocol.Decimal.{parse_index}
use oac_tree_server.Protocol.Names.{
  instruction_id, breakpoint_instruction_id, variable_id, log_entry_id, message_entry_id,
  output_value_entry_id, job_state_id, instruction_name, breakpoint_instruction_name, variable_name,
  log_entry_name, message_entry_name, output_value_entry_name, job_state_name,
}

pub data ValueNameType : Type 0 where
  unknown instruction variable log_entry message_entry : ValueNameType
  output_value_entry job_status breakpoint_instruction : ValueNameType

pub record ValueNameInfo : Type 0 where
  pub val_type : ValueNameType
  pub idx : ℕ

abbrev pub info : ValueNameType → ℕ → ValueNameInfo
info t i = record { val_type = t; idx = i }

abbrev pub unknown_info : ValueNameInfo
unknown_info = info unknown 0

abbrev pub postfixes : List (Bytes × ValueNameType)
postfixes =
    (job_state_id, job_status)
    ∷ (log_entry_id, log_entry)
    ∷ (message_entry_id, message_entry)
    ∷ (output_value_entry_id, output_value_entry)
    ∷ (breakpoint_instruction_id, breakpoint_instruction)
    ∷ []

-- The loop over the postfixes, with its early return.
pub match_postfix : Bytes → List (Bytes × ValueNameType) → Option ValueNameInfo
match_postfix val_name [] = none
match_postfix val_name ((postfix, postfix_type) ∷ rest) =
    if ends_with val_name postfix
    then some (if length val_name == length postfix then unknown_info else info postfix_type 0)
    else match_postfix val_name rest

-- What precedes the index decides its kind.
pub match_index : Bytes → Option ℕ → ValueNameInfo
match_index remainder none = unknown_info
match_index remainder (some idx) =
    if ends_with remainder instruction_id && not (length remainder == length instruction_id)
    then info instruction idx
    else if ends_with remainder variable_id && not (length remainder == length variable_id)
    then info variable idx
    else unknown_info

pub split_index : Bytes → Option ℕ → ValueNameInfo
unfolding match_index
split_index val_name none = unknown_info
split_index val_name (some pos) =
    match_index (take (pos + 1) val_name) (parse_index (drop (pos + 1) val_name))

pub parse_postfix : Bytes → Option ValueNameInfo → ValueNameInfo
unfolding split_index
parse_postfix val_name (some found) = found
parse_postfix val_name none = split_index val_name (find_last_of val_name b'-')

unfoldable pub parse_value_name : Bytes → ValueNameInfo
unfolding match_postfix parse_postfix
parse_value_name val_name = parse_postfix val_name (match_postfix val_name postfixes)

-- The name that the server gives to the value of a kind and an index.
unfoldable pub value_name : Bytes → ValueNameType → ℕ → Bytes
value_name prefix unknown i = []
value_name prefix instruction i = instruction_name prefix i
value_name prefix variable i = variable_name prefix i
value_name prefix log_entry i = log_entry_name prefix
value_name prefix message_entry i = message_entry_name prefix
value_name prefix output_value_entry i = output_value_entry_name prefix
value_name prefix job_status i = job_state_name prefix
value_name prefix breakpoint_instruction i = breakpoint_instruction_name prefix
