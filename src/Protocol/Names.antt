-- ===== src/Protocol/Names.antt =====
-- oac_tree_protocol.h and base/oac_tree_protocol.cpp: the names of servers and values.
use oac_tree_server.Base.{ℕ, ◌++◌, Bytes, codes}
use oac_tree_server.Protocol.Decimal.{to_string}

abbrev pub control_server_id : Bytes
control_server_id = codes "CONTROL:"

abbrev pub instruction_id : Bytes
instruction_id = codes "INSTR-"

abbrev pub breakpoint_instruction_id : Bytes
breakpoint_instruction_id = codes "BP-INSTR"

abbrev pub variable_id : Bytes
variable_id = codes "VAR-"

abbrev pub input_server_id : Bytes
input_server_id = codes "INPUT"

abbrev pub input_request_id : Bytes
input_request_id = codes "-REQ"

abbrev pub log_entry_id : Bytes
log_entry_id = codes "LOG"

abbrev pub message_entry_id : Bytes
message_entry_id = codes "MSG"

abbrev pub output_value_entry_id : Bytes
output_value_entry_id = codes "OUT"

abbrev pub job_state_id : Bytes
job_state_id = codes "STATE"

unfoldable pub control_server_name : Bytes → Bytes
control_server_name server_name = server_name ++ control_server_id

unfoldable pub create_job_prefix : Bytes → ℕ → Bytes
create_job_prefix server_prefix idx =
    ((server_prefix ++ codes ":PROC-") ++ to_string idx) ++ codes ":"

unfoldable pub instruction_name : Bytes → ℕ → Bytes
instruction_name prefix index = (prefix ++ instruction_id) ++ to_string index

unfoldable pub breakpoint_instruction_name : Bytes → Bytes
breakpoint_instruction_name prefix = prefix ++ breakpoint_instruction_id

unfoldable pub variable_name : Bytes → ℕ → Bytes
variable_name prefix index = (prefix ++ variable_id) ++ to_string index

unfoldable pub input_server_name : Bytes → Bytes
input_server_name prefix = prefix ++ input_server_id

unfoldable pub input_request_name : Bytes → Bytes
input_request_name server_name = server_name ++ input_request_id

unfoldable pub log_entry_name : Bytes → Bytes
log_entry_name prefix = prefix ++ log_entry_id

unfoldable pub message_entry_name : Bytes → Bytes
message_entry_name prefix = prefix ++ message_entry_id

unfoldable pub output_value_entry_name : Bytes → Bytes
output_value_entry_name prefix = prefix ++ output_value_entry_id

unfoldable pub job_state_name : Bytes → Bytes
job_state_name prefix = prefix ++ job_state_id
