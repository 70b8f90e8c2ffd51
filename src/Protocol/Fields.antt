-- ===== src/Protocol/Fields.antt =====
-- oac_tree_protocol.h: the names of types, of members and of remote functions.
use oac_tree_server.Base.{Bytes, codes}

abbrev pub variable_type : Bytes
variable_type = codes "sup::variableType/v1.0"

abbrev pub variable_value_field : Bytes
variable_value_field = codes "var_value"

abbrev pub variable_connected_field : Bytes
variable_connected_field = codes "var_connected"

abbrev pub input_request_type : Bytes
input_request_type = codes "sup::inputRequestType/v1.0"

abbrev pub input_request_index_field : Bytes
input_request_index_field = codes "idx"

abbrev pub input_request_type_field : Bytes
input_request_type_field = codes "request_type"

abbrev pub input_request_metadata_field : Bytes
input_request_metadata_field = codes "metadata"

abbrev pub input_request_input_value_field : Bytes
input_request_input_value_field = codes "input_value"

abbrev pub input_reply_index_field : Bytes
input_reply_index_field = codes "idx"

abbrev pub input_reply_type_field : Bytes
input_reply_type_field = codes "Reply_type"

abbrev pub input_reply_result_field : Bytes
input_reply_result_field = codes "result"

abbrev pub input_reply_payload_field : Bytes
input_reply_payload_field = codes "payload"

abbrev pub log_entry_type : Bytes
log_entry_type = codes "sup::logEntryType/v1.0"

abbrev pub severity_field : Bytes
severity_field = codes "severity"

abbrev pub message_field : Bytes
message_field = codes "message"

abbrev pub message_entry_type : Bytes
message_entry_type = codes "sup::messageEntryType/v1.0"

abbrev pub output_value_entry_type : Bytes
output_value_entry_type = codes "sup::outputValueEntryType/v1.0"

abbrev pub description_field : Bytes
description_field = codes "description"

abbrev pub value_field : Bytes
value_field = codes "value"

abbrev pub job_state_type : Bytes
job_state_type = codes "sup::jobState/v1.0"

abbrev pub job_state_field : Bytes
job_state_field = codes "state"

abbrev pub get_server_prefix_function : Bytes
get_server_prefix_function = codes "GetServerPrefix"

abbrev pub get_number_of_jobs_function : Bytes
get_number_of_jobs_function = codes "GetNumberOfJobs"

abbrev pub get_job_info_function : Bytes
get_job_info_function = codes "GetJobInfo"

abbrev pub edit_breakpoint_function : Bytes
edit_breakpoint_function = codes "EditBreakpoint"

abbrev pub send_job_command_function : Bytes
send_job_command_function = codes "SendJobCommand"

abbrev pub server_prefix_field : Bytes
server_prefix_field = codes "server_prefix"

abbrev pub number_of_jobs_field : Bytes
number_of_jobs_field = codes "number_of_jobs"

abbrev pub job_index_field : Bytes
job_index_field = codes "job_index"

abbrev pub job_info_field : Bytes
job_info_field = codes "job_info"

abbrev pub instruction_index_field : Bytes
instruction_index_field = codes "instruction_index"

abbrev pub breakpoint_active_field : Bytes
breakpoint_active_field = codes "breakpoint_active"

abbrev pub job_command_field : Bytes
job_command_field = codes "command"

abbrev pub set_reply_function : Bytes
set_reply_function = codes "SetReply"

abbrev pub user_reply_value_field : Bytes
user_reply_value_field = codes "value"

-- The types and versions of the protocol servers.
abbrev pub info_server_type : Bytes
info_server_type = codes "SUP::AutomationInfoServerProtocol"

abbrev pub info_server_version : Bytes
info_server_version = codes "1.0"

abbrev pub control_server_type : Bytes
control_server_type = codes "SUP::AutomationControlServerProtocol"

abbrev pub control_server_version : Bytes
control_server_version = codes "1.0"

abbrev pub input_request_server_type : Bytes
input_request_server_type = codes "SUP::AutoInputServerProtocol"

abbrev pub input_request_server_version : Bytes
input_request_server_version = codes "1.0"
