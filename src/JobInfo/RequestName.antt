-- ===== src/JobInfo/RequestName.antt =====
-- base/oac_tree_protocol.cpp: the name of a job's input request differs from the names of its values.
use mathlib.Core.List.{append_assoc, append_cancel_left}
use oac_tree_server.Base.{
  ℕ, ◌≡◌, ◌≢◌, refl, sym, ◌∙◌, ◌++◌, Bytes, [], codes, bytes_eq, ne_of_bytes_eq,
}
use oac_tree_server.Protocol.Names.{
  input_server_name, input_request_name, instruction_name, variable_name, log_entry_name,
  message_entry_name, output_value_entry_name, job_state_name, breakpoint_instruction_name,
}
use oac_tree_server.Protocol.Decimal.{to_string}
use oac_tree_server.Protocol.ValueName.{
  ValueNameType, unknown, instruction, variable, log_entry, message_entry, output_value_entry,
  job_status, breakpoint_instruction, value_name,
}
use oac_tree_server.Protocol.ValueName.RoundTrip.{IsIndexOf}

abbrev pub request_name : Bytes → Bytes
request_name p = input_request_name (input_server_name p)

-- What follows the prefix in the name of a value.
ending : ValueNameType → ℕ → Bytes
ending unknown i = []
ending instruction i = codes "INSTR-" ++ to_string i
ending variable i = codes "VAR-" ++ to_string i
ending log_entry i = codes "LOG"
ending message_entry i = codes "MSG"
ending output_value_entry i = codes "OUT"
ending job_status i = codes "STATE"
ending breakpoint_instruction i = codes "BP-INSTR"

value_name-ending :
    (p : Bytes) (t : ValueNameType) (i : ℕ) → IsIndexOf t i → value_name p t i ≡ p ++ ending t i
unfolding value_name ending instruction_name variable_name log_entry_name message_entry_name
    output_value_entry_name job_state_name breakpoint_instruction_name
value_name-ending p unknown i h = absurd h
value_name-ending p instruction i h = append_assoc p (codes "INSTR-") (to_string i)
value_name-ending p variable i h = append_assoc p (codes "VAR-") (to_string i)
value_name-ending p log_entry i h = refl
value_name-ending p message_entry i h = refl
value_name-ending p output_value_entry i h = refl
value_name-ending p job_status i h = refl
value_name-ending p breakpoint_instruction i h = refl

ending_ne_request : (t : ValueNameType) (i : ℕ) → ending t i ≢ codes "INPUT-REQ"
unfolding ending bytes_eq
ending_ne_request unknown i = ne_of_bytes_eq _ _ refl
ending_ne_request instruction i = ne_of_bytes_eq _ _ refl
ending_ne_request variable i = ne_of_bytes_eq _ _ refl
ending_ne_request log_entry i = ne_of_bytes_eq _ _ refl
ending_ne_request message_entry i = ne_of_bytes_eq _ _ refl
ending_ne_request output_value_entry i = ne_of_bytes_eq _ _ refl
ending_ne_request job_status i = ne_of_bytes_eq _ _ refl
ending_ne_request breakpoint_instruction i = ne_of_bytes_eq _ _ refl

-- The request's name is no name of a value of the job.
pub value_name-ne-request_name :
    (p : Bytes) (t : ValueNameType) (i : ℕ) → IsIndexOf t i → value_name p t i ≢ request_name p
unfolding input_request_name input_server_name
value_name-ne-request_name p t i h e = ending_ne_request t i (
    append_cancel_left p (ending t i) (codes "INPUT-REQ")
      (sym (value_name-ending p t i h) ∙ e ∙ append_assoc p (codes "INPUT") (codes "-REQ")))
