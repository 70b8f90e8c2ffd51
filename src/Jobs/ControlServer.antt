-- ===== src/Jobs/ControlServer.antt =====
-- base/control_protocol_server.cpp: `Invoke` and the functions behind it. The output value is never changed.
use oac_tree_server.Base.{
  ℕ, Bool, List, [], ◌∷◌, Option, none, some, Bytes, bytes_eq, Result, ok, ◌>>=◌, inl, inr, ◌⊎◌,
  if◌then◌else◌,
}
use oac_tree_server.External.Dto.{Dto}
use oac_tree_server.External.Rpc.{Rpc}
use oac_tree_server.Protocol.Fields.{
  control_server_type, control_server_version, edit_breakpoint_function, send_job_command_function,
  breakpoint_active_field, job_command_field,
}
use oac_tree_server.Protocol.Results.{
  Extracted, extracted, refused, not_supported, unknown_job_command, extract_job_index,
  extract_instruction_index, extract_index,
}
use oac_tree_server.Jobs.{JobManager}

module _ (d : Dto) (r : Rpc d) {M : Type 0} (manager : JobManager d r M) where
  open d use {AnyValue}

  -- `ExtractJobCommand`.
  unfoldable pub extract_job_command : AnyValue → Extracted ℕ
  extract_job_command input =
      extract_index d r (r.extract input job_command_field) r.terminate (unknown_job_command d r)

  abbrev pub edit_active : M → ℕ → ℕ → Option Bool → Result (M × ℕ)
  edit_active m job_idx instr_idx none = ok (m, r.decoding_error)
  edit_active m job_idx instr_idx (some active) =
      manager.edit_breakpoint m job_idx instr_idx active >>= λ t. ok (t, r.success)

  abbrev pub edit_instruction : M → ℕ → AnyValue → Extracted ℕ → Result (M × ℕ)
  edit_instruction m job_idx input (refused code) = ok (m, code)
  edit_instruction m job_idx input (extracted instr_idx) =
      edit_active m job_idx instr_idx (r.extract_bool input breakpoint_active_field)

  abbrev pub edit_job : M → AnyValue → Extracted ℕ → Result (M × ℕ)
  edit_job m input (refused code) = ok (m, code)
  edit_job m input (extracted job_idx) = manager.get_job_info m job_idx >>= λ info.
      edit_instruction m job_idx input
        (extract_instruction_index d r input (r.number_of_instructions info))

  unfoldable pub serve_edit : M → AnyValue → Result (M × ℕ)
  serve_edit m input = do
    n ← manager.get_number_of_jobs m
    edit_job m input (extract_job_index d r input n)

  abbrev pub send_command : M → ℕ → Extracted ℕ → Result (M × ℕ)
  send_command m idx (refused code) = ok (m, code)
  send_command m idx (extracted command) =
      manager.send_job_command m idx command >>= λ t. ok (t, r.success)

  abbrev pub send_to_job : M → AnyValue → Extracted ℕ → Result (M × ℕ)
  send_to_job m input (refused code) = ok (m, code)
  send_to_job m input (extracted idx) = send_command m idx (extract_job_command input)

  unfoldable pub serve_command : M → AnyValue → Result (M × ℕ)
  unfolding extract_job_command
  serve_command m input = do
    n ← manager.get_number_of_jobs m
    send_to_job m input (extract_job_index d r input n)

  abbrev pub function_names : List Bytes
  function_names = edit_breakpoint_function ∷ send_job_command_function ∷ []

  abbrev pub call : M → AnyValue → Bytes ⊎ ℕ → Result (M × ℕ)
  call m input (inr code) = ok (m, code)
  call m input (inl name) =
      if bytes_eq name edit_breakpoint_function then serve_edit m input else serve_command m input

  unfoldable pub invoke_control : M → AnyValue → Result (M × ℕ)
  invoke_control m input = call m input (r.called_function input function_names (not_supported d r))

  -- `Service`: questions for the protocol itself.
  unfoldable pub service : AnyValue → AnyValue → ℕ × AnyValue
  service input output =
      if r.is_application_protocol_request_payload input
      then r.handle_application_protocol_info output control_server_type control_server_version
      else (not_supported d r, output)
