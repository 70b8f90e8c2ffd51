-- ===== src/Jobs/Client.antt =====
-- base/automation_protocol_client.cpp: the jobs of a server as an `IJobManager` of a client, over two protocols.
use oac_tree_server.Base.{
  ℕ, Bool, not, List, [], ◌∷◌, ◌++◌, Option, none, some, Bytes, codes, Result, ok, throws,
  invalid_operation, or_throw, ◌>>=◌, ◌==◌, if◌then◌else◌,
}
use oac_tree_server.External.Scalars.{of_bool, of_uint32, of_uint64, uint64}
use oac_tree_server.External.Dto.{Dto}
use oac_tree_server.External.Rpc.{Rpc, packed}
use oac_tree_server.Protocol.Fields.{
  get_server_prefix_function, get_number_of_jobs_function, get_job_info_function,
  edit_breakpoint_function, send_job_command_function, server_prefix_field, number_of_jobs_field,
  job_index_field, job_info_field, instruction_index_field, breakpoint_active_field,
  job_command_field,
}
use oac_tree_server.Protocol.Results.{result_to_string}

module _ (d : Dto) (r : Rpc d) where
  open d use {AnyValue, scalar, empty_value, has_type, as_uint32}

  -- `Invoke` of the two protocols; the control protocol may change the state `M` on the other side.
  pub record Protocols (M : Type 0) : Type 0 where
    pub invoke_info : M → AnyValue → AnyValue → Result (ℕ × AnyValue)
    pub invoke_control : M → AnyValue → Result (M × ℕ)

  -- The texts of the exceptions.
  abbrev pub failed : Bytes → Bytes → Bytes
  failed function text = codes "AutomationProtocolClient::" ++ function ++ codes "(): " ++ text

  abbrev pub no_success : Bytes → ℕ → Bytes
  no_success function code =
      failed function (codes "protocol did not return success: " ++ result_to_string d r code)

  -- What is returned by a call that had this result.
  abbrev pub on_success {ℓ} : {A : Type ℓ} → Bytes → A → ℕ → Result A
  on_success function a code =
      if not (code == r.success)
      then throws (invalid_operation (no_success function code))
      else ok a

  -- A member of the output, or the exception with the text.
  abbrev pub or_failed {ℓ} : {A : Type ℓ} → Bytes → Bytes → Option A → Result A
  or_failed function text none = throws (invalid_operation (failed function text))
  or_failed function text (some a) = ok a

  abbrev pub check_number : AnyValue → Result ℕ
  check_number v =
      if not (has_type v uint64)
      then throws (
          invalid_operation (
            failed (codes "GetNumberOfJobs")
              (codes "could not extract number of jobs from server reply")))
      else or_throw (as_uint32 v)

  module _ {M : Type 0} (protocols : Protocols M) where
    unfoldable pub get_server_prefix : M → Result Bytes
    get_server_prefix m = do
      (code, output) ←
          protocols.invoke_info m (r.function_input get_server_prefix_function) empty_value
      out ← on_success (codes "GetServerPrefix") output code
      or_failed (codes "GetServerPrefix")
          (codes "could not extract server prefix from server reply")
          (r.extract_string out server_prefix_field)

    unfoldable pub get_number_of_jobs : M → Result ℕ
    get_number_of_jobs m = do
      (code, output) ←
          protocols.invoke_info m (r.function_input get_number_of_jobs_function) empty_value
      out ← on_success (codes "GetNumberOfJobs") output code
      v ←
          or_failed (codes "GetNumberOfJobs")
            (codes "could not extract number of jobs from server reply")
            (r.extract out number_of_jobs_field)
      check_number v

    -- The members that are packed into the inputs.
    abbrev pub info_members : ℕ → List (Bytes × AnyValue)
    info_members job_idx = (job_index_field, scalar (of_uint64 job_idx)) ∷ []

    -- The exceptions of `ToJobInfo` are the core's own, and pass the handler for the program's.
    unfoldable pub get_job_info : M → ℕ → Result r.JobInfo
    get_job_info m job_idx = do
      (code, output) ←
          protocols.invoke_info m
            (packed d r (r.function_input get_job_info_function) (info_members job_idx)) empty_value
      out ← on_success (codes "GetJobInfo") output code
      v ←
          or_failed (codes "GetJobInfo") (codes "could not extract job info from server reply")
            (r.extract out job_info_field)
      or_throw (r.to_job_info v)

    abbrev pub edit_members : ℕ → ℕ → Bool → List (Bytes × AnyValue)
    edit_members job_idx instr_idx breakpoint_active =
        (job_index_field, scalar (of_uint64 job_idx))
        ∷ (instruction_index_field, scalar (of_uint64 instr_idx))
        ∷ (breakpoint_active_field, scalar (of_bool breakpoint_active))
        ∷ []

    unfoldable pub edit_breakpoint : M → ℕ → ℕ → Bool → Result M
    edit_breakpoint m job_idx instr_idx breakpoint_active = do
      (t, code) ← protocols.invoke_control m (
          packed d r (r.function_input edit_breakpoint_function)
            (edit_members job_idx instr_idx breakpoint_active))
      on_success (codes "EditBreakpoint") t code

    abbrev pub command_members : ℕ → ℕ → List (Bytes × AnyValue)
    command_members job_idx command =
        (job_index_field, scalar (of_uint64 job_idx))
        ∷ (job_command_field, scalar (of_uint32 command))
        ∷ []

    unfoldable pub send_job_command : M → ℕ → ℕ → Result M
    send_job_command m job_idx command = do
      (t, code) ← protocols.invoke_control m (
          packed d r (r.function_input send_job_command_function) (command_members job_idx command))
      on_success (codes "SendJobCommand") t code
