-- ===== src/Jobs/ClientJob.antt =====
-- base/client_job.cpp: a job of a server on a client. The `IAnyValueIO` that the factory returns is the argument of the
-- constructor.
pub mod Connected
pub mod Created
use oac_tree_server.Base.{
  ℕ, Bool, true, false, ◌++◌, Option, none, some, Bytes, codes, Result, ok, throws,
  invalid_operation, library_error, ◌>>=◌, leb, if◌then◌else◌,
}
use oac_tree_server.External.Dto.{Dto}
use oac_tree_server.External.Rpc.{Rpc}
use oac_tree_server.External.OacTree.{OacTree}
use oac_tree_server.External.LocalJob.{LocalJobs}
use oac_tree_server.Protocol.Decimal.{to_string}
use oac_tree_server.Protocol.Names.{create_job_prefix}
use oac_tree_server.JobInfo.{AnyValueIo}
use oac_tree_server.JobInfo.ValueSets.{initialize_job_and_variables, initialize_instructions}
use oac_tree_server.Jobs.{JobManager}
use oac_tree_server.Jobs.Client.{
  Protocols, get_server_prefix, get_number_of_jobs, get_job_info, edit_breakpoint, send_job_command,
}

module _ (d : Dto) (r : Rpc d) where
  -- `AutomationProtocolClient` as an `IJobManager`.
  abbrev pub protocol_client : {M : Type 0} → Protocols d r M → JobManager d r M
  protocol_client protocols = record {
    get_server_prefix = get_server_prefix d r protocols;
    get_number_of_jobs = get_number_of_jobs d r protocols;
    get_job_info = get_job_info d r protocols;
    edit_breakpoint = edit_breakpoint d r protocols;
    send_job_command = send_job_command d r protocols;
  }

  module _ (o : OacTree d) (number_of_variables : r.JobInfo → ℕ) {M : Type 0}
      (job_manager : JobManager d r M) {S : Type 0} (factory : AnyValueIo d S) where
    pub record ClientJob : Type 0 where
      pub job_idx : ℕ
      pub anyvalue_io : S
      pub job_info : r.JobInfo

    abbrev pub no_such_job : ℕ → ℕ → Bytes
    no_such_job job_idx n_jobs =
        codes "ClientJob ctor: trying to create job with index ["
        ++ to_string job_idx
        ++ codes "] out of ["
        ++ to_string n_jobs
        ++ codes "] jobs"

    -- The values of the job are registered under its prefix.
    unfoldable pub initialize : S → ℕ → Bytes → r.JobInfo → Result ClientJob
    initialize io job_idx job_prefix job_info = do
      t ← initialize_job_and_variables d o factory io job_prefix (number_of_variables job_info)
      t' ← initialize_instructions d o factory t job_prefix (r.number_of_instructions job_info)
      ok (record { job_idx = job_idx; anyvalue_io = t'; job_info = job_info })

    abbrev pub construct_below : M → ℕ → S → ℕ → Result ClientJob
    construct_below m job_idx io n_jobs =
        if leb n_jobs job_idx
        then throws (invalid_operation (no_such_job job_idx n_jobs))
        else job_manager.get_server_prefix m >>= λ server_prefix.
            job_manager.get_job_info m job_idx >>= λ job_info.
            initialize io job_idx (create_job_prefix server_prefix job_idx) job_info

    unfoldable pub construct : M → ℕ → S → Result ClientJob
    construct m job_idx io = job_manager.get_number_of_jobs m >>= construct_below m job_idx io

    -- The handler of `MessageException`.
    abbrev pub caught : Result ClientJob → Result (Option ClientJob)
    caught (ok job) = ok (some job)
    caught (throws (invalid_operation e)) = ok none
    caught (throws library_error) = throws library_error

    unfoldable pub create_client_job : M → ℕ → S → Result (Option ClientJob)
    unfolding construct
    create_client_job m job_idx io = caught (construct m job_idx io)

  -- The methods of a job with the index `i`; the state is that of the manager.
  module _ (l : LocalJobs d r) {M : Type 0} (job_manager : JobManager d r M) (i : ℕ) where
    unfoldable pub set_breakpoint : M → ℕ → Result M
    set_breakpoint m instr_idx = job_manager.edit_breakpoint m i instr_idx true

    unfoldable pub remove_breakpoint : M → ℕ → Result M
    remove_breakpoint m instr_idx = job_manager.edit_breakpoint m i instr_idx false

    unfoldable pub start : M → Result M
    start m = job_manager.send_job_command m i l.start_command

    unfoldable pub step : M → Result M
    step m = job_manager.send_job_command m i l.step_command

    unfoldable pub pause : M → Result M
    pause m = job_manager.send_job_command m i l.pause_command

    unfoldable pub reset : M → Result M
    reset m = job_manager.send_job_command m i l.reset_command

    unfoldable pub halt : M → Result M
    halt m = job_manager.send_job_command m i l.halt_command
