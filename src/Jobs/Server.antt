-- ===== src/Jobs/Server.antt =====
-- base/automation_server.cpp: the jobs of a server. What a job reports is the concern of its `ServerJobInfoIO`; here it
-- is the prefix and the number of variables that the object is constructed with.
pub mod Commands
use oac_tree_server.Base.{
  ℕ, ◌+◌, ◌-◌, ◌%◌, ltb, ◌^◌, Bool, true, false, List, [], ◌∷◌, ◌++◌, Option, none, some, Bytes,
  codes, Result, ok, throws, invalid_operation, or_throw, ◌>>=◌, ◌==◌, leb, if◌then◌else◌, length,
  get_elem?, set,
}
use oac_tree_server.External.Dto.{Dto}
use oac_tree_server.External.Rpc.{Rpc}
use oac_tree_server.External.LocalJob.{LocalJobs}
use oac_tree_server.Protocol.Decimal.{to_string}
use oac_tree_server.Protocol.Names.{create_job_prefix}
use oac_tree_server.Jobs.{JobManager}

module _ (d : Dto) (r : Rpc d) (l : LocalJobs d r) where
  -- The arguments of a `ServerJobInfoIO`.
  pub record JobReport : Type 0 where
    pub job_prefix : Bytes
    pub n_vars : ℕ
    pub manager_index : ℕ

  pub record AutomationServer : Type 0 where
    pub server_prefix : Bytes
    pub job_info_ios : List JobReport
    pub jobs : List l.Job

  unfoldable pub init : Bytes → AutomationServer
  init server_prefix = record { server_prefix = server_prefix; job_info_ios = []; jobs = [] }

  abbrev pub u32_mod : ℕ
  u32_mod = 2 ^ 32

  -- The reports are constructed before the job.
  unfoldable pub add_job : AutomationServer → l.Procedure → Result AutomationServer
  add_job s proc =
      let idx = length s.jobs % u32_mod in
      let report : JobReport = record {
        job_prefix = create_job_prefix s.server_prefix idx;
        n_vars = l.number_of_variables proc % u32_mod;
        manager_index = idx;
      } in
      (or_throw (l.create proc) >>= λ job.
      ok (record s { job_info_ios = s.job_info_ios ++ report ∷ []; jobs = s.jobs ++ job ∷ [] }))

  abbrev pub number_of_jobs : AutomationServer → ℕ
  number_of_jobs s = length s.jobs % u32_mod

  abbrev pub out_of_bounds : AutomationServer → ℕ → Bytes
  out_of_bounds s job_idx =
      codes "AutomationServer::GetJob(): index out of bounds; requesting"
      ++ to_string job_idx
      ++ codes " out of "
      ++ to_string (length s.jobs)
      ++ codes " jobs"

  unfoldable pub get_job : AutomationServer → ℕ → Result l.Job
  get_job s job_idx =
      if leb (length s.jobs) job_idx
      then throws (invalid_operation (out_of_bounds s job_idx))
      else or_throw (get_elem? s.jobs job_idx)

  unfoldable pub job_info : AutomationServer → ℕ → Result r.JobInfo
  job_info s job_idx = get_job s job_idx >>= λ job. ok (l.get_info job)

  abbrev pub replaced : AutomationServer → ℕ → l.Job → AutomationServer
  replaced s job_idx job = record s { jobs = set s.jobs job_idx job }

  unfoldable pub change_breakpoint : AutomationServer → ℕ → ℕ → Bool → Result AutomationServer
  change_breakpoint s job_idx instr_idx breakpoint_active = do
    job ← get_job s job_idx
    changed ← or_throw (
        if breakpoint_active
        then l.set_breakpoint job instr_idx
        else l.remove_breakpoint job instr_idx)
    ok (replaced s job_idx changed)

  -- `std::to_string(static_cast<int>(command))`.
  abbrev pub int_to_string : ℕ → Bytes
  int_to_string n = if ltb n (2 ^ 31) then to_string n else codes "-" ++ to_string (u32_mod - n)

  abbrev pub unknown_command : ℕ → Bytes
  unknown_command command =
      codes "AutomationServer::GetJobInfo(): unknown command enumerator ["
      ++ int_to_string command
      ++ codes "]"

  -- The switch over the commands.
  unfoldable pub run_command : l.Job → ℕ → Result l.Job
  run_command job command =
      if command == l.start_command
      then or_throw (l.start job)
      else if command == l.step_command
      then or_throw (l.step job)
      else if command == l.pause_command
      then or_throw (l.pause job)
      else if command == l.reset_command
      then or_throw (l.reset job)
      else if command == l.halt_command
      then or_throw (l.halt job)
      else throws (invalid_operation (unknown_command command))

  unfoldable pub send_command : AutomationServer → ℕ → ℕ → Result AutomationServer
  unfolding run_command
  send_command s job_idx command = do
    job ← get_job s job_idx
    changed ← run_command job command
    ok (replaced s job_idx changed)

  -- The class as an `IJobManager`.
  abbrev pub server_manager : JobManager d r AutomationServer
  server_manager = record {
    get_server_prefix = λ s. ok s.server_prefix;
    get_number_of_jobs = λ s. ok (number_of_jobs s);
    get_job_info = job_info;
    edit_breakpoint = change_breakpoint;
    send_job_command = send_command;
  }
