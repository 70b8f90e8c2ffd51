-- ===== src/Tests/Remote.antt =====
-- A client of a small manager: two jobs of three instructions; the state counts the calls.
use oac_tree_server.Base.{
  ℕ, ◌+◌, ◌≡◌, refl, [], ◌∷◌, some, none, true, codes, ok, throws, invalid_operation, ◌>>=◌, leb,
  if◌then◌else◌, arith,
}
use oac_tree_server.Jobs.{JobManager}
use oac_tree_server.Jobs.Client.{
  no_success, get_server_prefix, get_number_of_jobs, get_job_info, edit_breakpoint,
  send_job_command,
}
use oac_tree_server.Jobs.Remote.{connected}
use oac_tree_server.Jobs.RemoteControl.{refuse}
use oac_tree_server.Jobs.RemoteCommand.{client-connected}
use oac_tree_server.External.LocalJob.{LocalJobs}
use oac_tree_server.Jobs.Server.{AutomationServer}
use oac_tree_server.Protocol.Results.{unknown_job, unknown_instruction, unknown_job_command}
use oac_tree_server.Tests.SampleDto.{sample_dto, sample_dto-laws}
use oac_tree_server.Tests.SampleRpc.{sample_rpc, sample_rpc-laws}

abbrev pub counting : JobManager sample_dto sample_rpc ℕ
counting = record {
  get_server_prefix = λ m. ok (codes "AUTO");
  get_number_of_jobs = λ m. ok 2;
  get_job_info = λ m i. ok 3;
  edit_breakpoint = λ m i j b. ok (m + 1);
  send_job_command = λ m i c. ok (m + 1);
}

client-connected_example :
    let client = connected sample_dto sample_dto-laws sample_rpc sample_rpc-laws counting in
    let refused_by = refuse sample_dto sample_dto-laws sample_rpc sample_rpc-laws counting in
    (get_server_prefix sample_dto sample_rpc client 0 ≡ ok (codes "AUTO"))
    × (get_number_of_jobs sample_dto sample_rpc client 0 ≡ ok 2)
    × (get_job_info sample_dto sample_rpc client 0 1 ≡ (
        if leb 2 1
        then throws (
            invalid_operation (
              no_success sample_dto sample_rpc
                (codes "GetJobInfo")
                (unknown_job sample_dto sample_rpc)))
        else counting.get_job_info 0 1))
    × (edit_breakpoint sample_dto sample_rpc client 0 1 2 true ≡ (
        if leb 2 1
        then refused_by (codes "EditBreakpoint") (unknown_job sample_dto sample_rpc)
        else counting.get_job_info 0 1 >>= λ info.
            if leb (sample_rpc.number_of_instructions info) 2
            then refused_by (codes "EditBreakpoint") (unknown_instruction sample_dto sample_rpc)
            else counting.edit_breakpoint 0 1 2 true))
    × (send_job_command sample_dto sample_rpc client 0 1 4 ≡ (
        if leb 2 1
        then refused_by (codes "SendJobCommand") (unknown_job sample_dto sample_rpc)
        else if leb sample_rpc.terminate 4
        then refused_by (codes "SendJobCommand") (unknown_job_command sample_dto sample_rpc)
        else counting.send_job_command 0 1 4))
client-connected_example =
    client-connected sample_dto sample_dto-laws sample_rpc sample_rpc-laws counting 0 (codes "AUTO")
      2 1 2 4 true (omega arith) (omega arith) (omega arith) (omega arith) refl refl

abbrev pub counters : LocalJobs sample_dto sample_rpc
counters = record {
  Procedure = ℕ;
  Job = ℕ;
  number_of_variables = λ p. p;
  create = λ p. some p;
  get_info = λ n. n;
  set_breakpoint = λ n j. some (n + j);
  remove_breakpoint = λ n j. some n;
  start = λ n. some (n + 1);
  step = λ n. some (n + 1);
  pause = λ n. some n;
  reset = λ n. some 0;
  halt = λ n. none;
  start_command = 0;
  step_command = 1;
  pause_command = 2;
  reset_command = 3;
  halt_command = 4;
}

abbrev pub two_jobs : AutomationServer sample_dto sample_rpc counters
two_jobs = record { server_prefix = codes "AUTO"; job_info_ios = []; jobs = 7 ∷ 9 ∷ [] }
