-- ===== src/Tests/ClientJob.antt =====
-- The jobs of a client of a server with two jobs.
use oac_tree_server.Base.{◌≡◌, refl, arith, some, none}
use oac_tree_server.External.LocalJob.{LocalJobsLaws}
use oac_tree_server.JobInfo.ClientManager as ClientManager
use oac_tree_server.Jobs.ClientJob.{
  set_breakpoint, remove_breakpoint, start, step, pause, reset, halt,
}
use oac_tree_server.Jobs.ClientJob.Connected.{remote, after, client_job-runs}
use oac_tree_server.Tests.SampleDto.{sample_dto, sample_dto-laws}
use oac_tree_server.Tests.SampleRpc.{sample_rpc, sample_rpc-laws}
use oac_tree_server.Tests.Remote.{counters, two_jobs}

pub counters-laws : LocalJobsLaws sample_dto sample_rpc counters
counters-laws = record {
  terminate-fits = omega arith;
  start-lt = omega arith;
  step-lt = omega arith;
  pause-lt = omega arith;
  reset-lt = omega arith;
  halt-lt = omega arith;
  start-ne-step = refl;
  start-ne-pause = refl;
  start-ne-reset = refl;
  start-ne-halt = refl;
  step-ne-pause = refl;
  step-ne-reset = refl;
  step-ne-halt = refl;
  pause-ne-reset = refl;
  pause-ne-halt = refl;
  reset-ne-halt = refl;
}

client_job-runs_example :
    let server =
      remote sample_dto sample_dto-laws sample_rpc sample_rpc-laws counters counters-laws in
    let then =
      after sample_dto sample_dto-laws sample_rpc sample_rpc-laws counters counters-laws two_jobs
        1 in
    (start sample_dto sample_rpc counters server 1 two_jobs ≡ then (some 10))
    × (step sample_dto sample_rpc counters server 1 two_jobs ≡ then (some 10))
    × (pause sample_dto sample_rpc counters server 1 two_jobs ≡ then (some 9))
    × (reset sample_dto sample_rpc counters server 1 two_jobs ≡ then (some 0))
    × (halt sample_dto sample_rpc counters server 1 two_jobs ≡ then none)
    × (set_breakpoint sample_dto sample_rpc counters server 1 two_jobs 2 ≡ then (some 11))
    × (remove_breakpoint sample_dto sample_rpc counters server 1 two_jobs 2 ≡ then (some 9))
client_job-runs_example =
    client_job-runs sample_dto sample_dto-laws sample_rpc sample_rpc-laws counters counters-laws
      two_jobs 1 2 9 (omega arith, omega arith, refl) (omega arith) (omega arith)
