-- ===== src/External/LocalJob.antt =====
-- `LocalJob` and `Procedure` of the oac-tree core. `none` is an exception of a call on a job.
use oac_tree_server.Base.{ℕ, Option, ◌≡◌, ◌<◌, ◌^◌, ◌==◌, false}
use oac_tree_server.External.Dto.{Dto}
use oac_tree_server.External.Rpc.{Rpc}

module _ (d : Dto) (r : Rpc d) where
  pub record LocalJobs : Type 1 where
    pub Procedure : Type 0
    pub Job : Type 0
    -- The number of the names of the workspace's variables.
    pub number_of_variables : Procedure → ℕ
    pub create : Procedure → Option Job
    pub get_info : Job → r.JobInfo
    pub set_breakpoint : Job → ℕ → Option Job
    pub remove_breakpoint : Job → ℕ → Option Job
    pub start : Job → Option Job
    pub step : Job → Option Job
    pub pause : Job → Option Job
    pub reset : Job → Option Job
    pub halt : Job → Option Job
    -- The numbers of `JobCommand::kStart`, `kStep`, `kPause`, `kReset` and `kHalt`.
    pub start_command : ℕ
    pub step_command : ℕ
    pub pause_command : ℕ
    pub reset_command : ℕ
    pub halt_command : ℕ

  -- The commands of a job are numbers that differ, and come before `kTerminate`.
  pub record LocalJobsLaws (l : LocalJobs) : Type 0 where
    pub terminate-fits : r.terminate < 2 ^ 32
    pub start-lt : l.start_command < r.terminate
    pub step-lt : l.step_command < r.terminate
    pub pause-lt : l.pause_command < r.terminate
    pub reset-lt : l.reset_command < r.terminate
    pub halt-lt : l.halt_command < r.terminate
    pub start-ne-step : (l.step_command == l.start_command) ≡ false
    pub start-ne-pause : (l.pause_command == l.start_command) ≡ false
    pub start-ne-reset : (l.reset_command == l.start_command) ≡ false
    pub start-ne-halt : (l.halt_command == l.start_command) ≡ false
    pub step-ne-pause : (l.pause_command == l.step_command) ≡ false
    pub step-ne-reset : (l.reset_command == l.step_command) ≡ false
    pub step-ne-halt : (l.halt_command == l.step_command) ≡ false
    pub pause-ne-reset : (l.reset_command == l.pause_command) ≡ false
    pub pause-ne-halt : (l.halt_command == l.pause_command) ≡ false
    pub reset-ne-halt : (l.halt_command == l.reset_command) ≡ false
