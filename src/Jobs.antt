-- ===== src/Jobs.antt =====
-- i_job_manager.h: the interface to the jobs of a server, on the server and on a client.
pub mod InfoServer
pub mod ControlServer
pub mod Client
pub mod Server
pub mod Remote
pub mod RemoteControl
pub mod RemoteCommand
pub mod Refusals
pub mod ClientJob
pub mod ClientStack
use oac_tree_server.Base.{ℕ, Bool, Bytes, Result}
use oac_tree_server.External.Dto.{Dto}
use oac_tree_server.External.Rpc.{Rpc}

module _ (d : Dto) (r : Rpc d) where
  -- `IJobManager` over the state `M`.
  pub record JobManager (M : Type 0) : Type 0 where
    pub get_server_prefix : M → Result Bytes
    pub get_number_of_jobs : M → Result ℕ
    pub get_job_info : M → ℕ → Result r.JobInfo
    pub edit_breakpoint : M → ℕ → ℕ → Bool → Result M
    pub send_job_command : M → ℕ → ℕ → Result M
