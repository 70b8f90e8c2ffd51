-- ===== src/JobInfo/Session.antt =====
-- base/server_job_info_io.cpp over base/client_anyvalue_manager.cpp: from the start of a job to the calls that its client
-- receives.
use oac_tree_server.Base.{ℕ, ◌<◌, List, Bytes, Result, ◌>>=◌}
use oac_tree_server.External.Scalars.{FitsUint32, FitsInt32}
use oac_tree_server.External.Dto.{Dto, DtoLaws}
use oac_tree_server.External.UserInput.{UserInput}
use oac_tree_server.External.OacTree.{OacTree, OacTreeLaws}
use oac_tree_server.JobInfo.{
  JobInfoCall, UserAnswers, init_number_of_instructions, instruction_state_updated,
  breakpoint_instruction_updated, variable_updated, job_state_updated, put_value, interrupt,
  message, log,
}
use oac_tree_server.JobInfo.ClientManager as ClientManager
use oac_tree_server.JobInfo.ClientManager.{
  ClientAnyValueManager, create_callback, client_manager, add_any_values, add_input_handler,
}
use oac_tree_server.IndexGenerator as IndexGenerator
use oac_tree_server.JobInfo.ServerIo.{ServerJobInfoIo, construct, init_instructions}

module _ (d : Dto) (laws : DtoLaws d) (o : OacTree d) (u : UserInput d)
    (tree_laws : OacTreeLaws d u o) (answers : UserAnswers d) where
  abbrev JobServer : Type 0
  JobServer = ServerJobInfoIo d o (client_manager d o u answers)

  pub start : Bytes → ℕ → ℕ → Result JobServer
  start p n k = construct d o (client_manager d o u answers) p n (ClientManager.init d o) >>= λ s.
      init_instructions d o (client_manager d o u answers) s k

  -- What a job with `n` variables and `k` instructions reports.
  unfoldable pub InRange : ℕ → ℕ → JobInfoCall d o → Type 0
  InRange n k (init_number_of_instructions i) = ⊥
  InRange n k (instruction_state_updated i state) = i < k
  InRange n k (breakpoint_instruction_updated i) = FitsUint32 i
  InRange n k (variable_updated i v b) = i < n
  InRange n k (job_state_updated i) = FitsUint32 i
  InRange n k (put_value v text) = Unit
  InRange n k (interrupt id) = Unit
  InRange n k (message text) = Unit
  InRange n k (log severity text) = FitsInt32 severity
