-- ===== src/Tests/Jobs.antt =====
-- A job that reports to a client, at concrete reports.
use oac_tree_server.Base.{◌≡◌, true, [], ◌∷◌, List, ok, codes, refl, Bytes, bytes_eq, lookup}
use oac_tree_server.External.Scalars.{pos, of_uint32, has_name}
use oac_tree_server.IndexGenerator as IndexGenerator
use oac_tree_server.JobInfo.{
  JobInfoCall, instruction_state_updated, variable_updated, job_state_updated, message, log,
}
use oac_tree_server.JobInfo.ClientManager as ClientManager
use oac_tree_server.JobInfo.ClientManager.{client_manager, add_any_values}
use oac_tree_server.JobInfo.ServerIo.{ServerJobInfoIo, request_value, assign_reply, request_choice}
use oac_tree_server.JobInfo.Ask.{answered, request-answers}
use oac_tree_server.JobInfo.Registers.{distinct, Fresh, Registers, add_any_values-Registers}
use oac_tree_server.Tests.SampleDto.{sample_dto, sample_dto-laws, Value, nothing, leaf}
use oac_tree_server.Tests.SampleInput.{sample_input, sample_input-laws}
use oac_tree_server.Tests.SampleTree.{sample_tree, sample_tree-laws, sample_answers}

abbrev reports : List (JobInfoCall sample_dto sample_tree)
reports =
    job_state_updated 2
    ∷ instruction_state_updated 1 5
    ∷ variable_updated 0 nothing true
    ∷ message (codes "running")
    ∷ log (pos 4) (codes "done")
    ∷ []

abbrev prefix : Bytes
prefix = codes "LOOP:"

abbrev fresh_client : ClientManager.ClientAnyValueManager sample_dto sample_tree
fresh_client = ClientManager.init sample_dto sample_tree

abbrev sample_server :
    ServerJobInfoIo sample_dto sample_tree
      (client_manager sample_dto sample_tree sample_input sample_answers)
sample_server = record {
  job_prefix = prefix;
  n_vars = 0;
  manager = fresh_client;
  log_idx_gen = IndexGenerator.init;
  msg_idx_gen = IndexGenerator.init;
  out_val_idx_gen = IndexGenerator.init;
}

request-answers_example :
    let manager = client_manager sample_dto sample_tree sample_input sample_answers in
    (request_value sample_dto sample_tree manager sample_server 3 nothing (codes "level") ≡ (
      let (w, b) =
        assign_reply sample_dto sample_tree manager nothing (
          answered sample_dto sample_tree sample_input sample_answers (true, leaf (of_uint32 3))) in
      ok (sample_server, w, b)))
    × (request_choice sample_dto sample_tree manager sample_server 3
          (codes "yes" ∷ codes "no" ∷ [])
          nothing
        ≡ ok (sample_server, pos 1))
request-answers_example =
    request-answers sample_dto sample_tree sample_input sample_answers sample_input-laws
      sample_tree-laws sample_server 3 nothing (codes "level") (codes "yes" ∷ codes "no" ∷ [])

abbrev two_values : List (Bytes × Value)
two_values = (codes "LOOP:STATE", nothing) ∷ (codes "LOOP:VAR-7", nothing) ∷ []

two_values-Fresh : Fresh sample_dto sample_dto-laws sample_tree fresh_client two_values
unfolding distinct has_name bytes_eq ClientManager.init lookup
two_values-Fresh = (refl, λ name h. refl)

add_any_values-Registers_example :
    (t : ClientManager.ClientAnyValueManager sample_dto sample_tree) × (add_any_values sample_dto
        sample_tree fresh_client two_values
      ≡ ok (t, true))
    × Registers sample_dto sample_dto-laws sample_tree fresh_client two_values t
add_any_values-Registers_example =
    add_any_values-Registers sample_dto sample_dto-laws sample_tree fresh_client two_values
      two_values-Fresh
