-- ===== src/JobInfo/ValueSets.antt =====
-- base/i_anyvalue_io.cpp and base/anyvalue_io_helper.cpp: the values of a job, and their registration.
use oac_tree_server.Base.{ℕ, zero, suc, List, [], ◌∷◌, Bytes, Result, ok, ◌>>=◌}
use oac_tree_server.External.Dto.{Dto}
use oac_tree_server.External.OacTree.{OacTree}
use oac_tree_server.Protocol.Names.{
  instruction_name, breakpoint_instruction_name, variable_name, log_entry_name, message_entry_name,
  output_value_entry_name, job_state_name, input_server_name,
}
use oac_tree_server.Protocol.Values.{
  variable_any_value, job_state_value, breakpoint_instruction_value,
}
use oac_tree_server.Output.Codec.{
  log_entry_any_value, message_entry_any_value, output_value_entry_any_value,
}
use oac_tree_server.JobInfo.{AnyValueIo}

module _ (d : Dto) (o : OacTree d) where
  open d use {AnyValue}

  -- `n` values from the index `i` on.
  unfoldable pub variable_values : Bytes → ℕ → ℕ → List (Bytes × AnyValue)
  variable_values job_prefix i zero = []
  variable_values job_prefix i (suc n) =
      (variable_name job_prefix i, variable_any_value d) ∷ variable_values job_prefix (suc i) n

  unfoldable pub initial_value_set : Bytes → ℕ → Result (List (Bytes × AnyValue))
  unfolding variable_values
  initial_value_set job_prefix n_vars = do
    job_value ← job_state_value d o o.initial_state
    ok (
        (job_state_name job_prefix, job_value)
        ∷ (
          breakpoint_instruction_name job_prefix,
          breakpoint_instruction_value d o.invalid_instruction_index,
        )
        ∷ (log_entry_name job_prefix, log_entry_any_value d)
        ∷ (message_entry_name job_prefix, message_entry_any_value d)
        ∷ (output_value_entry_name job_prefix, output_value_entry_any_value d)
        ∷ variable_values job_prefix 0 n_vars)

  unfoldable pub instruction_values : Bytes → ℕ → ℕ → List (Bytes × AnyValue)
  instruction_values job_prefix i zero = []
  instruction_values job_prefix i (suc n) =
      (instruction_name job_prefix i, o.instruction_state_any_value)
      ∷ instruction_values job_prefix (suc i) n

  unfoldable pub instruction_value_set : Bytes → ℕ → List (Bytes × AnyValue)
  unfolding instruction_values
  instruction_value_set job_prefix n_instr = instruction_values job_prefix 0 n_instr

  module _ {M : Type 0} (m : AnyValueIo d M) where
    -- Neither result is used.
    unfoldable pub initialize_job_and_variables : M → Bytes → ℕ → Result M
    initialize_job_and_variables s job_prefix n_vars = do
      value_set ← initial_value_set job_prefix n_vars
      (t, _) ← m.add_any_values s value_set
      (t', _) ← m.add_input_handler t (input_server_name job_prefix)
      ok t'

    unfoldable pub initialize_instructions : M → Bytes → ℕ → Result M
    initialize_instructions s job_prefix n_instr = do
      (t, _) ← m.add_any_values s (instruction_value_set job_prefix n_instr)
      ok t
