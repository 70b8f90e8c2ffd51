-- ===== src/JobInfo/ServerIo.antt =====
-- base/server_job_info_io.cpp: the `IJobInfoIO` of a job on the server, over any `IAnyValueManager`.
use oac_tree_server.Base.{ℕ, Bool, true, false, List, Bytes, Option, none, some, Result, ok, ◌>>=◌}
use oac_tree_server.External.Scalars.{ℤ, negsuc}
use oac_tree_server.External.Dto.{Dto}
use oac_tree_server.External.OacTree.{OacTree}
use oac_tree_server.IndexGenerator as IndexGenerator
use oac_tree_server.IndexGenerator.{new_index}
use oac_tree_server.Protocol.Names.{
  instruction_name, breakpoint_instruction_name, variable_name, log_entry_name, message_entry_name,
  output_value_entry_name, job_state_name, input_server_name,
}
use oac_tree_server.Protocol.Values.{
  job_state_value, breakpoint_instruction_value, encode_variable_state,
}
use oac_tree_server.Output.Codec.{encode_log_entry, encode_message_entry, encode_output_value_entry}
use oac_tree_server.JobInfo.{AnyValueManager, as_io}
use oac_tree_server.JobInfo.ValueSets.{initialize_job_and_variables, initialize_instructions}

module _ (d : Dto) (o : OacTree d) {M : Type 0} (m : AnyValueManager d M) where
  open d use {AnyValue}

  -- `manager` is the state of the object that `m_av_manager` refers to.
  pub record ServerJobInfoIo : Type 0 where
    pub job_prefix : Bytes
    pub n_vars : ℕ
    pub manager : M
    pub log_idx_gen : IndexGenerator.IndexGenerator
    pub msg_idx_gen : IndexGenerator.IndexGenerator
    pub out_val_idx_gen : IndexGenerator.IndexGenerator

  unfoldable pub construct : Bytes → ℕ → M → Result ServerJobInfoIo
  construct job_prefix n_vars s = do
    t ← initialize_job_and_variables d o (as_io d m) s job_prefix n_vars
    ok (record {
      job_prefix = job_prefix;
      n_vars = n_vars;
      manager = t;
      log_idx_gen = IndexGenerator.init;
      msg_idx_gen = IndexGenerator.init;
      out_val_idx_gen = IndexGenerator.init;
    })

  unfoldable pub init_instructions : ServerJobInfoIo → ℕ → Result ServerJobInfoIo
  init_instructions s n_instr = do
    t ← initialize_instructions d o (as_io d m) s.manager s.job_prefix n_instr
    ok (record s { manager = t })

  -- The result of `UpdateAnyValue` is not used.
  unfoldable pub publish : ServerJobInfoIo → Bytes → AnyValue → Result ServerJobInfoIo
  publish s name value = do
    (t, _) ← m.update_any_value s.manager name value
    ok (record s { manager = t })

  unfoldable pub update_instruction :
      ServerJobInfoIo → ℕ → o.InstructionState → Result ServerJobInfoIo
  unfolding publish
  update_instruction s instr_idx state =
      publish s (instruction_name s.job_prefix instr_idx) (o.to_any_value state)

  unfoldable pub update_breakpoint : ServerJobInfoIo → ℕ → Result ServerJobInfoIo
  unfolding publish
  update_breakpoint s instr_idx =
      publish s (breakpoint_instruction_name s.job_prefix)
        (breakpoint_instruction_value d instr_idx)

  unfoldable pub update_variable : ServerJobInfoIo → ℕ → AnyValue → Bool → Result ServerJobInfoIo
  unfolding publish
  update_variable s var_idx value connected =
      publish s (variable_name s.job_prefix var_idx) (encode_variable_state d value connected)

  unfoldable pub update_state : ServerJobInfoIo → ℕ → Result ServerJobInfoIo
  unfolding publish
  update_state s state = do
    value ← job_state_value d o state
    publish s (job_state_name s.job_prefix) value

  unfoldable pub put_output : ServerJobInfoIo → AnyValue → Bytes → Result ServerJobInfoIo
  unfolding publish
  put_output s value description = do
    let (gen, idx) = new_index s.out_val_idx_gen
    encoded ←
        encode_output_value_entry d
          (record { index = idx; description = description; value = value })
    publish (record s { out_val_idx_gen = gen }) (output_value_entry_name s.job_prefix) encoded

  unfoldable pub put_message : ServerJobInfoIo → Bytes → Result ServerJobInfoIo
  unfolding publish
  put_message s text = do
    let (gen, idx) = new_index s.msg_idx_gen
    encoded ← encode_message_entry d (record { index = idx; message = text })
    publish (record s { msg_idx_gen = gen }) (message_entry_name s.job_prefix) encoded

  unfoldable pub put_log : ServerJobInfoIo → ℤ → Bytes → Result ServerJobInfoIo
  unfolding publish
  put_log s severity text = do
    let (gen, idx) = new_index s.log_idx_gen
    encoded ← encode_log_entry d (record { index = idx; severity = severity; message = text })
    publish (record s { log_idx_gen = gen }) (log_entry_name s.job_prefix) encoded

  -- What is left in the reference argument `value`, and the result of `GetUserValue`.
  abbrev pub assign_reply : AnyValue → Option AnyValue → AnyValue × Bool
  assign_reply value none = (value, false)
  assign_reply value (some reply) = elim (o.try_assign value reply) [
    | none ↦ (value, false)
    | some w ↦ (w, true)
  ]

  unfoldable pub request_value :
      ServerJobInfoIo → ℕ → AnyValue → Bytes → Result (ServerJobInfoIo × AnyValue × Bool)
  request_value s id value description = do
    (t, response) ←
        m.get_user_input s.manager (input_server_name s.job_prefix) id
          (o.create_user_value_request value description)
    let (w, assigned) = assign_reply value (o.parse_user_value_reply response)
    ok (record s { manager = t }, w, assigned)

  abbrev pub choice_or_minus_one : Option ℤ → ℤ
  choice_or_minus_one none = negsuc 0
  choice_or_minus_one (some z) = z

  unfoldable pub request_choice :
      ServerJobInfoIo → ℕ → List Bytes → AnyValue → Result (ServerJobInfoIo × ℤ)
  request_choice s id options metadata = do
    (t, response) ←
        m.get_user_input s.manager (input_server_name s.job_prefix) id
          (o.create_user_choice_request options metadata)
    ok (record s { manager = t }, choice_or_minus_one (o.parse_user_choice_reply response))

  unfoldable pub interrupt_request : ServerJobInfoIo → ℕ → Result ServerJobInfoIo
  interrupt_request s id = do
    t ← m.interrupt s.manager (input_server_name s.job_prefix) id
    ok (record s { manager = t })
