-- ===== src/JobInfo/ClientManager.antt =====
-- base/client_anyvalue_manager.cpp: values that arrive at a client become calls of its `IJobInfoIO`, which
-- are recorded in `calls`.
use oac_tree_server.Base.{
  ℕ, ◌+◌, ◌%◌, ◌^◌, Bool, true, false, not, List, [], ◌∷◌, ◌++◌, Bytes, Option, none, some, Result,
  ok, ◌>>=◌, or_throw, lookup, insert, if◌then◌else◌, ◌==◌, ltb,
}
use oac_tree_server.External.Scalars.{uint32, is_some}
use oac_tree_server.External.Dto.{Dto}
use oac_tree_server.External.Dto.Read.{read_uint32}
use oac_tree_server.External.UserInput.{UserInput, UserInputRequest, UserInputReply}
use oac_tree_server.External.OacTree.{OacTree}
use oac_tree_server.Protocol.Fields.{job_state_field}
use oac_tree_server.Protocol.Values.{decode_breakpoint_instruction_index, decode_variable_state}
use oac_tree_server.Protocol.ValueName.{
  ValueNameType, ValueNameInfo, unknown, instruction, variable, log_entry, message_entry,
  output_value_entry, job_status, breakpoint_instruction, parse_value_name,
}
use oac_tree_server.Output.Codec.{decode_log_entry, decode_message_entry, decode_output_value_entry}
use oac_tree_server.JobInfo.{
  AnyValueManager, JobInfoCall, UserAnswers, init_number_of_instructions, instruction_state_updated,
  breakpoint_instruction_updated, variable_updated, job_state_updated, put_value, interrupt,
  message, log,
}

abbrev u32_mod : ℕ
u32_mod = 2 ^ 32

module _ (d : Dto) (o : OacTree d) where
  open d use {AnyValue, is_empty_value, validate_member_type}

  -- The calls that a callback makes for a value.
  abbrev pub Callback : Type 0
  Callback = AnyValue → Result (List (JobInfoCall d o))

  -- A call for what was decoded, if anything was.
  abbrev pub call_if :
      {A : Type 0} → (A → JobInfoCall d o) → Option A → Result (List (JobInfoCall d o))
  call_if f none = ok []
  call_if f (some a) = ok (f a ∷ [])

  unfoldable pub update_job_state : Callback
  update_job_state v =
      if not (validate_member_type v job_state_field uint32)
      then ok []
      else (or_throw (read_uint32 d v job_state_field) >>= λ n. ok (job_state_updated n ∷ []))

  -- An exception of the conversion is caught.
  unfoldable pub update_instruction_state : ℕ → Callback
  update_instruction_state instr_idx v =
      call_if (instruction_state_updated instr_idx) (o.to_instruction_state v)

  abbrev pub variable_call : ℕ → AnyValue × Bool → List (JobInfoCall d o)
  variable_call var_idx (value, state) =
      if is_empty_value value then [] else variable_updated var_idx value state ∷ []

  unfoldable pub update_variable_state : ℕ → Callback
  update_variable_state var_idx v = decode_variable_state d v >>= λ r. ok (variable_call var_idx r)

  unfoldable pub update_log_entry : Callback
  update_log_entry v = decode_log_entry d v >>= call_if (λ e. log e.severity e.message)

  unfoldable pub update_message_entry : Callback
  update_message_entry v = decode_message_entry d v >>= call_if (λ e. message e.message)

  unfoldable pub update_output_value_entry : Callback
  update_output_value_entry v =
      decode_output_value_entry d v >>= call_if (λ e. put_value e.value e.description)

  unfoldable pub update_breakpoint_instruction : Callback
  update_breakpoint_instruction v =
      decode_breakpoint_instruction_index d v >>= call_if breakpoint_instruction_updated

  unfoldable pub create_callback : ValueNameInfo → Callback
  create_callback value_name_info = elim value_name_info.val_type [
    | unknown ↦ λ v. ok []
    | instruction ↦ update_instruction_state value_name_info.idx
    | variable ↦ update_variable_state value_name_info.idx
    | log_entry ↦ update_log_entry
    | message_entry ↦ update_message_entry
    | output_value_entry ↦ update_output_value_entry
    | job_status ↦ update_job_state
    | breakpoint_instruction ↦ update_breakpoint_instruction
  ]

  pub record ClientAnyValueManager : Type 0 where
    pub cb_map : List (Bytes × Callback)
    pub calls : List (JobInfoCall d o)

  unfoldable pub init : ClientAnyValueManager
  init = record { cb_map = []; calls = [] }

  abbrev pub is_instruction : ValueNameType → Bool
  is_instruction instruction = true
  is_instruction _ = false

  -- `++n_instr` where the name is that of an instruction.
  abbrev pub count_instruction : ℕ → ValueNameType → ℕ
  count_instruction n_instr t = if is_instruction t then (n_instr + 1) % u32_mod else n_instr

  unfoldable pub register : ClientAnyValueManager → Bytes → AnyValue → Result ClientAnyValueManager
  register s name value =
      let cb = create_callback (parse_value_name name) in
      (cb value >>= λ made.
      ok (record s { cb_map = insert name cb s.cb_map; calls = s.calls ++ made }))

  -- The loop over the values; `none` is the early return at a name that is known.
  unfoldable pub add_loop :
      ClientAnyValueManager
      → ℕ
      → List (Bytes × AnyValue)
      → Result (ClientAnyValueManager × Option ℕ)
  unfolding register
  add_loop s n_instr [] = ok (s, some n_instr)
  add_loop s n_instr ((name, value) ∷ rest) = elim (is_some (lookup name s.cb_map)) [
    | true ↦ ok (s, none)
    | false ↦ register s name value >>= λ t.
        add_loop t (count_instruction n_instr (parse_value_name name).val_type) rest
  ]

  abbrev pub end_add : ClientAnyValueManager × Option ℕ → ClientAnyValueManager × Bool
  end_add (s, none) = (s, false)
  end_add (s, some n_instr) = (
    if ltb 0 n_instr
        then record s { calls = s.calls ++ init_number_of_instructions n_instr ∷ [] }
        else s,
    true,
  )

  unfoldable pub add_any_values :
      ClientAnyValueManager → List (Bytes × AnyValue) → Result (ClientAnyValueManager × Bool)
  unfolding add_loop
  add_any_values s name_value_set = add_loop s 0 name_value_set >>= λ r. ok (end_add r)

  abbrev pub add_input_handler :
      ClientAnyValueManager → Bytes → Result (ClientAnyValueManager × Bool)
  add_input_handler s input_server_name = ok (s, true)

  unfoldable pub update_any_value :
      ClientAnyValueManager → Bytes → AnyValue → Result (ClientAnyValueManager × Bool)
  update_any_value s name value = elim (lookup name s.cb_map) [
    | none ↦ ok (s, false)
    | some cb ↦ cb value >>= λ made. ok (record s { calls = s.calls ++ made }, true)
  ]

  module _ (u : UserInput d) (answers : UserAnswers d) where
    unfoldable pub user_value_reply : ℕ → UserInputRequest d → UserInputReply d
    user_value_reply id request = elim (o.parse_user_value_request request) [
      | none ↦ u.invalid_reply
      | some r ↦
          let (result, value) = answers.get_user_value id r.0 r.1 in
          o.create_user_value_reply result value
    ]

    unfoldable pub user_choice_reply : ℕ → UserInputRequest d → UserInputReply d
    user_choice_reply id request = elim (o.parse_user_choice_request request) [
      | none ↦ u.invalid_reply
      | some r ↦ o.create_user_choice_reply true (answers.get_user_choice id r.0 r.1)
    ]

    unfoldable pub get_user_input :
        ClientAnyValueManager
        → Bytes
        → ℕ
        → UserInputRequest d
        → Result (ClientAnyValueManager × UserInputReply d)
    unfolding user_value_reply user_choice_reply
    get_user_input s input_server_name id request =
        if request.request_type == u.user_value_type
        then ok (s, user_value_reply id request)
        else if request.request_type == u.user_choice_type
        then ok (s, user_choice_reply id request)
        else ok (s, u.invalid_reply)

    abbrev pub interrupt_input : ClientAnyValueManager → Bytes → ℕ → Result ClientAnyValueManager
    interrupt_input s input_server_name id = ok (record s { calls = s.calls ++ interrupt id ∷ [] })

    -- The class as an `IAnyValueManager`.
    abbrev pub client_manager : AnyValueManager d ClientAnyValueManager
    client_manager = record {
      add_any_values = add_any_values;
      add_input_handler = add_input_handler;
      update_any_value = update_any_value;
      get_user_input = get_user_input;
      interrupt = interrupt_input;
    }
