-- ===== src/JobInfo/Forward.antt =====
-- base/server_job_info_io.cpp over base/client_anyvalue_manager.cpp: what a job reports on the server becomes the
-- same call on the client.
use oac_tree_server.Base.{
  ℕ, ◌≡◌, ◌∙◌, refl, Bool, List, [], ◌∷◌, ◌++◌, some, Result, ok, throws, ◌>>=◌, lookup, Bytes,
}
use oac_tree_server.External.Scalars.{ℤ, of_uint32, FitsUint32, FitsInt32}
use oac_tree_server.External.Dto.{Dto, DtoLaws}
use oac_tree_server.External.Dto.Members.{validate-at, read_uint32-at}
use oac_tree_server.External.UserInput.{UserInput}
use oac_tree_server.External.OacTree.{OacTree, OacTreeLaws}
use oac_tree_server.IndexGenerator.{new_index}
use oac_tree_server.IndexGenerator.Laws.{new_index_valid}
use oac_tree_server.Protocol.Fields.{job_state_type, job_state_field}
use oac_tree_server.Protocol.Values.{encode_variable_state, breakpoint_instruction_value}
use oac_tree_server.Protocol.Values.RoundTrip.{
  job_state_valid, job_state_value_lem, decode-breakpoint_value, decode-variable_state,
}
use oac_tree_server.Protocol.ValueName.{
  ValueNameType, instruction, variable, job_status, breakpoint_instruction, info, value_name,
}
use oac_tree_server.Output.{LogEntry, MessageEntry, OutputValueEntry}
use oac_tree_server.Output.Codec.{
  encode_log_entry, decode_log_entry, encode_message_entry, decode_message_entry,
  encode_output_value_entry, decode_output_value_entry,
}
use oac_tree_server.Output.RoundTrip.{
  decode-encode_log_entry, decode-encode_message_entry, decode-encode_output_value_entry,
}
use oac_tree_server.JobInfo.{
  JobInfoCall, UserAnswers, init_number_of_instructions, instruction_state_updated,
  breakpoint_instruction_updated, variable_updated, job_state_updated, put_value, interrupt,
  message, log,
}
use oac_tree_server.JobInfo.ClientManager.{
  Callback, create_callback, update_any_value, client_manager, update_job_state,
  update_instruction_state, update_variable_state, update_log_entry, update_message_entry,
  update_output_value_entry, update_breakpoint_instruction,
}
use oac_tree_server.JobInfo.Reports.{
  kind, index, IsReport, Fits, shown, variable_calls, Generators, encoded_report, report_call,
  generators, with_generators, report_call-publish,
}
use oac_tree_server.JobInfo.ServerIo.{ServerJobInfoIo, publish, interrupt_request}

module _ (d : Dto) (laws : DtoLaws d) (o : OacTree d) (u : UserInput d)
    (tree_laws : OacTreeLaws d u o) where
  open d use {AnyValue}

  -- The callback of a kind and an index, at the value that the server encodes, makes the call.
  at_instruction :
      (i : ℕ) (s : o.InstructionState)
      → create_callback d o (info instruction i) (o.to_any_value s)
        ≡ ok (instruction_state_updated i s ∷ [])
  unfolding create_callback update_instruction_state
  at_instruction i s = rw (tree_laws.to_instruction_state-to_any_value s) refl

  at_breakpoint :
      (i : ℕ)
      → FitsUint32 i
      → create_callback d o (info breakpoint_instruction 0) (breakpoint_instruction_value d i)
        ≡ ok (breakpoint_instruction_updated i ∷ [])
  unfolding create_callback update_breakpoint_instruction
  at_breakpoint i h = rw (decode-breakpoint_value d laws i h) refl

  at_variable :
      (i : ℕ) (v : AnyValue) (b : Bool)
      → create_callback d o (info variable i) (encode_variable_state d v b)
        ≡ ok (variable_calls d o i v b)
  unfolding create_callback update_variable_state
  at_variable i v b = rw (decode-variable_state d laws v b) refl

  at_job_state :
      (n : ℕ)
      → FitsUint32 n
      → create_callback d o
          (info job_status 0)
          (d.struct job_state_type ((job_state_field, d.scalar (of_uint32 n)) ∷ []))
        ≡ ok (job_state_updated n ∷ [])
  unfolding create_callback update_job_state
  at_job_state n h =
      rw
        (
          validate-at d laws job_state_type _ (job_state_valid d laws n) 0 job_state_field
              (of_uint32 n) refl,
          read_uint32-at d laws job_state_type _ (job_state_valid d laws n) 0 job_state_field n refl
              h,
        )
        refl

  -- An encoder that succeeds with a value the decoder reads back.
  encoded_then :
      {A : Type 0} (r : Result AnyValue) (f : AnyValue → Result A) (a : A)
      → (r >>= f) ≡ ok a
      → (v : AnyValue) × (r ≡ ok v) × (f v ≡ ok a)
  encoded_then (ok v) f a h = (v, refl, h)
  encoded_then (throws e) f a h = cc

  -- A report is encoded into a value from which the callback of its kind makes the same report.
  abbrev pub Shows : Generators d o → JobInfoCall d o → Type 0
  Shows g c =
      (g' : Generators d o) × (v : AnyValue) × (encoded_report d o g c ≡ ok (g', v))
      × (create_callback d o (info (kind d o c) (index d o c)) v ≡ ok (shown d o c))

  log-Shows : (g : Generators d o) (z : ℤ) (text : Bytes) → FitsInt32 z → Shows g (log z text)
  unfolding encoded_report shown create_callback update_log_entry
  log-Shows g z text f =
      let (gen, idx) = new_index g.log_idx_gen in
      let entry : LogEntry = record { index = idx; severity = z; message = text } in
      let (v, e, k) =
        encoded_then (encode_log_entry d entry) (decode_log_entry d) _
          (decode-encode_log_entry d laws entry (new_index_valid g.log_idx_gen).1 f) in
      (record g { log_idx_gen = gen }, v, rw e refl, rw k refl)

  message-Shows : (g : Generators d o) (text : Bytes) → Shows g (message text)
  unfolding encoded_report shown create_callback update_message_entry
  message-Shows g text =
      let (gen, idx) = new_index g.msg_idx_gen in
      let entry : MessageEntry = record { index = idx; message = text } in
      let (v, e, k) =
        encoded_then (encode_message_entry d entry) (decode_message_entry d) _
          (decode-encode_message_entry d laws entry (new_index_valid g.msg_idx_gen).1) in
      (record g { msg_idx_gen = gen }, v, rw e refl, rw k refl)

  put_value-Shows : (g : Generators d o) (w : AnyValue) (text : Bytes) → Shows g (put_value w text)
  unfolding encoded_report shown create_callback update_output_value_entry
  put_value-Shows g w text =
      let (gen, idx) = new_index g.out_val_idx_gen in
      let entry : OutputValueEntry d = record { index = idx; description = text; value = w } in
      let (v, e, k) =
        encoded_then (encode_output_value_entry d entry) (decode_output_value_entry d) _
          (decode-encode_output_value_entry d laws entry (new_index_valid g.out_val_idx_gen).1) in
      (record g { out_val_idx_gen = gen }, v, rw e refl, rw k refl)

  pub encoded_report-Shows :
      (g : Generators d o) (c : JobInfoCall d o) → IsReport d o c → Fits d o c → Shows g c
  unfolding encoded_report shown
  encoded_report-Shows g (init_number_of_instructions i) r h = absurd r
  encoded_report-Shows g (interrupt id) r h = absurd r
  encoded_report-Shows g (instruction_state_updated i state) r h =
      (g, o.to_any_value state, refl, at_instruction i state)
  encoded_report-Shows g (breakpoint_instruction_updated i) r h =
      (g, breakpoint_instruction_value d i, refl, at_breakpoint i h)
  encoded_report-Shows g (variable_updated i v b) r h =
      (g, encode_variable_state d v b, refl, at_variable i v b)
  encoded_report-Shows g (job_state_updated n) r h =
      (g, _, rw (job_state_value_lem d laws o n) refl, at_job_state n h)
  encoded_report-Shows g (put_value v text) r h = put_value-Shows g v text
  encoded_report-Shows g (message text) r h = message-Shows g text
  encoded_report-Shows g (log severity text) r h = log-Shows g severity text h

  module _ (answers : UserAnswers d) where
    abbrev pub Server : Type 0
    Server = ServerJobInfoIo d o (client_manager d o u answers)

    -- The value of a kind and an index is registered with its callback.
    abbrev pub Registered : Server → ValueNameType → ℕ → Type 0
    Registered s t i =
        lookup (value_name s.job_prefix t i) s.manager.cb_map
        ≡ some (create_callback d o (info t i))

    abbrev pub Appends : Server → Result Server → List (JobInfoCall d o) → Type 0
    Appends s r cs =
        (t : Server) × (r ≡ ok t)
        × (t.job_prefix ≡ s.job_prefix)
        × (t.manager.cb_map ≡ s.manager.cb_map)
        × (t.manager.calls ≡ s.manager.calls ++ cs)

    publish-Appends :
        (s : Server) (name : Bytes) (v : AnyValue) (cb : Callback d o) (cs : List (JobInfoCall d o))
        → lookup name s.manager.cb_map ≡ some cb
        → cb v ≡ ok cs
        → Appends s (publish d o (client_manager d o u answers) s name v) cs
    unfolding publish update_any_value
    publish-Appends s name v cb cs h k =
        let t : Server = record s {
          manager = record s.manager { calls = s.manager.calls ++ cs };
        } in
        (t, rw (publish, update_any_value, h, k) refl, refl, refl, refl)

    -- The method of the server's `IJobInfoIO` that stands behind a call.
    abbrev pub forward : Server → JobInfoCall d o → Result Server
    forward s c = report_call d o (client_manager d o u answers) s c

    -- What the call needs: the value that carries it is registered, and its numbers fit.
    unfoldable pub Carries : Server → JobInfoCall d o → Type 0
    Carries s (init_number_of_instructions n) = ⊥
    Carries s (interrupt id) = Unit
    Carries s c = Registered s (kind d o c) (index d o c) × Fits d o c

    report-Appends :
        (s : Server) (c : JobInfoCall d o)
        → IsReport d o c
        → Registered s (kind d o c) (index d o c)
        → Fits d o c
        → Appends s (forward s c) (shown d o c)
    report-Appends s c r h f =
        let m = client_manager d o u answers in
        let (g, v, e, k) = encoded_report-Shows (generators d o m s) c r f in
        let (t, p, q, a, b) = publish-Appends (with_generators d o m s g) _ v _ _ h k in
        (t, report_call-publish d o m s c r ∙ rw e p, q, a, b)

    -- A call that the server's `IJobInfoIO` receives, whose value is registered with the client and whose numbers fit,
    -- returns, and the client's `IJobInfoIO` receives the same call, except that a variable's empty value
    -- is not reported. No registration is changed.
    pub forward-Appends :
        (s : Server) (c : JobInfoCall d o) → Carries s c → Appends s (forward s c) (shown d o c)
    unfolding report_call Carries shown interrupt_request
    forward-Appends s (init_number_of_instructions n) h = absurd h
    forward-Appends s (interrupt id) h =
        let t : Server = record s {
          manager = record s.manager { calls = s.manager.calls ++ interrupt id ∷ [] };
        } in
        (t, refl, refl, refl, refl)
    forward-Appends s (instruction_state_updated i state) (h, f) =
        report-Appends s (instruction_state_updated i state) (tt {0}) h f
    forward-Appends s (breakpoint_instruction_updated i) (h, f) =
        report-Appends s (breakpoint_instruction_updated i) (tt {0}) h f
    forward-Appends s (variable_updated i v b) (h, f) =
        report-Appends s (variable_updated i v b) (tt {0}) h f
    forward-Appends s (job_state_updated n) (h, f) =
        report-Appends s (job_state_updated n) (tt {0}) h f
    forward-Appends s (put_value v text) (h, f) = report-Appends s (put_value v text) (tt {0}) h f
    forward-Appends s (message text) (h, f) = report-Appends s (message text) (tt {0}) h f
    forward-Appends s (log severity text) (h, f) = report-Appends s (log severity text) (tt {0}) h f
