-- ===== src/JobInfo/Reports.antt =====
-- base/server_job_info_io.cpp: every report of a job is one update of one named value, over any `IAnyValueManager`.
use oac_tree_server.Base.{
  ℕ, ◌≡◌, refl, sym, >>=-assoc, Bool, if◌then◌else◌, ◌++◌, List, [], ◌∷◌, Result, ok, ◌>>=◌,
}
use oac_tree_server.External.Scalars.{FitsUint32, FitsInt32}
use oac_tree_server.External.Dto.{Dto}
use oac_tree_server.External.OacTree.{OacTree}
use oac_tree_server.IndexGenerator.{IndexGenerator, new_index}
use oac_tree_server.Protocol.Values.{
  job_state_value, breakpoint_instruction_value, encode_variable_state,
}
use oac_tree_server.Protocol.ValueName.{
  ValueNameType, unknown, instruction, variable, log_entry, message_entry, output_value_entry,
  job_status, breakpoint_instruction, value_name,
}
use oac_tree_server.Output.{LogEntry, MessageEntry, OutputValueEntry}
use oac_tree_server.Output.Codec.{encode_log_entry, encode_message_entry, encode_output_value_entry}
use oac_tree_server.JobInfo.{
  AnyValueManager, JobInfoCall, init_number_of_instructions, instruction_state_updated,
  breakpoint_instruction_updated, variable_updated, job_state_updated, put_value, interrupt,
  message, log,
}
use oac_tree_server.JobInfo.ServerIo.{
  ServerJobInfoIo, init_instructions, publish, update_instruction, update_breakpoint,
  update_variable, update_state, put_output, put_message, put_log, interrupt_request,
}

module _ (d : Dto) (o : OacTree d) where
  open d use {AnyValue, is_empty_value}

  -- The value that carries a report.
  abbrev pub kind : JobInfoCall d o → ValueNameType
  kind (init_number_of_instructions i) = unknown
  kind (instruction_state_updated i state) = instruction
  kind (breakpoint_instruction_updated i) = breakpoint_instruction
  kind (variable_updated i v b) = variable
  kind (job_state_updated n) = job_status
  kind (put_value v text) = output_value_entry
  kind (interrupt id) = unknown
  kind (message text) = message_entry
  kind (log severity text) = log_entry

  abbrev pub index : JobInfoCall d o → ℕ
  index (instruction_state_updated i state) = i
  index (variable_updated i v b) = i
  index _ = 0

  -- The calls that one value carries.
  abbrev pub IsReport : JobInfoCall d o → Type 0
  IsReport (init_number_of_instructions i) = ⊥
  IsReport (interrupt id) = ⊥
  IsReport _ = Unit

  -- A value that is empty stands for one that is not available, and is not reported.
  abbrev pub variable_calls : ℕ → AnyValue → Bool → List (JobInfoCall d o)
  variable_calls i v b = if is_empty_value v then [] else variable_updated i v b ∷ []

  -- The numbers of a report fit their machine types.
  abbrev pub Fits : JobInfoCall d o → Type 0
  Fits (breakpoint_instruction_updated i) = FitsUint32 i
  Fits (job_state_updated n) = FitsUint32 n
  Fits (log severity text) = FitsInt32 severity
  Fits _ = Unit

  -- A value that is empty is not reported.
  unfoldable pub shown : JobInfoCall d o → List (JobInfoCall d o)
  shown (variable_updated i v b) = variable_calls i v b
  shown c = c ∷ []

  unfoldable pub all_shown : List (JobInfoCall d o) → List (JobInfoCall d o)
  all_shown [] = []
  all_shown (c ∷ cs) = shown c ++ all_shown cs

  pub record Generators : Type 0 where
    pub log_idx_gen : IndexGenerator
    pub msg_idx_gen : IndexGenerator
    pub out_val_idx_gen : IndexGenerator

  -- The encoded report, and the generators behind it.
  unfoldable pub encoded_report : Generators → JobInfoCall d o → Result (Generators × AnyValue)
  encoded_report g (init_number_of_instructions i) = ok (g, d.empty_value)
  encoded_report g (interrupt id) = ok (g, d.empty_value)
  encoded_report g (instruction_state_updated i state) = ok (g, o.to_any_value state)
  encoded_report g (breakpoint_instruction_updated i) = ok (g, breakpoint_instruction_value d i)
  encoded_report g (variable_updated i v b) = ok (g, encode_variable_state d v b)
  encoded_report g (job_state_updated n) = job_state_value d o n >>= λ value. ok (g, value)
  encoded_report g (put_value v text) =
      let (gen, idx) = new_index g.out_val_idx_gen in
      (encode_output_value_entry d (record { index = idx; description = text; value = v })
        >>= λ value. ok (record g { out_val_idx_gen = gen }, value))
  encoded_report g (message text) =
      let (gen, idx) = new_index g.msg_idx_gen in
      (encode_message_entry d (record { index = idx; message = text }) >>= λ value.
      ok (record g { msg_idx_gen = gen }, value))
  encoded_report g (log severity text) =
      let (gen, idx) = new_index g.log_idx_gen in
      (encode_log_entry d (record { index = idx; severity = severity; message = text }) >>= λ value.
      ok (record g { log_idx_gen = gen }, value))

  module _ {M : Type 0} (m : AnyValueManager d M) where
    -- The method of the server's `IJobInfoIO` that stands behind a call.
    unfoldable pub report_call :
        ServerJobInfoIo d o m → JobInfoCall d o → Result (ServerJobInfoIo d o m)
    report_call s (init_number_of_instructions n) = init_instructions d o m s n
    report_call s (instruction_state_updated i state) = update_instruction d o m s i state
    report_call s (breakpoint_instruction_updated i) = update_breakpoint d o m s i
    report_call s (variable_updated i v b) = update_variable d o m s i v b
    report_call s (job_state_updated n) = update_state d o m s n
    report_call s (put_value v text) = put_output d o m s v text
    report_call s (interrupt id) = interrupt_request d o m s id
    report_call s (message text) = put_message d o m s text
    report_call s (log severity text) = put_log d o m s severity text

    unfoldable pub report_all :
        ServerJobInfoIo d o m → List (JobInfoCall d o) → Result (ServerJobInfoIo d o m)
    report_all s [] = ok s
    report_all s (c ∷ cs) = report_call s c >>= λ t. report_all t cs

    abbrev pub generators : ServerJobInfoIo d o m → Generators
    generators s = record {
      log_idx_gen = s.log_idx_gen;
      msg_idx_gen = s.msg_idx_gen;
      out_val_idx_gen = s.out_val_idx_gen;
    }

    abbrev pub with_generators : ServerJobInfoIo d o m → Generators → ServerJobInfoIo d o m
    with_generators s g = record s {
      log_idx_gen = g.log_idx_gen;
      msg_idx_gen = g.msg_idx_gen;
      out_val_idx_gen = g.out_val_idx_gen;
    }

    -- A report is the update of the value that carries it.
    pub report_call-publish :
        (s : ServerJobInfoIo d o m) (c : JobInfoCall d o)
        → IsReport c
        → report_call s c ≡ (
            encoded_report (generators s) c >>= λ (r : Generators × AnyValue).
            publish d o m (with_generators s r.0) (value_name s.job_prefix (kind c) (index c)) r.1)
    unfolding report_call encoded_report update_instruction update_breakpoint update_variable
        update_state put_output put_message put_log value_name
    report_call-publish s (init_number_of_instructions i) h = absurd h
    report_call-publish s (interrupt id) h = absurd h
    report_call-publish s (instruction_state_updated i state) h = refl
    report_call-publish s (breakpoint_instruction_updated i) h = refl
    report_call-publish s (variable_updated i v b) h = refl
    report_call-publish s (job_state_updated n) h = sym (>>=-assoc (job_state_value d o n) _ _)
    report_call-publish s (put_value v text) h =
        let entry : OutputValueEntry d = record {
          index = (new_index s.out_val_idx_gen).1;
          description = text;
          value = v;
        } in
        sym (>>=-assoc (encode_output_value_entry d entry) _ _)
    report_call-publish s (message text) h =
        let entry : MessageEntry = record { index = (new_index s.msg_idx_gen).1; message = text } in
        sym (>>=-assoc (encode_message_entry d entry) _ _)
    report_call-publish s (log severity text) h =
        let entry : LogEntry = record {
          index = (new_index s.log_idx_gen).1;
          severity = severity;
          message = text;
        } in
        sym (>>=-assoc (encode_log_entry d entry) _ _)
