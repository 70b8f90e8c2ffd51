-- ===== src/JobInfo/Callbacks.antt =====
-- base/client_anyvalue_manager.cpp: a callback takes every value without an exception.
use oac_tree_server.Base.{
  ℕ, ◌≡◌, inl, inr, refl, sym, ◌∙◌, Bool-cases, false, [], ◌∷◌, Option, none, some, Result, ok,
  ◌>>=◌, arith,
}
use oac_tree_server.External.Scalars.{of_uint32, uint32, some_of_is_some}
use oac_tree_server.External.Dto.{Dto, DtoLaws}
use oac_tree_server.External.Dto.Validated.{validated-uint32, validated-boolean}
use oac_tree_server.External.OacTree.{OacTree}
use oac_tree_server.Protocol.Fields.{
  job_state_field, variable_value_field, variable_connected_field,
}
use oac_tree_server.Protocol.Values.{
  decode_breakpoint_instruction_index, decode_variable_state, validate_variable,
  read_variable_state,
}
use oac_tree_server.Protocol.ValueName.{
  ValueNameType, unknown, instruction, variable, log_entry, message_entry, output_value_entry,
  job_status, breakpoint_instruction, info,
}
use oac_tree_server.Output.Total.{Finds, decode_entry-Finds}
use oac_tree_server.JobInfo.{
  JobInfoCall, instruction_state_updated, job_state_updated, breakpoint_instruction_updated,
}
use oac_tree_server.JobInfo.ClientManager.{
  call_if, variable_call, create_callback, update_job_state, update_instruction_state,
  update_variable_state, update_log_entry, update_message_entry, update_output_value_entry,
  update_breakpoint_instruction,
}

module _ (d : Dto) (laws : DtoLaws d) (o : OacTree d) (v : d.AnyValue) where
  open d use {AnyValue, has_field, field, validate_member_type, has_type, index_field}

  -- A result that is no exception.
  abbrev pub Returns {ℓ} : {A : Type ℓ} → Result A → Type ℓ
  Returns {A = A} r = (a : A) × (r ≡ ok a)

  found-Returns :
      {A : Type 0} {P : A → Type 0} (r : Result (Option A)) (f : A → JobInfoCall d o)
      → Finds r P
      → Returns (r >>= call_if d o f)
  found-Returns r f (inl (e, _)) = ([], rw e refl)
  found-Returns r f (inr (a, e, _)) = (f a ∷ [], rw e refl)

  job_state-Returns : Returns (update_job_state d o v)
  unfolding update_job_state
  job_state-Returns = elim (Bool-cases (validate_member_type v job_state_field uint32)) [
    | inl e ↦
        let (n, _, h, _) = validated-uint32 d laws v job_state_field e in
        (job_state_updated n ∷ [], rw (e, h) refl)
    | inr e ↦ ([], rw e refl)
  ]

  instruction-Returns : (i : ℕ) → Returns (update_instruction_state d o i v)
  unfolding update_instruction_state
  instruction-Returns i = by_state (o.to_instruction_state v)
    where
      by_state :
          (s : Option o.InstructionState) → Returns (call_if d o (instruction_state_updated i) s)
      by_state none = ([], refl)
      by_state (some s) = (_, refl)

  variable_state-Returns : Returns (decode_variable_state d v)
  unfolding decode_variable_state validate_variable read_variable_state
  variable_state-Returns = elim (Bool-cases (validate_variable d v)) [
    | inl e ↦
        let (w, f) =
          some_of_is_some (field v variable_value_field)
            (sym (laws.has_field_iff v variable_value_field) ∙ ground arith) in
        let (b, _, h) = validated-boolean d laws v variable_connected_field (ground arith) in
        ((w, b), rw (e, f, h) refl)
    | inr e ↦ ((d.empty_value, false), rw e refl)
  ]

  variable-Returns : (i : ℕ) → Returns (update_variable_state d o i v)
  unfolding update_variable_state
  variable-Returns i = let (r, e) = variable_state-Returns in (variable_call d o i r, rw e refl)

  breakpoint-Returns : Returns (update_breakpoint_instruction d o v)
  unfolding update_breakpoint_instruction decode_breakpoint_instruction_index
  breakpoint-Returns = elim (Bool-cases (has_field v index_field)) [
    | inr e ↦ ([], rw e refl)
    | inl e ↦
        let (w, f) =
          some_of_is_some (field v index_field) (sym (laws.has_field_iff v index_field) ∙ e) in
        elim (Bool-cases (has_type w uint32)) [
          | inr h ↦ ([], rw (e, f, h) refl)
          | inl h ↦
              let (n, g, _, r) =
                validated-uint32 d laws v index_field
                  ((laws.validate_member_type_iff v index_field uint32).1 (w, f, h)) in
              (
                breakpoint_instruction_updated n ∷ [],
                rw (e, g, laws.has_type-scalar (of_uint32 n) uint32, laws.as_uint32-scalar n r)
                    refl,
              )
        ]
  ]

  pub create_callback-Returns :
      (t : ValueNameType) (i : ℕ) → Returns (create_callback d o (info t i) v)
  unfolding create_callback update_log_entry update_message_entry update_output_value_entry
  create_callback-Returns unknown i = ([], refl)
  create_callback-Returns instruction i = instruction-Returns i
  create_callback-Returns variable i = variable-Returns i
  create_callback-Returns log_entry i = found-Returns _ _ (decode_entry-Finds d laws v).0
  create_callback-Returns message_entry i = found-Returns _ _ (decode_entry-Finds d laws v).1
  create_callback-Returns output_value_entry i = found-Returns _ _ (decode_entry-Finds d laws v).2
  create_callback-Returns job_status i = job_state-Returns
  create_callback-Returns breakpoint_instruction i = breakpoint-Returns
