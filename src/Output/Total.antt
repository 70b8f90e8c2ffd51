-- ===== src/Output/Total.antt =====
-- base/output_entry_helper.cpp: the decoders on values that no encoder made.
use oac_tree_server.Base.{
  ◌≡◌, ◌⊎◌, inl, inr, sym, ap, ◌∙◌, Option, none, some, Result, ok, arith, Bool-cases,
}
use oac_tree_server.External.Scalars.{of_int32, of_uint64, of_string, is_some, some_of_is_some}
use oac_tree_server.External.Dto.{Dto, DtoLaws}
use oac_tree_server.External.Dto.Validated.{
  validated-uint64, validated-int32, validated-string, validate_of_field,
}
use oac_tree_server.Protocol.Fields.{severity_field, message_field, description_field, value_field}
use oac_tree_server.Output.{LogEntry, MessageEntry, OutputValueEntry}
use oac_tree_server.Output.Codec.{
  decode_log_entry, validate_log_entry, decode_message_entry, validate_message_entry,
  decode_output_value_entry, validate_output_value_entry,
}

-- `none` describes the values that hold no entry.
abbrev pub Finds {ℓ κ} : {A : Type ℓ} → Result (Option A) → (A → Type κ) → Type (ℓ ⊔ κ)
Finds {A = A} r P = (r ≡ ok none) × ((a : A) → ¬ P a) ⊎ ((a : A) × (r ≡ ok (some a)) × P a)

module _ (d : Dto) where
  open d use {AnyValue, scalar, field, index_field}

  -- The value has the members of the entry, with its contents.
  pub record HoldsLogEntry (v : AnyValue) (e : LogEntry) : Type 0 where
    pub index : field v index_field ≡ some (scalar (of_uint64 e.index))
    pub severity : field v severity_field ≡ some (scalar (of_int32 e.severity))
    pub message : field v message_field ≡ some (scalar (of_string e.message))

  pub record HoldsMessageEntry (v : AnyValue) (e : MessageEntry) : Type 0 where
    pub index : field v index_field ≡ some (scalar (of_uint64 e.index))
    pub message : field v message_field ≡ some (scalar (of_string e.message))

  pub record HoldsOutputValueEntry (v : AnyValue) (e : OutputValueEntry d) : Type 0 where
    pub index : field v index_field ≡ some (scalar (of_uint64 e.index))
    pub description : field v description_field ≡ some (scalar (of_string e.description))
    pub value : field v value_field ≡ some e.value

module _ (d : Dto) (laws : DtoLaws d) (v : d.AnyValue) where
  open d use {validate_member_type, has_field, field, index_field}

  pub decode_log_entry-Finds : Finds (decode_log_entry d v) (HoldsLogEntry d v)
  unfolding decode_log_entry validate_log_entry
  decode_log_entry-Finds = elim (Bool-cases (validate_log_entry d v)) [
    | inr e ↦ inl (
      rw e,
      λ a h.
          let p = validate_of_field d laws v index_field _ h.index in
          let q = validate_of_field d laws v severity_field _ h.severity in
          let r = validate_of_field d laws v message_field _ h.message in ground arith,
    )
    | inl e ↦
        let (i, fi, hi, _) = validated-uint64 d laws v index_field (ground arith) in
        let (z, fz, hz, _) = validated-int32 d laws v severity_field (ground arith) in
        let (m, fm, hm) = validated-string d laws v message_field (ground arith) in
        inr (
          record { index = i; severity = z; message = m },
          rw (e, hi, hz, hm),
          record { index = fi; severity = fz; message = fm },
        )
  ]

  decode_message_entry-Finds : Finds (decode_message_entry d v) (HoldsMessageEntry d v)
  unfolding decode_message_entry validate_message_entry
  decode_message_entry-Finds = elim (Bool-cases (validate_message_entry d v)) [
    | inr e ↦ inl (
      rw e,
      λ a h.
          let p = validate_of_field d laws v index_field _ h.index in
          let r = validate_of_field d laws v message_field _ h.message in ground arith,
    )
    | inl e ↦
        let (i, fi, hi, _) = validated-uint64 d laws v index_field (ground arith) in
        let (m, fm, hm) = validated-string d laws v message_field (ground arith) in
        inr (record { index = i; message = m }, rw (e, hi, hm), record { index = fi; message = fm })
  ]

  decode_output_value_entry-Finds :
      Finds (decode_output_value_entry d v) (HoldsOutputValueEntry d v)
  unfolding decode_output_value_entry validate_output_value_entry
  decode_output_value_entry-Finds = elim (Bool-cases (validate_output_value_entry d v)) [
    | inr e ↦ inl (
      rw e,
      λ a h.
          let p = validate_of_field d laws v index_field _ h.index in
          let q = validate_of_field d laws v description_field _ h.description in
          let r = laws.has_field_iff v value_field ∙ ap is_some h.value in ground arith,
    )
    | inl e ↦
        let (i, fi, hi, _) = validated-uint64 d laws v index_field (ground arith) in
        let (m, fm, hm) = validated-string d laws v description_field (ground arith) in
        let (w, fw) =
          some_of_is_some (field v value_field)
            (sym (laws.has_field_iff v value_field) ∙ ground arith) in
        inr (
          record { index = i; description = m; value = w },
          rw (e, hi, hm, fw),
          record { index = fi; description = fm; value = fw },
        )
  ]

-- For every value, each decoder returns without an exception: the entry whose contents the members
-- of the value are, where there is one, and nothing where there is none.
pub decode_entry-Finds :
    (d : Dto)
    → DtoLaws d
    → (v : d.AnyValue)
    → Finds (decode_log_entry d v) (HoldsLogEntry d v)
      × Finds (decode_message_entry d v) (HoldsMessageEntry d v)
      × Finds (decode_output_value_entry d v) (HoldsOutputValueEntry d v)
decode_entry-Finds d laws v = (
  decode_log_entry-Finds d laws v,
  decode_message_entry-Finds d laws v,
  decode_output_value_entry-Finds d laws v,
)
