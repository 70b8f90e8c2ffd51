-- ===== src/Protocol/Results.antt =====
-- base/oac_tree_protocol.cpp: the results of remote calls, and the indices in their inputs.
use oac_tree_server.Base.{
  ℕ, ◌+◌, List, [], ◌∷◌, ◌++◌, Option, none, some, Bytes, codes, ◌==◌, ltb, leb, if◌then◌else◌,
}
use oac_tree_server.External.Dto.{Dto}
use oac_tree_server.External.Rpc.{Rpc}
use oac_tree_server.Protocol.Decimal.{to_string}
use oac_tree_server.Protocol.Fields.{job_index_field, instruction_index_field}

-- What is extracted from an input, or a result other than success.
pub data Extracted {ℓ} (A : Type ℓ) : Type ℓ where
  extracted : A → Extracted A
  refused : ℕ → Extracted A

module _ (d : Dto) (r : Rpc d) where
  abbrev pub not_supported : ℕ
  not_supported = r.specific_application_error_start

  abbrev pub unknown_job : ℕ
  unknown_job = r.specific_application_error_start + 1

  abbrev pub unknown_instruction : ℕ
  unknown_instruction = r.specific_application_error_start + 2

  abbrev pub unknown_job_command : ℕ
  unknown_job_command = r.specific_application_error_start + 3

  abbrev pub client_reply_refused : ℕ
  client_reply_refused = r.specific_application_error_start + 4

  abbrev pub result_map : List (ℕ × Bytes)
  result_map =
      (not_supported, codes "NotSupported")
      ∷ (unknown_job, codes "UnknownJob")
      ∷ (unknown_instruction, codes "UnknownInstruction")
      ∷ (unknown_job_command, codes "UnknownJobCommand")
      ∷ (client_reply_refused, codes "ClientReplyRefused")
      ∷ []

  find_result : ℕ → List (ℕ × Bytes) → Bytes
  find_result value [] =
      codes "Unknown ProtocolResult for SUP automation interface: " ++ to_string value
  find_result value ((code, text) ∷ rest) = if code == value then text else find_result value rest

  unfoldable pub result_to_string : ℕ → Bytes
  unfolding find_result
  result_to_string value =
      if ltb value r.generic_application_error_start
      then r.protocol_result_to_string value
      else find_result value result_map

  -- `ExtractJobIndex` and `ExtractInstructionIndex` behind their field and their refusal.
  abbrev pub check_below : Option ℕ → ℕ → ℕ → Extracted ℕ
  check_below none n refusal = refused r.decoding_error
  check_below (some idx) n refusal = if leb n idx then refused refusal else extracted idx

  abbrev pub extract_index : Option d.AnyValue → ℕ → ℕ → Extracted ℕ
  extract_index none n refusal = refused r.decoding_error
  extract_index (some idx_av) n refusal = check_below (d.as_uint32 idx_av) n refusal

  unfoldable pub extract_job_index : d.AnyValue → ℕ → Extracted ℕ
  extract_job_index input n_jobs =
      extract_index (r.extract input job_index_field) n_jobs unknown_job

  unfoldable pub extract_instruction_index : d.AnyValue → ℕ → Extracted ℕ
  extract_instruction_index input n_instr =
      extract_index (r.extract input instruction_index_field) n_instr unknown_instruction
