-- ===== src/Jobs/RemoteControl.antt =====
-- base/automation_protocol_client.cpp over base/control_protocol_server.cpp, and the client as a whole.
use oac_tree_server.Base.{
  ℕ, ◌≡◌, refl, ap, ◌∙◌, Bool, true, false, some, Bytes, codes, bytes_eq, Result, ok, throws,
  invalid_operation, ◌>>=◌, ◌==◌, leb, if◌then◌else◌, arith, lookup,
}
use oac_tree_server.External.Scalars.{of_bool, of_uint64, valid_members, FitsUint32}
use oac_tree_server.External.Dto.{Dto, DtoLaws}
use oac_tree_server.External.Rpc.{Rpc, RpcLaws, packed}
use oac_tree_server.Protocol.Fields.{
  edit_breakpoint_function, job_index_field, instruction_index_field, breakpoint_active_field,
}
use oac_tree_server.Protocol.Results.{
  extracted, refused, extract_job_index, extract_instruction_index, unknown_job,
  unknown_instruction, unknown_job_command,
}
use oac_tree_server.Jobs.{JobManager}
use oac_tree_server.Jobs.ControlServer as ControlServer
use oac_tree_server.Jobs.ControlServer.{
  invoke_control, serve_edit, serve_command, extract_job_command, edit_job, edit_instruction,
  send_to_job,
}
use oac_tree_server.Jobs.Client.{no_success, on_success, edit_breakpoint, edit_members}
use oac_tree_server.Jobs.Remote.{connected, succeeds, index_of}

module _ (d : Dto) (laws : DtoLaws d) (r : Rpc d) (rpc : RpcLaws d r) {M : Type 0}
    (manager : JobManager d r M) where
  open d use {AnyValue, scalar}

  abbrev edit_input : ℕ → ℕ → Bool → AnyValue
  edit_input i j b =
      packed d r (r.function_input edit_breakpoint_function)
        (edit_members d r (connected d laws r rpc manager) i j b)

  edit_valid :
      (i j : ℕ) (b : Bool)
      → valid_members (edit_members d r (connected d laws r rpc manager) i j b) ≡ true
  unfolding valid_members bytes_eq
  edit_valid i j b = refl

  edit_called :
      (m : M) (i j : ℕ) (b : Bool)
      → invoke_control d r manager m (edit_input i j b)
        ≡ serve_edit d r manager m (edit_input i j b)
  unfolding invoke_control bytes_eq
  edit_called m i j b =
      rw
        (
          invoke_control,
          rpc.called-input edit_breakpoint_function
              (edit_members d r (connected d laws r rpc manager) i j b)
              (ControlServer.function_names d r manager) 0 _ (edit_valid i j b)
              (rpc.reserved-fields.0, (rpc.reserved-fields.1.0, (rpc.reserved-fields.1.1.0, tt)))
              refl,
        )
        refl

  edit_extract :
      (i j : ℕ) (b : Bool) (k : Bytes) (v : AnyValue)
      → lookup k (edit_members d r (connected d laws r rpc manager) i j b) ≡ some v
      → r.extract (edit_input i j b) k ≡ some v
  edit_extract i j b k v h =
      rpc.extract-input edit_breakpoint_function _ k v (edit_valid i j b)
        (rpc.reserved-fields.0, (rpc.reserved-fields.1.0, (rpc.reserved-fields.1.1.0, tt))) h

  edit_indexed :
      (m : M) (i j n : ℕ) (b : Bool)
      → FitsUint32 i
      → manager.get_number_of_jobs m ≡ ok n
      → serve_edit d r manager m (edit_input i j b)
        ≡ edit_job d r manager m
            (edit_input i j b)
            (if leb n i then refused (unknown_job d r) else extracted i)
  unfolding serve_edit extract_job_index lookup bytes_eq
  edit_indexed m i j n b hi e =
      let x = edit_extract i j b job_index_field (scalar (of_uint64 i)) refl in
      rw (serve_edit, e, extract_job_index, x, index_of d laws r rpc manager i n _ hi) refl

  edit_instruction_lem :
      (m : M) (i j k : ℕ) (b : Bool)
      → FitsUint32 j
      → edit_instruction d r manager m i
          (edit_input i j b)
          (extract_instruction_index d r (edit_input i j b) k)
        ≡ (if leb k j
            then ok (m, unknown_instruction d r)
            else manager.edit_breakpoint m i j b >>= λ t. ok (t, r.success))
  unfolding extract_instruction_index lookup bytes_eq
  edit_instruction_lem m i j k b hj =
      let y = edit_extract i j b instruction_index_field (scalar (of_uint64 j)) refl in
      let z = edit_extract i j b breakpoint_active_field (scalar (of_bool b)) refl in
      rw (extract_instruction_index, y, index_of d laws r rpc manager j k _ hj)
        (by_order (leb k j) (rpc.extract_bool_lem _ breakpoint_active_field b z))
    where
      by_order :
          (l : Bool)
          → r.extract_bool (edit_input i j b) breakpoint_active_field ≡ some b
          → edit_instruction d r manager m i
              (edit_input i j b)
              (if l then refused (unknown_instruction d r) else extracted j)
            ≡ (if l
                then ok (m, unknown_instruction d r)
                else manager.edit_breakpoint m i j b >>= λ t. ok (t, r.success))
      by_order true h = refl
      by_order false h = rw h refl

  pub unknown_ne :
      ((unknown_job d r == r.success) ≡ false)
      × ((unknown_instruction d r == r.success) ≡ false)
      × ((unknown_job_command d r == r.success) ≡ false)
  unknown_ne = (
    ground (arith, rpc.success-lt, rpc.generic-le),
    ground (arith, rpc.success-lt, rpc.generic-le),
    ground (arith, rpc.success-lt, rpc.generic-le),
  )

  abbrev pub finish : Bytes → Result (M × ℕ) → Result M
  finish f q = q >>= λ (t, code). on_success d r f t code

  -- The result of a call that succeeded is its state.
  pub finish-success : (f : Bytes) (q : Result M) → finish f (q >>= λ t. ok (t, r.success)) ≡ q
  finish-success f (ok t) = rw (succeeds d laws r rpc manager) refl
  finish-success f (throws e) = refl

  abbrev pub refuse : Bytes → ℕ → Result M
  refuse f code = throws (invalid_operation (no_success d r f code))

  pub client_edit :
      (m : M) (i j n : ℕ) (b : Bool)
      → FitsUint32 i
      → FitsUint32 j
      → manager.get_number_of_jobs m ≡ ok n
      → edit_breakpoint d r (connected d laws r rpc manager) m i j b ≡ (
          if leb n i
          then refuse (codes "EditBreakpoint") (unknown_job d r)
          else manager.get_job_info m i >>= λ info.
              if leb (r.number_of_instructions info) j
              then refuse (codes "EditBreakpoint") (unknown_instruction d r)
              else manager.edit_breakpoint m i j b)
  unfolding edit_breakpoint
  client_edit m i j n b hi hj e =
      ap (finish (codes "EditBreakpoint")) (edit_called m i j b ∙ edit_indexed m i j n b hi e)
      ∙ by_job (leb n i)
    where
      by_instruction :
          (l : Bool)
          → finish (codes "EditBreakpoint") (
              if l
              then ok (m, unknown_instruction d r)
              else manager.edit_breakpoint m i j b >>= λ t. ok (t, r.success))
            ≡ (if l
                then refuse (codes "EditBreakpoint") (unknown_instruction d r)
                else manager.edit_breakpoint m i j b)
      by_instruction true = rw unknown_ne.1 refl
      by_instruction false =
          finish-success (codes "EditBreakpoint") (manager.edit_breakpoint m i j b)

      by_info :
          (q : Result r.JobInfo)
          → finish (codes "EditBreakpoint") (
              q >>= λ info.
              edit_instruction d r manager m i
                (edit_input i j b)
                (extract_instruction_index d r (edit_input i j b) (r.number_of_instructions info)))
            ≡ (q >>= λ info.
                if leb (r.number_of_instructions info) j
                then refuse (codes "EditBreakpoint") (unknown_instruction d r)
                else manager.edit_breakpoint m i j b)
      by_info (throws x) = refl
      by_info (ok info) =
          ap (finish (codes "EditBreakpoint"))
            (edit_instruction_lem m i j (r.number_of_instructions info) b hj)
          ∙ by_instruction (leb (r.number_of_instructions info) j)

      by_job :
          (l : Bool)
          → finish (codes "EditBreakpoint") (
              edit_job d r manager m
                (edit_input i j b)
                (if l then refused (unknown_job d r) else extracted i))
            ≡ (if l
                then refuse (codes "EditBreakpoint") (unknown_job d r)
                else manager.get_job_info m i >>= λ info.
                    if leb (r.number_of_instructions info) j
                    then refuse (codes "EditBreakpoint") (unknown_instruction d r)
                    else manager.edit_breakpoint m i j b)
      by_job true = rw unknown_ne.0 refl
      by_job false = by_info (manager.get_job_info m i)
