-- ===== src/Jobs/RemoteCommand.antt =====
-- base/automation_protocol_client.cpp over base/control_protocol_server.cpp: commands, and the client as a whole.
use oac_tree_server.Base.{
  ℕ, ◌≡◌, refl, ap, ◌∙◌, Bool, true, false, some, Bytes, codes, bytes_eq, ok, throws,
  invalid_operation, ◌>>=◌, leb, if◌then◌else◌, lookup,
}
use oac_tree_server.External.Scalars.{of_uint32, of_uint64, valid_members, FitsUint32}
use oac_tree_server.External.Dto.{Dto, DtoLaws}
use oac_tree_server.External.Rpc.{Rpc, RpcLaws, packed}
use oac_tree_server.Protocol.Fields.{send_job_command_function, job_index_field, job_command_field}
use oac_tree_server.Protocol.Results.{
  extracted, refused, extract_job_index, unknown_job, unknown_instruction, unknown_job_command,
}
use oac_tree_server.Jobs.{JobManager}
use oac_tree_server.Jobs.ControlServer as ControlServer
use oac_tree_server.Jobs.ControlServer.{
  invoke_control, serve_command, extract_job_command, send_to_job, send_command,
}
use oac_tree_server.Jobs.Client.{
  no_success, get_server_prefix, get_number_of_jobs, get_job_info, edit_breakpoint,
  send_job_command, command_members,
}
use oac_tree_server.Jobs.Remote.{connected, index_of, client_prefix, client_number, client_job_info}
use oac_tree_server.Jobs.RemoteControl.{unknown_ne, finish, finish-success, refuse, client_edit}

module _ (d : Dto) (laws : DtoLaws d) (r : Rpc d) (rpc : RpcLaws d r) {M : Type 0}
    (manager : JobManager d r M) where
  open d use {AnyValue, scalar}

  abbrev command_input : ℕ → ℕ → AnyValue
  command_input i c =
      packed d r (r.function_input send_job_command_function)
        (command_members d r (connected d laws r rpc manager) i c)

  command_valid :
      (i c : ℕ) → valid_members (command_members d r (connected d laws r rpc manager) i c) ≡ true
  unfolding valid_members bytes_eq
  command_valid i c = refl

  command_called :
      (m : M) (i c : ℕ)
      → invoke_control d r manager m (command_input i c)
        ≡ serve_command d r manager m (command_input i c)
  unfolding invoke_control bytes_eq
  command_called m i c =
      rw
        (
          invoke_control,
          rpc.called-input send_job_command_function
              (command_members d r (connected d laws r rpc manager) i c)
              (ControlServer.function_names d r manager) 1 _ (command_valid i c)
              (rpc.reserved-fields.0, (rpc.reserved-fields.1.1.1.0, tt)) refl,
        )
        refl

  command_extract :
      (i c : ℕ) (k : Bytes) (v : AnyValue)
      → lookup k (command_members d r (connected d laws r rpc manager) i c) ≡ some v
      → r.extract (command_input i c) k ≡ some v
  command_extract i c k v h =
      rpc.extract-input send_job_command_function _ k v (command_valid i c)
        (rpc.reserved-fields.0, (rpc.reserved-fields.1.1.1.0, tt)) h

  command_indexed :
      (m : M) (i c n : ℕ)
      → FitsUint32 i
      → manager.get_number_of_jobs m ≡ ok n
      → serve_command d r manager m (command_input i c)
        ≡ send_to_job d r manager m
            (command_input i c)
            (if leb n i then refused (unknown_job d r) else extracted i)
  unfolding serve_command extract_job_index lookup bytes_eq
  command_indexed m i c n hi e =
      let x = command_extract i c job_index_field (scalar (of_uint64 i)) refl in
      rw (serve_command, e, extract_job_index, x, index_of d laws r rpc manager i n _ hi) refl

  command_of :
      (i c : ℕ)
      → FitsUint32 c
      → extract_job_command d r manager (command_input i c)
        ≡ (if leb r.terminate c then refused (unknown_job_command d r) else extracted c)
  unfolding extract_job_command lookup bytes_eq
  command_of i c hc =
      rw
        (
          extract_job_command,
          command_extract i c job_command_field (scalar (of_uint32 c)) refl,
          laws.as_uint32-scalar c hc,
        )
        refl

  pub client_command :
      (m : M) (i c n : ℕ)
      → FitsUint32 i
      → FitsUint32 c
      → manager.get_number_of_jobs m ≡ ok n
      → send_job_command d r (connected d laws r rpc manager) m i c ≡ (
          if leb n i
          then refuse d laws r rpc manager (codes "SendJobCommand") (unknown_job d r)
          else if leb r.terminate c
          then refuse d laws r rpc manager (codes "SendJobCommand") (unknown_job_command d r)
          else manager.send_job_command m i c)
  unfolding send_job_command
  client_command m i c n hi hc e =
      ap (finish d laws r rpc manager (codes "SendJobCommand"))
        (command_called m i c ∙ command_indexed m i c n hi e)
      ∙ by_job (leb n i)
    where
      by_command :
          (l : Bool)
          → finish d laws r rpc manager (codes "SendJobCommand") (
              send_command d r manager m i
                (if l then refused (unknown_job_command d r) else extracted c))
            ≡ (if l
                then refuse d laws r rpc manager (codes "SendJobCommand") (unknown_job_command d r)
                else manager.send_job_command m i c)
      by_command true = rw (unknown_ne d laws r rpc manager).2 refl
      by_command false =
          finish-success d laws r rpc manager (codes "SendJobCommand")
            (manager.send_job_command m i c)

      by_job :
          (l : Bool)
          → finish d laws r rpc manager (codes "SendJobCommand") (
              send_to_job d r manager m
                (command_input i c)
                (if l then refused (unknown_job d r) else extracted i))
            ≡ (if l
                then refuse d laws r rpc manager (codes "SendJobCommand") (unknown_job d r)
                else if leb r.terminate c
                then refuse d laws r rpc manager (codes "SendJobCommand") (unknown_job_command d r)
                else manager.send_job_command m i c)
      by_job true = rw (unknown_ne d laws r rpc manager).0 refl
      by_job false =
          ap
            (λ q.
              finish d laws r rpc manager (codes "SendJobCommand") (send_command d r manager m i q))
            (command_of i c hc)
          ∙ by_command (leb r.terminate c)

  -- A client that is connected to the two protocol servers of a manager that knows its prefix and its number of jobs gives the same
  -- prefix and number, and for indices and commands of 32 bits acts on the manager as a direct call does, exceptions
  -- included; jobs, instructions and commands out of bounds are refused with an exception that names the reason, and leave the manager alone.
  pub client-connected :
      (m : M) (p : Bytes) (n i j c : ℕ) (b : Bool)
      → FitsUint32 n
      → FitsUint32 i
      → FitsUint32 j
      → FitsUint32 c
      → manager.get_server_prefix m ≡ ok p
      → manager.get_number_of_jobs m ≡ ok n
      → (get_server_prefix d r (connected d laws r rpc manager) m ≡ ok p)
        × (get_number_of_jobs d r (connected d laws r rpc manager) m ≡ ok n)
        × (get_job_info d r (connected d laws r rpc manager) m i ≡ (
            if leb n i
            then throws (invalid_operation (no_success d r (codes "GetJobInfo") (unknown_job d r)))
            else manager.get_job_info m i))
        × (edit_breakpoint d r (connected d laws r rpc manager) m i j b ≡ (
            if leb n i
            then refuse d laws r rpc manager (codes "EditBreakpoint") (unknown_job d r)
            else manager.get_job_info m i >>= λ info.
                if leb (r.number_of_instructions info) j
                then refuse d laws r rpc manager (codes "EditBreakpoint") (unknown_instruction d r)
                else manager.edit_breakpoint m i j b))
        × (send_job_command d r (connected d laws r rpc manager) m i c ≡ (
            if leb n i
            then refuse d laws r rpc manager (codes "SendJobCommand") (unknown_job d r)
            else if leb r.terminate c
            then refuse d laws r rpc manager (codes "SendJobCommand") (unknown_job_command d r)
            else manager.send_job_command m i c))
  client-connected m p n i j c b hn hi hj hc e f = (
    client_prefix d laws r rpc manager m p e,
    client_number d laws r rpc manager m n hn f,
    client_job_info d laws r rpc manager m i n hi f,
    client_edit d laws r rpc manager m i j n b hi hj f,
    client_command m i c n hi hc f,
  )
