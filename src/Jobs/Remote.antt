-- ===== src/Jobs/Remote.antt =====
-- base/automation_protocol_client.cpp over base/info_protocol_server.cpp and base/control_protocol_server.cpp: a client that is
-- connected to the servers of a manager acts as the manager.
use oac_tree_server.Base.{
  ℕ, ◌≡◌, refl, ap, ◌∙◌, true, false, [], some, Bytes, codes, bytes_eq, Result, ok, throws,
  invalid_operation, ◌==◌, leb, if◌then◌else◌, inl, inr, arith, lookup, Bool-cases,
}
use oac_tree_server.External.Scalars.{of_uint64, of_string, uint64, valid_members, FitsUint32}
use oac_tree_server.External.Dto.{Dto, DtoLaws}
use oac_tree_server.External.Rpc.{Rpc, RpcLaws, packed}
use oac_tree_server.Protocol.Fields.{
  get_server_prefix_function, get_number_of_jobs_function, get_job_info_function,
  server_prefix_field, number_of_jobs_field, job_index_field, job_info_field,
}
use oac_tree_server.Protocol.Results.{
  extracted, refused, extract_index, extract_job_index, unknown_job,
}
use oac_tree_server.Jobs.{JobManager}
use oac_tree_server.Jobs.InfoServer as InfoServer
use oac_tree_server.Jobs.InfoServer.{
  invoke_info, serve_prefix, serve_number, serve_info, info_of, reply_with,
}
use oac_tree_server.Jobs.ControlServer.{invoke_control}
use oac_tree_server.Jobs.Client.{
  Protocols, no_success, get_server_prefix, get_number_of_jobs, get_job_info, info_members,
}

module _ (d : Dto) (laws : DtoLaws d) (r : Rpc d) (rpc : RpcLaws d r) {M : Type 0}
    (manager : JobManager d r M) where
  open d use {AnyValue, scalar, empty_value}

  -- The servers of the manager as the protocols of a client.
  abbrev pub connected : Protocols d r M
  connected = record {
    invoke_info = invoke_info d r manager;
    invoke_control = invoke_control d r manager;
  }

  pub succeeds : (r.success == r.success) ≡ true
  succeeds = ground arith

  -- A number that fits is the index that is extracted, if it is below the bound.
  pub index_of :
      (i n refusal : ℕ)
      → FitsUint32 i
      → extract_index d r (some (scalar (of_uint64 i))) n refusal
        ≡ (if leb n i then refused refusal else extracted i)
  index_of i n refusal h = simp (laws.as_uint32-uint64 i h) refl

  reply_lem :
      (k : Bytes) (v : AnyValue)
      → reply_with d r manager empty_value k v ≡ (r.success, r.pack empty_value k v)
  unfolding reply_with
  reply_lem k v = rw (reply_with, rpc.try_assign-empty (r.pack empty_value k v)) refl

  empty_valid : valid_members {V = AnyValue} [] ≡ true
  unfolding valid_members
  empty_valid = refl

  prefix_called :
      (m : M)
      → invoke_info d r manager m (r.function_input get_server_prefix_function) empty_value
        ≡ serve_prefix d r manager m (r.function_input get_server_prefix_function) empty_value
  unfolding invoke_info bytes_eq
  prefix_called m =
      rw
        (
          invoke_info,
          rpc.called-input get_server_prefix_function [] (InfoServer.function_names d r manager) 0 _
              empty_valid tt refl,
        )
        refl

  prefix_served :
      (m : M) (input : AnyValue) (p : Bytes)
      → manager.get_server_prefix m ≡ ok p
      → serve_prefix d r manager m input empty_value
        ≡ ok (r.success, r.pack empty_value server_prefix_field (scalar (of_string p)))
  unfolding serve_prefix
  prefix_served m input p e =
      rw (serve_prefix, e) (ap (λ x. ok x) (reply_lem server_prefix_field (scalar (of_string p))))

  pub client_prefix :
      (m : M) (p : Bytes)
      → manager.get_server_prefix m ≡ ok p
      → get_server_prefix d r connected m ≡ ok p
  unfolding get_server_prefix
  client_prefix m p e =
      rw
        (
          get_server_prefix,
          prefix_called m ∙ prefix_served m _ p e,
          succeeds,
          rpc.extract_string_lem _ server_prefix_field p (rpc.extract-output server_prefix_field _),
        )
        refl

  number_called :
      (m : M)
      → invoke_info d r manager m (r.function_input get_number_of_jobs_function) empty_value
        ≡ serve_number d r manager m (r.function_input get_number_of_jobs_function) empty_value
  unfolding invoke_info bytes_eq
  number_called m =
      rw
        (
          invoke_info,
          rpc.called-input get_number_of_jobs_function [] (InfoServer.function_names d r manager) 1
              _ empty_valid tt refl,
        )
        refl

  number_served :
      (m : M) (input : AnyValue) (n : ℕ)
      → manager.get_number_of_jobs m ≡ ok n
      → serve_number d r manager m input empty_value
        ≡ ok (r.success, r.pack empty_value number_of_jobs_field (scalar (of_uint64 n)))
  unfolding serve_number
  number_served m input n e =
      rw (serve_number, e) (ap (λ x. ok x) (reply_lem number_of_jobs_field (scalar (of_uint64 n))))

  pub client_number :
      (m : M) (n : ℕ)
      → FitsUint32 n
      → manager.get_number_of_jobs m ≡ ok n
      → get_number_of_jobs d r connected m ≡ ok n
  unfolding get_number_of_jobs
  client_number m n h e =
      rw
        (
          get_number_of_jobs,
          number_called m ∙ number_served m _ n e,
          succeeds,
          rpc.extract-output number_of_jobs_field (scalar (of_uint64 n)),
          laws.has_type-scalar (of_uint64 n) uint64,
          laws.as_uint32-uint64 n h,
        )
        refl

  info_valid : (i : ℕ) → valid_members (info_members d r connected i) ≡ true
  unfolding valid_members
  info_valid i = refl

  info_called :
      (m : M) (i : ℕ)
      → let input =
          packed d r (r.function_input get_job_info_function) (info_members d r connected i) in
        invoke_info d r manager m input empty_value ≡ serve_info d r manager m input empty_value
  unfolding invoke_info bytes_eq
  info_called m i =
      rw
        (
          invoke_info,
          rpc.called-input get_job_info_function (info_members d r connected i)
              (InfoServer.function_names d r manager) 2 _ (info_valid i) (rpc.reserved-fields.0, tt)
              refl,
        )
        refl

  info_index :
      (i n : ℕ)
      → FitsUint32 i
      → extract_job_index d r
          (packed d r (r.function_input get_job_info_function) (info_members d r connected i))
          n
        ≡ (if leb n i then refused (unknown_job d r) else extracted i)
  unfolding extract_job_index lookup bytes_eq
  info_index i n h =
      rw
        (
          extract_job_index,
          rpc.extract-input get_job_info_function (info_members d r connected i) job_index_field _
              (info_valid i) (rpc.reserved-fields.0, tt) refl,
        )
        (index_of i n _ h)

  info_served :
      (m : M) (i n : ℕ)
      → FitsUint32 i
      → manager.get_number_of_jobs m ≡ ok n
      → serve_info d r manager m
          (packed d r (r.function_input get_job_info_function) (info_members d r connected i))
          empty_value
        ≡ info_of d r manager m empty_value
            (if leb n i then refused (unknown_job d r) else extracted i)
  unfolding serve_info
  info_served m i n h e = rw (serve_info, e, info_index i n h) refl

  pub client_info :
      (m : M) (i n : ℕ) (info : r.JobInfo)
      → FitsUint32 i
      → manager.get_number_of_jobs m ≡ ok n
      → leb n i ≡ false
      → manager.get_job_info m i ≡ ok info
      → get_job_info d r connected m i ≡ ok info
  unfolding get_job_info
  client_info m i n info h e l f =
      rw
        (
          get_job_info,
          info_called m i ∙ info_served m i n h e,
          l,
          f,
          reply_lem job_info_field (r.job_info_to_any_value info),
          succeeds,
          rpc.extract-output job_info_field (r.job_info_to_any_value info),
          rpc.to_job_info-job_info_to_any_value info,
        )
        refl

  pub client_unknown :
      (m : M) (i n : ℕ)
      → FitsUint32 i
      → manager.get_number_of_jobs m ≡ ok n
      → leb n i ≡ true
      → get_job_info d r connected m i
        ≡ throws (invalid_operation (no_success d r (codes "GetJobInfo") (unknown_job d r)))
  unfolding get_job_info
  client_unknown m i n h e l =
      let q : (unknown_job d r == r.success) ≡ false =
        ground (arith, rpc.success-lt, rpc.generic-le) in
      rw (get_job_info, info_called m i ∙ info_served m i n h e, l, q) refl

  -- What the client says of a job.
  pub client_job_info :
      (m : M) (i n : ℕ)
      → FitsUint32 i
      → manager.get_number_of_jobs m ≡ ok n
      → get_job_info d r connected m i ≡ (
          if leb n i
          then throws (invalid_operation (no_success d r (codes "GetJobInfo") (unknown_job d r)))
          else manager.get_job_info m i)
  unfolding get_job_info
  client_job_info m i n h e = elim (Bool-cases (leb n i)) [
    | inl l ↦ client_unknown m i n h e l ∙ rw l refl
    | inr l ↦ rw l (by_info l (manager.get_job_info m i) refl)
  ]
    where
      by_info :
          leb n i ≡ false
          → (q : Result r.JobInfo) → manager.get_job_info m i ≡ q
          → get_job_info d r connected m i ≡ q
      by_info l (ok info) f = client_info m i n info h e l f
      by_info l (throws x) f = rw (get_job_info, info_called m i ∙ info_served m i n h e, l, f) refl
