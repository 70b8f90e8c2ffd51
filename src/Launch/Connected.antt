-- ===== src/Launch/Connected.antt =====
-- src/app/oac-tree-server/main.cpp and epics/epics_config_utils.cpp: a client that is made for the name of a service controls
-- the jobs of the procedures that the process was started with.
use oac_tree_server.Base.{
  ℕ, ◌^◌, ◌<◌, ◌≡◌, refl, ap, ◌∙◌, true, false, ◌++◌, some, Bytes, Result, ok, throws, ◌>>=◌,
  if◌then◌else◌, ◌==◌, length, length-append, get_elem?, lookup, bytes_eq, codes, bytes_eq_refl,
  bytes_ne, arith, Bool, not, invalid_operation, List, >>=-assoc,
}
use oac_tree_server.External.Dto.{Dto, DtoLaws}
use oac_tree_server.External.Codec.{Codec}
use oac_tree_server.External.UserInput.{UserInput}
use oac_tree_server.External.Rpc.{Rpc, RpcLaws}
use oac_tree_server.External.LocalJob.{LocalJobs, LocalJobsLaws}
use oac_tree_server.Protocol.Names.{control_server_id, control_server_name}
use oac_tree_server.Jobs.{JobManager}
use oac_tree_server.Jobs.Client.{
  get_server_prefix, get_number_of_jobs, get_job_info, send_job_command, on_success,
}
use oac_tree_server.Jobs.Remote.{client_prefix, client_number, client_job_info}
use oac_tree_server.Jobs.Server.{
  AutomationServer, server_manager, run_command, replaced, number_of_jobs, job_info,
}
use oac_tree_server.Jobs.InfoServer.{invoke_info}
use oac_tree_server.Jobs.ControlServer.{invoke_control}
use oac_tree_server.Jobs.ClientStack.{construct, stack_client}
use oac_tree_server.Jobs.ClientJob.Connected.{remote, HasJob, below, fits, found, commanded}
use oac_tree_server.Launch.{
  Files, Arguments, get_procedure_list, Process, main, info_stack, control_stack,
  create_epics_job_manager, rpc_servers_of,
}
use oac_tree_server.Launch.Started.{main-Started, Made-at, length-Made}

control_ne : (s : Bytes) → bytes_eq s (control_server_name s) ≡ false
unfolding control_server_name
control_ne s =
    bytes_ne s (s ++ control_server_id)
      (λ e. omega (arith, ap (λ (x : Bytes). length x) e, length-append s control_server_id))

module _ (d : Dto) (laws : DtoLaws d) (c : Codec d) (u : UserInput d) (r : Rpc d)
    (rpc : RpcLaws d r) (l : LocalJobs d r) (job_laws : LocalJobsLaws d r l) (no_server : ℕ) where
  open d use {AnyValue}

  abbrev pub client_of : Bytes → JobManager d r (Process d c u r l)
  client_of name = stack_client d r (record {
    invoke_info = info_stack d c u r l no_server name;
    invoke_control = control_stack d c u r l no_server (control_server_name name);
  })

  created : (name : Bytes) → create_epics_job_manager d c u r l no_server name ≡ ok (client_of name)
  unfolding create_epics_job_manager construct
  created name = refl

  info_found :
      (p : Process d c u r l) (name : Bytes) (input output : AnyValue)
      → p.rpc_servers ≡ rpc_servers_of d c u r l name
      → info_stack d c u r l no_server name p input output
        ≡ invoke_info d r (server_manager d r l) p.auto_server input output
  unfolding lookup
  info_found p name input output e = rw (e, bytes_eq_refl name) refl

  control_found :
      (p : Process d c u r l) (name : Bytes) (input : AnyValue)
      → p.rpc_servers ≡ rpc_servers_of d c u r l name
      → control_stack d c u r l no_server (control_server_name name) p input ≡ (
          invoke_control d r (server_manager d r l) p.auto_server input >>= λ q.
          ok (record p { auto_server = q.0 }, q.1))
  unfolding lookup
  control_found p name input e =
      rw (e, control_ne name, bytes_eq_refl (control_server_name name)) refl

  -- The client of the process reads what a client of its server reads.
  reads :
      (p : Process d c u r l) (name : Bytes) (i : ℕ)
      → p.rpc_servers ≡ rpc_servers_of d c u r l name
      → let server = remote d laws r rpc l job_laws in
        ((client_of name).get_server_prefix p ≡ server.get_server_prefix p.auto_server)
        × ((client_of name).get_number_of_jobs p ≡ server.get_number_of_jobs p.auto_server)
        × ((client_of name).get_job_info p i ≡ server.get_job_info p.auto_server i)
  unfolding get_server_prefix get_number_of_jobs get_job_info
  reads p name i e = (
    rw (get_server_prefix, info_found p name _ _ e) refl,
    rw (get_number_of_jobs, info_found p name _ _ e) refl,
    rw (get_job_info, info_found p name _ _ e) refl,
  )

  abbrev changed : Process d c u r l → AutomationServer d r l → Process d c u r l
  changed p t = record p { auto_server = t }

  commands :
      (p : Process d c u r l) (name : Bytes) (i cmd : ℕ)
      → p.rpc_servers ≡ rpc_servers_of d c u r l name
      → (client_of name).send_job_command p i cmd ≡ (
          (remote d laws r rpc l job_laws).send_job_command p.auto_server i cmd >>= λ t.
          ok (changed p t))
  unfolding send_job_command
  commands p name i cmd e = rw (send_job_command, control_found p name _ e) (by_result _)
    where
      told :
          (t : AutomationServer d r l) (b : Bool) (x : Bytes)
          → (if b then throws (invalid_operation x) else ok (changed p t))
            ≡ ((if b then throws (invalid_operation x) else ok t) >>= λ t. ok (changed p t))
      told t true x = refl
      told t false x = refl

      by_result :
          (q : Result (AutomationServer d r l × ℕ))
          → ((q >>= λ x. ok (changed p x.0, x.1)) >>= λ (t, code).
              on_success d r (codes "SendJobCommand") t code)
            ≡ ((q >>= λ (t, code). on_success d r (codes "SendJobCommand") t code) >>= λ t.
                ok (changed p t))
      by_result (throws x) = refl
      by_result (ok (t, code)) = told t (not (code == r.success)) _

  job_called :
      (p : Process d c u r l) (name : Bytes) (i : ℕ) (job : l.Job)
      → p.rpc_servers ≡ rpc_servers_of d c u r l name
      → HasJob d laws r rpc l job_laws p.auto_server i job
      → ((client_of name).get_job_info p i ≡ ok (l.get_info job))
        × ((cmd : ℕ)
            → cmd < r.terminate
            → (client_of name).send_job_command p i cmd ≡ (
                run_command d r l job cmd >>= λ x.
                ok (changed p (replaced d r l p.auto_server i x))))
  unfolding job_info
  job_called p name i job e has = (
    (reads p name i e).2
        ∙ client_job_info d laws r rpc (server_manager d r l) p.auto_server i
            (number_of_jobs d r l p.auto_server)
            (fits d laws r rpc l job_laws p.auto_server i job has) refl
        ∙ rw
            (
              below d laws r rpc l job_laws p.auto_server i job has,
              job_info,
              found d laws r rpc l job_laws p.auto_server i job has,
            )
            refl,
    λ cmd lt.
        commands p name i cmd e
        ∙ ap (λ q. q >>= λ t. ok (changed p t))
            (commanded d laws r rpc l job_laws p.auto_server i cmd job has lt
              (omega (arith, lt, job_laws.terminate-fits)))
        ∙ >>=-assoc (run_command d r l job cmd) _ _,
  )

  -- When a process has started on the procedures of its command line, a client that is made for the name of its service has the
  -- prefix and the number of them, and for each procedure, at its place in the list, the information of the job that was created
  -- from it; and a command for this place runs this job in the process.
  pub main-connected :
      (files : Files d c u r l) (parser : Arguments) (p : Process d c u r l)
      (procs : List l.Procedure)
      → main d c u r l files parser ≡ ok (some p)
      → get_procedure_list d c u r l files parser ≡ ok procs
      → length procs < 2 ^ 32
      → (client : JobManager d r (Process d c u r l)) × (create_epics_job_manager d c u r l
            no_server parser.service
          ≡ ok client)
        × (client.get_server_prefix p ≡ ok parser.service)
        × (client.get_number_of_jobs p ≡ ok (length procs))
        × ((i : ℕ) (proc : l.Procedure)
            → get_elem? procs i ≡ some proc
            → (job : l.Job) × (l.create proc ≡ some job)
              × (client.get_job_info p i ≡ ok (l.get_info job))
              × ((cmd : ℕ)
                  → cmd < r.terminate
                  → client.send_job_command p i cmd ≡ (
                      run_command d r l job cmd >>= λ x.
                      ok (record p { auto_server = replaced d r l p.auto_server i x }))))
  main-connected files parser p procs e f fit =
      let s = main-Started d c u r l files parser p e in
      let same : s.procs ≡ procs = cc (s.found, f) in
      let server = server_manager d r l in
      let counted = length-Made d r l s.procs p.auto_server.jobs s.made in
      let n : number_of_jobs d r l p.auto_server ≡ length procs =
        omega (arith, counted, ap (λ (x : List l.Procedure). length x) same, fit) in
      (
        client_of parser.service,
        created parser.service,
        (reads p parser.service 0 s.served).0
            ∙ client_prefix d laws r rpc server p.auto_server parser.service
                (ap (λ x. ok x) s.prefixed),
        (reads p parser.service 0 s.served).1
            ∙ client_number d laws r rpc server p.auto_server (length procs) fit (ap (λ x. ok x) n),
        λ i proc at.
            let (job, g, h, b) =
              Made-at d r l s.procs p.auto_server.jobs i proc s.made
                (ap (λ (x : List l.Procedure). get_elem? x i) same ∙ at) in
            let small : length p.auto_server.jobs < 2 ^ 32 =
              omega (arith, counted, ap (λ (x : List l.Procedure). length x) same, fit) in
            let (x, y) = job_called p parser.service i job s.served (small, b, h) in (job, g, x, y),
      )
