-- ===== src/Launch/Started.antt =====
-- src/app/oac-tree-server/main.cpp: what a process holds that has started.
use oac_tree_server.Base.{
  ℕ, zero, suc, ◌<◌, ◌≡◌, refl, sym, ap, ◌∙◌, subst, Bool, true, false, not, List, [], ◌∷◌, ◌++◌,
  none, some, ok, or_throw, ◌>>=◌, if◌then◌else◌, length, get_elem?, arith, bind_inversion,
  or_throw-eq-ok,
}
use mathlib.Core.List.{append_assoc, append-nil}
use oac_tree_server.External.Dto.{Dto}
use oac_tree_server.External.Codec.{Codec}
use oac_tree_server.External.UserInput.{UserInput}
use oac_tree_server.External.Rpc.{Rpc}
use oac_tree_server.External.LocalJob.{LocalJobs}
use oac_tree_server.Jobs.Server as Server
use oac_tree_server.Jobs.Server.{AutomationServer, add_job, server_manager, run_command, replaced}
use oac_tree_server.Launch.{
  Files, Arguments, get_procedure_list, add_jobs, Process, main, create_registry, rpc_servers_of,
}

module _ (d : Dto) (r : Rpc d) (l : LocalJobs d r) where
  -- The jobs are those of the procedures, in their order.
  abbrev pub Made : List l.Procedure → List l.Job → Type 0
  Made [] [] = Unit
  Made [] (job ∷ jobs) = ⊥
  Made (proc ∷ procs) [] = ⊥
  Made (proc ∷ procs) (job ∷ jobs) = (l.create proc ≡ some job) × Made procs jobs

  pub length-Made :
      (procs : List l.Procedure) (jobs : List l.Job) → Made procs jobs → length jobs ≡ length procs
  length-Made [] [] h = refl
  length-Made [] (job ∷ jobs) h = absurd h
  length-Made (proc ∷ procs) [] h = absurd h
  length-Made (proc ∷ procs) (job ∷ jobs) (e, h) = ap (λ n. suc n) (length-Made procs jobs h)

  pub Made-at :
      (procs : List l.Procedure) (jobs : List l.Job) (i : ℕ) (proc : l.Procedure)
      → Made procs jobs
      → get_elem? procs i ≡ some proc
      → (job : l.Job) × (l.create proc ≡ some job)
        × (get_elem? jobs i ≡ some job)
        × (i < length jobs)
  Made-at [] jobs i proc h e = cc
  Made-at (p ∷ procs) [] i proc h e = absurd h
  Made-at (p ∷ procs) (job ∷ jobs) zero proc (a, h) e =
      (job, ap l.create (sym (cc (e))) ∙ a, refl, omega arith)
  Made-at (p ∷ procs) (job ∷ jobs) (suc i) proc (a, h) e =
      let (j, f, g, b) = Made-at procs jobs i proc h e in (j, f, g, omega (arith, b))

  add_job_lem :
      (s t : AutomationServer d r l) (proc : l.Procedure)
      → add_job d r l s proc ≡ ok t
      → (job : l.Job) × (l.create proc ≡ some job)
        × (t.jobs ≡ s.jobs ++ job ∷ [])
        × (t.server_prefix ≡ s.server_prefix)
  unfolding add_job
  add_job_lem s t proc e =
      let (job, g, f) = bind_inversion (or_throw (l.create proc)) _ e in
      (job, or_throw-eq-ok (l.create proc) f, cc (g), cc (g))

module _ (d : Dto) (c : Codec d) (u : UserInput d) (r : Rpc d) (l : LocalJobs d r) where
  add_jobs_lem :
      (s t : AutomationServer d r l) (procs : List l.Procedure)
      → add_jobs d c u r l s procs ≡ ok t
      → (jobs : List l.Job) × Made d r l procs jobs
        × (t.jobs ≡ s.jobs ++ jobs)
        × (t.server_prefix ≡ s.server_prefix)
  unfolding add_jobs
  add_jobs_lem s t [] e =
      let f : s ≡ t = cc (e) in
      (
        [],
        tt,
        ap (λ (x : AutomationServer d r l). x.jobs) (sym f) ∙ sym (append-nil s.jobs),
        ap (λ (x : AutomationServer d r l). x.server_prefix) (sym f),
      )
  add_jobs_lem s t (proc ∷ procs) e =
      let (m, g, f) = bind_inversion (add_job d r l s proc) _ e in
      let (job, a, b, p) = add_job_lem d r l s m proc f in
      let (jobs, h, q, p') = add_jobs_lem m t procs g in
      (job ∷ jobs, (a, h), q ∙ ap (λ x. x ++ jobs) b ∙ append_assoc s.jobs (job ∷ []) jobs, p' ∙ p)

  -- The objects of the process are made for the procedures that were found.
  pub record Started (files : Files d c u r l) (parser : Arguments) (p : Process d c u r l)
      : Type 0 where
    pub procs : List l.Procedure
    pub found : get_procedure_list d c u r l files parser ≡ ok procs
    pub made : Made d r l procs p.auto_server.jobs
    pub prefixed : p.auto_server.server_prefix ≡ parser.service
    pub served : p.rpc_servers ≡ rpc_servers_of d c u r l parser.service
    pub registered : p.registry ≡ create_registry d c u r l (length procs)

  pub main-Started :
      (files : Files d c u r l) (parser : Arguments) (p : Process d c u r l)
      → main d c u r l files parser ≡ ok (some p)
      → Started files parser p
  unfolding main Server.init
  main-Started files parser p e = by_parsed parser.parsed e
    where
      by_parsed :
          (b : Bool)
          → (if not b
              then ok none
              else get_procedure_list d c u r l files parser >>= λ proc_list.
                  add_jobs d c u r l (Server.init d r l parser.service) proc_list >>= λ auto_server.
                  ok (
                    some (record {
                      registry = create_registry d c u r l (length proc_list);
                      auto_server = auto_server;
                      rpc_servers = rpc_servers_of d c u r l parser.service;
                    })))
            ≡ ok (some p)
          → Started files parser p
      by_parsed false h = cc
      by_parsed true h =
          let (procs, g, f) = bind_inversion (get_procedure_list d c u r l files parser) _ h in
          let (server, k, a) =
            bind_inversion (add_jobs d c u r l (Server.init d r l parser.service) procs) _ g in
          let (jobs, m, q, x) = add_jobs_lem (Server.init d r l parser.service) server procs a in
          let same : p.auto_server ≡ server = cc (k) in
          record {
            procs = procs;
            found = f;
            made =
                subst (Made d r l procs)
                  (sym (ap (λ (y : AutomationServer d r l). y.jobs) same ∙ q)) m;
            prefixed = ap (λ (y : AutomationServer d r l). y.server_prefix) same ∙ x;
            served = cc (k);
            registered = cc (k);
          }
