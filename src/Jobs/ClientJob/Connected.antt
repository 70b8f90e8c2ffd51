-- ===== src/Jobs/ClientJob/Connected.antt =====
-- base/client_job.cpp over base/automation_server.cpp: a job of a client runs the job of the server.
use oac_tree_server.Base.{
  ℕ, ◌^◌, ◌<◌, ◌≡◌, refl, ap, ◌∙◌, Bool, true, false, Option, some, Result, ok, or_throw, ◌>>=◌,
  ◌==◌, leb, if◌then◌else◌, length, get_elem?, arith,
}
use oac_tree_server.External.Scalars.{FitsUint32}
use oac_tree_server.External.Dto.{Dto, DtoLaws}
use oac_tree_server.External.Rpc.{Rpc, RpcLaws}
use oac_tree_server.External.LocalJob.{LocalJobs, LocalJobsLaws}
use oac_tree_server.Jobs.{JobManager}
use oac_tree_server.Jobs.Remote.{connected}
use oac_tree_server.Jobs.RemoteControl.{client_edit}
use oac_tree_server.Jobs.RemoteCommand.{client_command}
use oac_tree_server.Jobs.Server.{
  AutomationServer, number_of_jobs, get_job, job_info, change_breakpoint, send_command, run_command,
  replaced, server_manager,
}
use oac_tree_server.Jobs.ClientJob.{
  protocol_client, set_breakpoint, remove_breakpoint, start, step, pause, reset, halt,
}

module _ (d : Dto) (laws : DtoLaws d) (r : Rpc d) (rpc : RpcLaws d r) (l : LocalJobs d r)
    (job_laws : LocalJobsLaws d r l) where
  abbrev pub remote : JobManager d r (AutomationServer d r l)
  remote = protocol_client d r (connected d laws r rpc (server_manager d r l))

  -- The job with the index `i` of a server whose number of jobs fits.
  abbrev pub HasJob : AutomationServer d r l → ℕ → l.Job → Type 0
  HasJob s i job = (length s.jobs < 2 ^ 32) × (i < length s.jobs) × (get_elem? s.jobs i ≡ some job)

  pub below :
      (s : AutomationServer d r l) (i : ℕ) (job : l.Job)
      → HasJob s i job
      → leb (number_of_jobs d r l s) i ≡ false
  below s i job (a, b, e) = ground arith

  pub fits : (s : AutomationServer d r l) (i : ℕ) (job : l.Job) → HasJob s i job → FitsUint32 i
  fits s i job (a, b, e) = omega (arith, a, b)

  pub number_fits : (s : AutomationServer d r l) → FitsUint32 (number_of_jobs d r l s)
  number_fits s = omega arith

  pub found :
      (s : AutomationServer d r l) (i : ℕ) (job : l.Job)
      → HasJob s i job
      → get_job d r l s i ≡ ok job
  unfolding get_job
  found s i job (a, b, e) =
      let q : leb (length s.jobs) i ≡ false = ground arith in rw (get_job, q, e) refl

  pub commanded :
      (s : AutomationServer d r l) (i c : ℕ) (job : l.Job)
      → HasJob s i job
      → c < r.terminate
      → FitsUint32 c
      → remote.send_job_command s i c
        ≡ (run_command d r l job c >>= λ changed. ok (replaced d r l s i changed))
  unfolding send_command
  commanded s i c job has lt hc =
      let q : leb r.terminate c ≡ false = ground arith in
      client_command d laws r rpc (server_manager d r l) s i c (number_of_jobs d r l s)
        (fits s i job has) hc refl
      ∙ rw (below s i job has, q, send_command, found s i job has) refl

  edited :
      (s : AutomationServer d r l) (i j : ℕ) (b : Bool) (job : l.Job)
      → HasJob s i job
      → FitsUint32 j
      → j < r.number_of_instructions (l.get_info job)
      → remote.edit_breakpoint s i j b ≡ (
          or_throw (if b then l.set_breakpoint job j else l.remove_breakpoint job j) >>= λ changed.
          ok (replaced d r l s i changed))
  unfolding change_breakpoint job_info
  edited s i j b job has hj lt =
      let q : leb (r.number_of_instructions (l.get_info job)) j ≡ false = ground arith in
      let f = found s i job has in
      client_edit d laws r rpc (server_manager d r l) s i j (number_of_jobs d r l s) b
        (fits s i job has) hj refl
      ∙ rw (below s i job has, job_info, f, q, change_breakpoint) refl

  run_commands :
      (job : l.Job)
      → (run_command d r l job l.start_command ≡ or_throw (l.start job))
        × (run_command d r l job l.step_command ≡ or_throw (l.step job))
        × (run_command d r l job l.pause_command ≡ or_throw (l.pause job))
        × (run_command d r l job l.reset_command ≡ or_throw (l.reset job))
        × (run_command d r l job l.halt_command ≡ or_throw (l.halt job))
  unfolding run_command
  run_commands job =
      let same : (n : ℕ) → (n == n) ≡ true = λ n. ground arith in
      (
        rw (run_command, same l.start_command) refl,
        rw (run_command, job_laws.start-ne-step, same l.step_command) refl,
        rw (run_command, job_laws.start-ne-pause, job_laws.step-ne-pause, same l.pause_command)
            refl,
        rw
            (
              run_command,
              job_laws.start-ne-reset,
              job_laws.step-ne-reset,
              job_laws.pause-ne-reset,
              same l.reset_command,
            )
            refl,
        rw
            (
              run_command,
              job_laws.start-ne-halt,
              job_laws.step-ne-halt,
              job_laws.pause-ne-halt,
              job_laws.reset-ne-halt,
              same l.halt_command,
            )
            refl,
      )

  -- What the server is after a call on its job `i`.
  abbrev pub after : AutomationServer d r l → ℕ → Option l.Job → Result (AutomationServer d r l)
  after s i changed = or_throw changed >>= λ job. ok (replaced d r l s i job)

  run_on :
      (s : AutomationServer d r l) (i c : ℕ) (job : l.Job) (changed : Option l.Job)
      → HasJob s i job
      → c < r.terminate
      → run_command d r l job c ≡ or_throw changed
      → remote.send_job_command s i c ≡ after s i changed
  run_on s i c job changed has lt e =
      commanded s i c job has lt (omega (arith, lt, job_laws.terminate-fits))
      ∙ ap (λ q. q >>= λ x. ok (replaced d r l s i x)) e

  -- A job of a client that is connected to the protocol servers of an `AutomationServer` acts on the server's job with its index, and
  -- on no other: each method is the method of that job, whose exceptions reach the client, for breakpoints at instructions of the job.
  pub client_job-runs :
      (s : AutomationServer d r l) (i j : ℕ) (job : l.Job)
      → HasJob s i job
      → FitsUint32 j
      → j < r.number_of_instructions (l.get_info job)
      → (start d r l remote i s ≡ after s i (l.start job))
        × (step d r l remote i s ≡ after s i (l.step job))
        × (pause d r l remote i s ≡ after s i (l.pause job))
        × (reset d r l remote i s ≡ after s i (l.reset job))
        × (halt d r l remote i s ≡ after s i (l.halt job))
        × (set_breakpoint d r l remote i s j ≡ after s i (l.set_breakpoint job j))
        × (remove_breakpoint d r l remote i s j ≡ after s i (l.remove_breakpoint job j))
  unfolding start step pause reset halt set_breakpoint remove_breakpoint
  client_job-runs s i j job has hj lt =
      let (a, b, c, e, f) = run_commands job in
      (
        run_on s i l.start_command job _ has job_laws.start-lt a,
        run_on s i l.step_command job _ has job_laws.step-lt b,
        run_on s i l.pause_command job _ has job_laws.pause-lt c,
        run_on s i l.reset_command job _ has job_laws.reset-lt e,
        run_on s i l.halt_command job _ has job_laws.halt-lt f,
        edited s i j true job has hj lt,
        edited s i j false job has hj lt,
      )
