-- ===== src/Epics/Delivery/Delivered.antt =====
-- From the reports of a job on the server to the `IJobInfoIO` of a client, through process variables.
use oac_tree_server.Base.{
  ℕ, ◌^◌, ◌<◌, ◌≡◌, ◌≢◌, refl, sym, ap, ◌∙◌, subst, ◌++◌, Bool, List, [], ◌∷◌, Bytes, some, ok, All,
  get_elem?, length,
}
use oac_tree_server.External.Dto.{Dto, DtoLaws}
use oac_tree_server.External.Codec.{Codec, CodecLaws}
use oac_tree_server.External.UserInput.{UserInput, UserInputReply}
use oac_tree_server.External.OacTree.{OacTree, OacTreeLaws}
use oac_tree_server.JobInfo.{
  JobInfoCall, UserAnswers, init_number_of_instructions, instruction_state_updated,
  breakpoint_instruction_updated, variable_updated, job_state_updated, put_value, interrupt,
  message, log,
}
use oac_tree_server.JobInfo.JobValues.{IsJobValue}
use oac_tree_server.JobInfo.Session.{InRange}
use oac_tree_server.JobInfo.Registrations.{AllRegistered}
use oac_tree_server.JobInfo.Reports.{kind, index, IsReport, Fits, all_shown, report_all, generators}
use oac_tree_server.Epics.Queue.Loop.{EpicsServer, update_loop_round, run}
use oac_tree_server.Epics.Queue.Publish.{published-run}
use oac_tree_server.Epics.Manager.{EpicsAnyValueManager}
use oac_tree_server.Epics.Manager.Interface.{epics_manager}
use oac_tree_server.Epics.Manager.Served.{JobServer, serve, served, serve_lem}
use oac_tree_server.Epics.Manager.Served.Found.{servers_lem, find_server-served}
use oac_tree_server.Epics.IoClient.{receive_all}
use oac_tree_server.Epics.IoClient.Forwarded as Forwarded
use oac_tree_server.Epics.Delivery.{
  Told, calls_of, reports_at, told_at, Decodes, behind, reports-Makes, All-told, All-told_at,
  calls_of-told_at,
}
use oac_tree_server.Epics.Delivery.Server.{
  Encodes, events, published, before_exit-pushed, FoundAtHome, update_all-Tells, Idle, three-Idle,
}
use oac_tree_server.Epics.Delivery.Client.{
  Client, listen, listen_lem, MonitorsJob, Monitored, HasCallback, with_calls,
  receive_all-published,
}
use oac_tree_server.JobInfo.ClientManager.{client_manager}

module _ (d : Dto) (laws : DtoLaws d) (c : Codec d) (codec_laws : CodecLaws d c) (u : UserInput d)
    (o : OacTree d) (tree_laws : OacTreeLaws d u o) (answers : UserAnswers d)
    (wait : EpicsAnyValueManager d c u
      → Bytes
      → ℕ
      → EpicsAnyValueManager d c u × (Bool × UserInputReply d))
    (encodes : Encodes d c) where
  in_range :
      (n k : ℕ) (r : JobInfoCall d o)
      → InRange d laws o u tree_laws answers n k r
      → IsReport d o r
      → Fits d o r × IsJobValue n k (kind d o r) (index d o r)
  unfolding InRange
  in_range n k (init_number_of_instructions i) h q = absurd q
  in_range n k (interrupt id) h q = absurd q
  in_range n k (instruction_state_updated i state) h q = (tt, h)
  in_range n k (breakpoint_instruction_updated i) h q = (h, refl)
  in_range n k (variable_updated i v b) h q = (tt, h)
  in_range n k (job_state_updated i) h q = (h, refl)
  in_range n k (put_value v text) h q = (tt, refl)
  in_range n k (message text) h q = (tt, refl)
  in_range n k (log severity text) h q = (h, refl)

  -- The value that carries a report is one of the job's.
  abbrev OfJob : ℕ → ℕ → JobInfoCall d o → Type 0
  OfJob n k r = IsJobValue n k (kind d o r) (index d o r)

  in_ranges :
      (n k : ℕ) (cs : List (JobInfoCall d o))
      → All (InRange d laws o u tree_laws answers n k) cs
      → All (IsReport d o) cs
      → All (Fits d o) cs × All (OfJob n k) cs
  in_ranges n k [] h r = (tt, tt)
  in_ranges n k (c ∷ cs) (h, hs) (r, rs) =
      let (f, j) = in_range n k c h r in let (fs, js) = in_ranges n k cs hs rs in ((f, fs), (j, js))

  module _ (p : Bytes) (ne : p ≢ []) (n k : ℕ) (hn : n < 2 ^ 32) (hk : k < 2 ^ 32) where
    abbrev job : JobServer d c o u wait
    job = served d c o u wait laws p ne n k hn hk

    -- Each of the three servers starts with an empty queue.
    server_at_start :
        (j : ℕ)
        → j < 3
        → (v : EpicsServer d c) × (get_elem? job.manager.servers j ≡ some v) × Idle d c v
    server_at_start j h =
        rw (servers_lem d c o u wait laws p ne n k hn hk) (three-Idle d c u encodes _ _ _ j h)

    -- A client that listens to the job makes the reports that a server has published.
    receives_told :
        (a : Client d c codec_laws u o answers) (us : List (Told d o)) (j : ℕ)
        → AllRegistered d laws o p n k a.av_mgr
        → MonitorsJob d c codec_laws u o answers p n k a
        → All (OfJob n k) (calls_of d o us)
        → All (Decodes d o) us
        → receive_all d c u (client_manager d o u answers) a (
            Forwarded.shown d c codec_laws u
              (client_manager d o u answers)
              (published d c o p encodes (told_at d o j us)))
          ≡ ok (with_calls d c codec_laws u o answers p a (told_at d o j us))
    receives_told a us j registered monitored of_told ds =
        receive_all-published d c codec_laws u o answers p encodes a (told_at d o j us)
          (All-told_at d o (Monitored d c codec_laws u o answers p a) j us (
            All-told d o (OfJob n k) (Monitored d c codec_laws u o answers p a) us
              (λ r v h. monitored (kind d o r) (index d o r) h) of_told))
          (All-told_at d o (HasCallback d c codec_laws u o answers p a) j us (
            All-told d o (OfJob n k) (HasCallback d c codec_laws u o answers p a) us
              (λ r v h. registered (kind d o r) (index d o r) h) of_told))
          (All-told_at d o (Decodes d o) j us ds)

    -- A job with a non-empty prefix and numbers of variables and instructions below 2^32 is served, and a new client
    -- listens to it, without an exception. Whatever the job then reports about its own variables and instructions, without
    -- interrupts, is taken, where the codec encodes every value; and from what each of the three servers has published
    -- behind one more round of its thread, the client's `IJobInfoIO` receives exactly the reports whose values the server has,
    -- once and in their order, except those of empty variable values.
    pub reports-delivered :
        (cs : List (JobInfoCall d o)) (j : ℕ)
        → All (InRange d laws o u tree_laws answers n k) cs
        → All (IsReport d o) cs
        → j < 3
        → (s : JobServer d c o u wait) × (t : JobServer d c o u wait) × (a : Client d c codec_laws u
            o answers)
          × (b : Client d c codec_laws u o answers) × (v : EpicsServer d c) × (serve d c o u wait p
                n k
              ≡ ok s)
          × (report_all d o (epics_manager d c u wait) s cs ≡ ok t)
          × (listen d c codec_laws u o answers p n k ≡ ok a)
          × (get_elem? t.manager.servers j ≡ some v)
          × (receive_all d c u (client_manager d o u answers) a (
                Forwarded.shown d c codec_laws u
                  (client_manager d o u answers)
                  (update_loop_round d c v).published)
              ≡ ok b)
          × (b.av_mgr.calls ≡ a.av_mgr.calls ++ all_shown d o (reports_at d o j cs))
    reports-delivered cs j hs rs hj =
        let m = epics_manager d c u wait in
        let (fits, of_job) = in_ranges n k cs hs rs in
        let (us, g, e, ds, makes) =
          reports-Makes d laws o u tree_laws m (generators d o m job) cs rs fits in
        let of_told = subst (All (OfJob n k)) (sym e) of_job in
        let (q, f, tells) =
          update_all-Tells d c o u wait encodes p job.manager us
            (All-told d o (OfJob n k) (FoundAtHome d c o u wait encodes p job.manager) us
              (λ r v h.
                find_server-served d c o u wait laws p ne n k hn hk (kind d o r) (index d o r) h)
              of_told)
            (ap length (servers_lem d c o u wait laws p ne n k hn hk)) in
        let (a, l, registered, monitored) =
          listen_lem d c codec_laws u o answers laws p ne n k hn hk in
        let (v, x, idle) = server_at_start j hj in
        let (shows, _) =
          published-run d c v (events d c o p (told_at d o j us)) idle.0 idle.1 idle.2 in
        (
          job,
          behind d laws o u tree_laws m job g q,
          a,
          with_calls d c codec_laws u o answers p a (told_at d o j us),
          run d c v (events d c o p (told_at d o j us)),
          serve_lem d c o u wait laws p ne n k hn hk,
          makes job q refl f,
          l,
          tells j v x,
          ap
                (λ l.
                  receive_all d c u (client_manager d o u answers) a
                    (Forwarded.shown d c codec_laws u (client_manager d o u answers) l))
                (shows ∙ before_exit-pushed d c o p encodes (told_at d o j us))
              ∙ receives_told a us j registered monitored of_told ds,
          ap (λ r. a.av_mgr.calls ++ all_shown d o r)
              (calls_of-told_at d o j us ∙ ap (reports_at d o j) e),
        )
