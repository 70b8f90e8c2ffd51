-- ===== src/Epics/Delivery/Client.antt =====
-- epics/epics_io_client.cpp over base/client_anyvalue_manager.cpp: a client that listens to a job, and what it makes of the
-- values of the job's servers.
use mathlib.Core.List.{append_assoc, append-nil}
use oac_tree_server.Base.{
  ℕ, ◌^◌, ◌<◌, ◌≡◌, ◌≢◌, refl, sym, ap, ◌∙◌, ◌++◌, true, List, [], ◌∷◌, Bytes, some, ok, Result,
  ◌>>=◌, map, All, arith, lookup, Bool-cases, inl, inr, bytes_eq_refl, bytes_ne,
}
use oac_tree_server.External.Scalars.{has_name}
use oac_tree_server.External.Dto.{Dto, DtoLaws}
use oac_tree_server.External.Codec.{Codec, CodecLaws}
use oac_tree_server.External.UserInput.{UserInput}
use oac_tree_server.External.OacTree.{OacTree}
use oac_tree_server.Protocol.Base64.{base64_decode-encode}
use oac_tree_server.Protocol.Names.{input_server_name}
use oac_tree_server.Protocol.ValueName.{ValueNameType, value_name, info}
use oac_tree_server.JobInfo.{UserAnswers, AnyValueIo}
use oac_tree_server.JobInfo.ClientManager as ClientManager
use oac_tree_server.JobInfo.ClientManager.{ClientAnyValueManager, create_callback, client_manager}
use oac_tree_server.JobInfo.ValueSets.{
  initialize_job_and_variables, initialize_instructions, instruction_value_set,
}
use oac_tree_server.JobInfo.JobValues.{
  IsJobValue, job_value-IsIndexOf, instructions, instructions_new, has_job_value,
}
use oac_tree_server.JobInfo.InitialNames.{initial_values, initial_value_set_lem, instructions_lem}
use oac_tree_server.JobInfo.RequestName.{request_name, value_name-ne-request_name}
use oac_tree_server.JobInfo.Registrations.{AllRegistered, job_values-registered}
use oac_tree_server.JobInfo.Reports.{kind, index, shown, all_shown}
use oac_tree_server.Epics.Manager.{get_names}
use oac_tree_server.Epics.IoClient.{
  ClientPv, EpicsIoClient, construct, add_any_values, add_input_handler, monitor_pv, request_pv,
  new_handler, call_back, call_pvs, receive, receive_all, update_value,
}
use oac_tree_server.Epics.IoClient.Monitors.{
  pvs_of, pvs_of-append, pvs_of-monitors, call_pvs-pvs_of, shows,
}
use oac_tree_server.Epics.IoClient.Forwarded as Forwarded
use oac_tree_server.Epics.Delivery.{Told, call_name, calls_of, Decodes}
use oac_tree_server.Epics.Delivery.Server.{Encodes, published}

module _ (d : Dto) (c : Codec d) (codec_laws : CodecLaws d c) (u : UserInput d) (o : OacTree d)
    (answers : UserAnswers d) where
  abbrev pub Client : Type 0
  Client = EpicsIoClient d c u (client_manager d o u answers)

  -- `EPICSIOClient` as an `IAnyValueIO`.
  abbrev pub epics_io : AnyValueIo d Client
  epics_io = record {
    add_any_values = add_any_values d c u (client_manager d o u answers);
    add_input_handler = add_input_handler d c u (client_manager d o u answers);
  }

  -- A new client that is told the values of a job.
  unfoldable pub listen : Bytes → ℕ → ℕ → Result Client
  listen p n k =
      initialize_job_and_variables d o epics_io
        (construct d c u (client_manager d o u answers) (ClientManager.init d o)) p n
      >>= λ a. initialize_instructions d o epics_io a p k

  -- Each value of a job has one client PV.
  abbrev pub MonitorsJob : Bytes → ℕ → ℕ → Client → Type 0
  MonitorsJob p n k a =
      (q : ValueNameType) (i : ℕ)
      → IsJobValue n k q i
      → pvs_of d c codec_laws u (client_manager d o u answers) (value_name p q i) a.client_pvs
        ≡ monitor_pv d c u (client_manager d o u answers) (value_name p q i) ∷ []

  module _ (p : Bytes) where
    -- The channel of the report has one client PV.
    abbrev pub Monitored : Client → Told d o → Type 0
    Monitored a (r, v) =
        pvs_of d c codec_laws u (client_manager d o u answers) (call_name d o p r) a.client_pvs
        ≡ monitor_pv d c u (client_manager d o u answers) (call_name d o p r) ∷ []

    abbrev pub HasCallback : Client → Told d o → Type 0
    HasCallback a (r, v) =
        lookup (call_name d o p r) a.av_mgr.cb_map
        ≡ some (create_callback d o (info (kind d o r) (index d o r)))

    -- The client behind some reports.
    abbrev pub with_calls : Client → List (Told d o) → Client
    with_calls a us = record a {
      av_mgr = record a.av_mgr { calls = a.av_mgr.calls ++ all_shown d o (calls_of d o us) };
    }

    received_one :
        (a : Client) (r : Told d o) (w : d.AnyValue)
        → c.encode r.1 ≡ some w
        → Monitored a r
        → HasCallback a r
        → Decodes d o r
        → receive d c u
            (client_manager d o u answers)
            a
            (call_name d o p r.0)
            (shows d c codec_laws u (client_manager d o u answers) w)
          ≡ ok (record a { av_mgr = record a.av_mgr { calls = a.av_mgr.calls ++ shown d o r.0 } })
    unfolding receive call_pvs call_back update_value ClientManager.update_any_value
    received_one a (r, v) w e h k q =
        let m = client_manager d o u answers in
        let n = call_name d o p r in
        call_pvs-pvs_of d c codec_laws u m a a.client_pvs n (shows d c codec_laws u m w)
        ∙ rw h (
            rw (bytes_eq_refl n, call_back, base64_decode-encode d c v w codec_laws e)
              (rw (update_value, ClientManager.update_any_value, k, q) refl))

    -- A client that listens to the values makes the reports that a server has published.
    pub receive_all-published :
        (encodes : Encodes d c) (a : Client) (us : List (Told d o))
        → All (Monitored a) us
        → All (HasCallback a) us
        → All (Decodes d o) us
        → receive_all d c u (client_manager d o u answers) a (
            Forwarded.shown d c codec_laws u
              (client_manager d o u answers)
              (published d c o p encodes us))
          ≡ ok (with_calls a us)
    unfolding receive_all all_shown
    receive_all-published encodes a [] ms hs ds =
        ap (λ cs. ok (record a { av_mgr = record a.av_mgr { calls = cs } }))
          (sym (append-nil a.av_mgr.calls))
    receive_all-published encodes a ((r, v) ∷ us) (m, ms) (h, hs) (e, ds) =
        let b : Client = record a {
          av_mgr = record a.av_mgr { calls = a.av_mgr.calls ++ shown d o r };
        } in
        ap
          (λ t. t >>= λ b. receive_all d c u (client_manager d o u answers) b (
            Forwarded.shown d c codec_laws u (client_manager d o u answers)
              (published d c o p encodes us)))
          (received_one a (r, v) (encodes v).0 (encodes v).1 m h e)
        ∙ receive_all-published encodes b us ms hs ds
        ∙ ap (λ cs. ok (record a { av_mgr = record a.av_mgr { calls = cs } }))
            (append_assoc a.av_mgr.calls (shown d o r) (all_shown d o (calls_of d o us)))

  module _ (laws : DtoLaws d) (p : Bytes) (ne : p ≢ []) (n k : ℕ) (hn : n < 2 ^ 32)
      (hk : k < 2 ^ 32) where
    abbrev monitors :
        List (Bytes × d.AnyValue) → List (ClientPv d c u (client_manager d o u answers))
    monitors vs = map (monitor_pv d c u (client_manager d o u answers)) (get_names vs)

    abbrev listening : ClientAnyValueManager d o → Client
    listening t = record {
      av_mgr = t;
      input_handler = some (new_handler d c u (client_manager d o u answers) (input_server_name p));
      client_pvs =
          (monitors (initial_values d o p ne n)
            ++ request_pv d c u (client_manager d o u answers) (input_server_name p) ∷ [])
          ++ monitors (instructions d o p ne k);
    }

    one_pv :
        (t : ClientAnyValueManager d o) (q : ValueNameType) (i : ℕ)
        → IsJobValue n k q i
        → pvs_of d c codec_laws u
            (client_manager d o u answers)
            (value_name p q i)
            (listening t).client_pvs
          ≡ monitor_pv d c u (client_manager d o u answers) (value_name p q i) ∷ []
    unfolding pvs_of
    one_pv t q i j =
        let m = client_manager d o u answers in
        let x = value_name p q i in
        let vs = initial_values d o p ne n in
        let ws = instructions d o p ne k in
        let no_request =
          bytes_ne (request_name p) x
            (λ e. value_name-ne-request_name p q i (job_value-IsIndexOf n k q i hn hk j) (sym e)) in
        let split =
          pvs_of-append d c codec_laws u m x
            (monitors vs ++ request_pv d c u m (input_server_name p) ∷ []) (monitors ws)
          ∙ ap (λ l. l ++ pvs_of d c codec_laws u m x (monitors ws))
              (pvs_of-append d c codec_laws u m x (monitors vs)
                (request_pv d c u m (input_server_name p) ∷ [])) in
        elim (Bool-cases (has_name x ws)) [
          | inl f ↦
              split
              ∙ simp
                  (
                    pvs_of-monitors d c codec_laws u m x vs,
                    pvs_of-monitors d c codec_laws u m x ws,
                    no_request,
                    f,
                    instructions_new d o p ne n k x hn hk f,
                  )
                  refl
          | inr f ↦
              let g : has_name x vs ≡ true = ground (arith, has_job_value d o p ne n k q i j) in
              split
              ∙ simp
                  (
                    pvs_of-monitors d c codec_laws u m x vs,
                    pvs_of-monitors d c codec_laws u m x ws,
                    no_request,
                    f,
                    g,
                  )
                  refl
        ]

    pub listen_lem :
        (a : Client) × (listen p n k ≡ ok a)
        × AllRegistered d laws o p n k a.av_mgr
        × MonitorsJob p n k a
    unfolding listen initialize_job_and_variables initialize_instructions instruction_value_set
        construct add_any_values add_input_handler
    listen_lem =
        let (s, t, e, f, r) = job_values-registered d laws o p ne n k hn hk in
        (
          listening t,
          simp (initial_value_set_lem d o p ne n laws, e, instructions_lem d o p ne 0 k, f) refl,
          r,
          one_pv t,
        )
