-- ===== src/Epics/IoClient/Handlers.antt =====
-- epics/epics_io_client.cpp: whoever is called back for a question finds the objects that it uses, and they are
-- those of a server to which the client listens.
use oac_tree_server.Base.{
  ◌≡◌, Bool, true, false, ◌||◌, List, [], ◌∷◌, Bytes, some, ok, bytes_eq, All,
}
use oac_tree_server.External.Scalars.{is_some}
use oac_tree_server.External.Dto.{Dto}
use oac_tree_server.External.Codec.{Codec}
use oac_tree_server.External.UserInput.{UserInput}
use oac_tree_server.Input.Delegator as Delegator
use oac_tree_server.JobInfo.{AnyValueManager}
use oac_tree_server.Epics.IoClient.{
  ExtendedValue, ClientPv, Callback, updates_value, handles_request, EpicsIoClient, InputHandler,
  construct, add_any_values, add_input_handler, receive, work_handler,
}
use oac_tree_server.Epics.IoClient.Alike.{Alike}

module _ (d : Dto) (c : Codec d) (u : UserInput d) {M : Type 0} (m : AnyValueManager d M) where
  open d use {AnyValue}

  abbrev Client : Type 0
  Client = EpicsIoClient d c u m

  -- The callback is for questions.
  abbrev pub for_questions : Callback d c u m → Bool
  for_questions (updates_value k) = false
  for_questions (handles_request n) = true

  abbrev for_server : Bytes → Callback d c u m → Bool
  for_server n (updates_value k) = false
  for_server n (handles_request n') = bytes_eq n' n

  -- Some client PV listens for the questions of the server.
  pub listens : Bytes → List (ClientPv d c u m) → Bool
  listens n [] = false
  listens n (pv ∷ pvs) = for_server n pv.callback || listens n pvs

  -- The objects that the callbacks use are there, and are those of a server to which the client listens.
  pub record HasHandlers (s : Client) : Type 0 where
    pub guarded :
        All
          (λ (pv : ClientPv d c u m).
            for_questions pv.callback ≡ true → is_some s.input_handler ≡ true)
          s.client_pvs
    pub listened :
        (h : InputHandler d c u m)
        → s.input_handler ≡ some h
        → listens h.server_name s.client_pvs ≡ true

  -- The states that the public methods, values of the server, and the thread of the delegator lead to.
  pub data Reachable : Client → Type 0 where
    constructs : (av_mgr : M) → Reachable (construct d c u m av_mgr)
    adds :
        {s t : Client} {b : Bool}
        → Reachable s
        → (vs : List (Bytes × AnyValue)) → add_any_values d c u m s vs ≡ ok (t, b)
        → Reachable t
    handles :
        {s t : Client} {b : Bool}
        → Reachable s
        → (n : Bytes) → add_input_handler d c u m s n ≡ ok (t, b)
        → Reachable t
    receives :
        {s t : Client}
        → Reachable s
        → (k : Bytes) (e : ExtendedValue d c u m) → receive d c u m s k e ≡ ok t
        → Reachable t
    works : {s : Client} → Reachable s → Reachable (work_handler d c u m s)
