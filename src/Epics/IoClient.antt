-- ===== src/Epics/IoClient.antt =====
-- epics/epics_io_client.cpp and epics/epics_input_client.cpp: the `IAnyValueIO` of a client, which monitors the values of a
-- server and gives what it reads to an `IAnyValueManager`. A callback of a process variable is one step, in which
-- `GetUserInput` of the manager returns.
pub mod Monitors
pub mod Alike
pub mod Ignored
pub mod Handlers
pub mod Requests
pub mod Answer
pub mod Forwarded
use oac_tree_server.Base.{
  ℕ, Bool, true, false, not, ◌||◌, List, [], ◌∷◌, ◌++◌, Bytes, Option, none, some, Result, ok,
  ◌>>=◌, if◌then◌else◌, ◌==◌, bytes_eq, map,
}
use oac_tree_server.External.Dto.{Dto}
use oac_tree_server.External.Codec.{Codec}
use oac_tree_server.External.Rpc.{Rpc}
use oac_tree_server.External.UserInput.{UserInput, UserInputRequest, UserInputReply}
use oac_tree_server.Protocol.Base64.{base64_decode}
use oac_tree_server.Protocol.Names.{input_request_name}
use oac_tree_server.Input.Codec.{decode_input_request}
use oac_tree_server.Input.Delegator as Delegator
use oac_tree_server.Input.Delegator.{ClientReplyDelegator, queue_reply, interrupt_all}
use oac_tree_server.Input.Remote.{send_reply}
use oac_tree_server.JobInfo.{AnyValueManager}
use oac_tree_server.Epics.Manager.{get_names}

module _ (d : Dto) (c : Codec d) (u : UserInput d) {M : Type 0} (m : AnyValueManager d M) where
  open d use {AnyValue}

  -- `PvAccessClientPV::ExtendedValue`.
  pub record ExtendedValue : Type 0 where
    pub connected : Bool
    pub value : AnyValue

  -- The two lambdas that are given to client PVs.
  pub data Callback : Type 0 where
    updates_value : Bytes → Callback
    handles_request : Bytes → Callback

  pub record ClientPv : Type 0 where
    pub channel : Bytes
    pub callback : Callback

  -- An `EPICSInputClient` and the `ClientReplyDelegator` that sends its replies through it.
  pub record InputHandler : Type 0 where
    pub server_name : Bytes
    pub delegator : ClientReplyDelegator d

  -- `av_mgr` is the state of the object that `m_av_mgr` refers to.
  pub record EpicsIoClient : Type 0 where
    pub av_mgr : M
    pub input_handler : Option InputHandler
    pub client_pvs : List ClientPv

  unfoldable pub construct : M → EpicsIoClient
  construct av_mgr = record { av_mgr = av_mgr; input_handler = none; client_pvs = [] }

  abbrev pub monitor_pv : Bytes → ClientPv
  monitor_pv channel = record { channel = channel; callback = updates_value channel }

  unfoldable pub add_any_values :
      EpicsIoClient → List (Bytes × AnyValue) → Result (EpicsIoClient × Bool)
  add_any_values s monitor_set = do
    (t, added) ← m.add_any_values s.av_mgr monitor_set
    ok (
        if not added then (record s { av_mgr = t }, false) else (
          record s {
            av_mgr = t;
            client_pvs = s.client_pvs ++ map monitor_pv (get_names monitor_set);
          },
          true,
        ))

  abbrev pub request_pv : Bytes → ClientPv
  request_pv server_name = record {
    channel = input_request_name server_name;
    callback = handles_request server_name;
  }

  abbrev pub new_handler : Bytes → InputHandler
  new_handler server_name = record { server_name = server_name; delegator = Delegator.init d }

  unfoldable pub add_input_handler : EpicsIoClient → Bytes → Result (EpicsIoClient × Bool)
  add_input_handler s server_name = do
    (t, added) ← m.add_input_handler s.av_mgr server_name
    ok (
        if not added then (record s { av_mgr = t }, false) else (
          record s {
            av_mgr = t;
            input_handler = some (new_handler server_name);
            client_pvs = s.client_pvs ++ request_pv server_name ∷ [];
          },
          true,
        ))

  unfoldable pub update_value : EpicsIoClient → Bytes → AnyValue → Result EpicsIoClient
  update_value s channel value =
      m.update_any_value s.av_mgr channel value >>= λ r. ok (record s { av_mgr = r.0 })

  -- `InterruptAll` of the delegator, whose interrupt function is bound to the manager and to the name of its server.
  unfoldable pub interrupt_handler : EpicsIoClient → InputHandler → Result EpicsIoClient
  interrupt_handler s h =
      let t : EpicsIoClient = record s {
        input_handler = some (record h { delegator = interrupt_all d h.delegator });
      } in
      if not (h.delegator.active_id == 0)
      then (m.interrupt s.av_mgr h.server_name h.delegator.active_id >>= λ av_mgr.
          ok (record t { av_mgr = av_mgr }))
      else ok t

  unfoldable pub ask_user :
      EpicsIoClient → InputHandler → Bytes → ℕ → UserInputRequest d → Result EpicsIoClient
  ask_user s h server_name id input_request =
      m.get_user_input s.av_mgr server_name id input_request >>= λ r. ok (record s {
        av_mgr = r.0;
        input_handler =
            some (record h {
              delegator = queue_reply d h.delegator (record { id = id; reply = r.1 });
            });
      })

  abbrev pub handle_request :
      EpicsIoClient → InputHandler → Bytes → Option (ℕ × UserInputRequest d) → Result EpicsIoClient
  handle_request s h server_name none = interrupt_handler s h
  handle_request s h server_name (some (id, input_request)) =
      if input_request.request_type == u.invalid_type
      then interrupt_handler s h
      else ask_user s h server_name id input_request

  -- There is a handler as soon as there is a callback that comes here.
  abbrev pub with_handler :
      EpicsIoClient
      → Bytes
      → Option (ℕ × UserInputRequest d)
      → Option InputHandler
      → Result EpicsIoClient
  with_handler s server_name req none = ok s
  with_handler s server_name req (some h) = handle_request s h server_name req

  unfoldable pub handle_user_input : EpicsIoClient → Bytes → AnyValue → Result EpicsIoClient
  handle_user_input s server_name req_av =
      decode_input_request d req_av >>= λ req. with_handler s server_name req s.input_handler

  abbrev pub on_decoded : EpicsIoClient → Callback → Option AnyValue → Result EpicsIoClient
  on_decoded s callback none = ok s
  on_decoded s (updates_value channel) (some value) = update_value s channel value
  on_decoded s (handles_request server_name) (some value) = handle_user_input s server_name value

  -- The lambdas.
  unfoldable pub call_back : EpicsIoClient → Callback → ExtendedValue → Result EpicsIoClient
  call_back s callback ext_val =
      if ext_val.connected then on_decoded s callback (base64_decode d c ext_val.value) else ok s

  -- A new value of a channel: the client PVs of the channel make their callbacks.
  unfoldable pub call_pvs :
      EpicsIoClient → List ClientPv → Bytes → ExtendedValue → Result EpicsIoClient
  call_pvs s [] channel ext_val = ok s
  call_pvs s (pv ∷ pvs) channel ext_val =
      (if bytes_eq pv.channel channel then call_back s pv.callback ext_val else ok s) >>= λ t.
      call_pvs t pvs channel ext_val

  unfoldable pub receive : EpicsIoClient → Bytes → ExtendedValue → Result EpicsIoClient
  receive s channel ext_val = call_pvs s s.client_pvs channel ext_val

  unfoldable pub receive_all : EpicsIoClient → List (Bytes × ExtendedValue) → Result EpicsIoClient
  unfolding receive
  receive_all s [] = ok s
  receive_all s ((channel, ext_val) ∷ rest) = receive s channel ext_val >>= λ t. receive_all t rest

  -- A step of the thread of the delegator.
  unfoldable pub work_handler : EpicsIoClient → EpicsIoClient
  work_handler s = elim s.input_handler [
    | none ↦ s
    | some h ↦ record s {
      input_handler =
          some (record h { delegator = Delegator.work d h.delegator h.delegator.worker });
    }
  ]

-- `EPICSInputClient::SetClientReply`, over the `Invoke` of the remote calls to the server with a name.
unfoldable pub set_client_reply :
    (d : Dto) (c : Codec d) (u : UserInput d) (r : Rpc d) {S : Type 0}
    → (Bytes → S → d.AnyValue → Result (S × ℕ))
    → Bytes
    → S
    → ℕ
    → UserInputReply d
    → Result (S × Bool)
set_client_reply d c u r invoke server_name s id reply =
    send_reply d c u r (invoke server_name) s id reply
