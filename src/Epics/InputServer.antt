-- ===== src/Epics/InputServer.antt =====
-- epics/epics_input_server.cpp: the server of the replies to the questions of one job, an `InputRequestServer` behind an
-- `InputProtocolServer`, which the remote call stack of sup-epics serves under the server's name.
use oac_tree_server.Base.{ℕ, Bool, Bytes, Option, Result, ok, ◌>>=◌}
use oac_tree_server.External.Dto.{Dto}
use oac_tree_server.External.Codec.{Codec}
use oac_tree_server.External.Rpc.{Rpc}
use oac_tree_server.External.UserInput.{UserInput, UserInputReply}
use oac_tree_server.Input.RequestServer as RequestServer
use oac_tree_server.Input.RequestServer.{InputRequestServer}
use oac_tree_server.Input.Remote.{invoke_input}

module _ (d : Dto) (u : UserInput d) where
  pub record EpicsInputServer : Type 0 where
    pub server_name : Bytes
    pub request_server : InputRequestServer d u

  unfoldable pub construct : Bytes → EpicsInputServer
  construct server_name = record {
    server_name = server_name;
    request_server = RequestServer.init d u;
  }

  unfoldable pub init_new_request : EpicsInputServer → ℕ → EpicsInputServer
  init_new_request s id = record s {
    request_server = RequestServer.init_new_request d u s.request_server id;
  }

  -- One visit of the waiting thread, as in the `InputRequestServer`.
  unfoldable pub wait_for_reply : EpicsInputServer → ℕ → Option (Bool × UserInputReply d)
  wait_for_reply s id = RequestServer.wait_for_reply d u s.request_server id

  unfoldable pub interrupt : EpicsInputServer → ℕ → EpicsInputServer
  interrupt s id = record s { request_server = RequestServer.interrupt d u s.request_server id }

  -- A remote call that arrives at the server.
  unfoldable pub invoke :
      (c : Codec d) (r : Rpc d) → EpicsInputServer → d.AnyValue → Result (EpicsInputServer × ℕ)
  invoke c r s input = invoke_input d c u r s.request_server input >>= λ a.
      ok (record s { request_server = a.0 }, a.1)
