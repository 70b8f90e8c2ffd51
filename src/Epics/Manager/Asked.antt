-- ===== src/Epics/Manager/Asked.antt =====
-- epics/epics_anyvalue_manager.cpp: `GetUserInput` as a whole, while other threads reply and interrupt.
use oac_tree_server.Base.{
  ℕ, ◌≡◌, Bool, false, List, [], ◌∷◌, ◌++◌, Bytes, Option, none, some, get_elem?, set,
}
use oac_tree_server.External.Dto.{Dto}
use oac_tree_server.External.Codec.{Codec}
use oac_tree_server.External.UserInput.{UserInput, UserInputRequest, UserInputReply}
use oac_tree_server.Protocol.Names.{input_request_name}
use oac_tree_server.Input.Codec.{encode_input_request, input_request_any_value}
use oac_tree_server.Input.RequestServer as RequestServer
use oac_tree_server.Input.RequestServer.{Call}
use oac_tree_server.Epics.Queue.{create_value_update, push}
use oac_tree_server.Epics.Queue.Loop.{EpicsServer}
use oac_tree_server.Epics.InputServer.{EpicsInputServer, init_new_request, wait_for_reply}
use oac_tree_server.Epics.Manager.{
  EpicsAnyValueManager, at_input_server, find_server, find_input_server,
}

module _ (d : Dto) (c : Codec d) (u : UserInput d) where
  abbrev Manager : Type 0
  Manager = EpicsAnyValueManager d c u

  -- The calls of other threads at an input server.
  abbrev pub called : List (Call d u) → EpicsInputServer d u → EpicsInputServer d u
  called calls q = record q { request_server = RequestServer.run d u q.request_server calls }

  -- What the thread gets that waits; the failure stands for a wait that does not end.
  abbrev pub fetched : Option (Bool × UserInputReply d) → Bool × UserInputReply d
  fetched none = (false, u.invalid_reply)
  fetched (some r) = r

  abbrev pub visit : ℕ → Option (EpicsInputServer d u) → Bool × UserInputReply d
  visit id none = (false, u.invalid_reply)
  visit id (some q) = fetched (wait_for_reply d u q id)

  abbrev pub waited_at :
      List (Call d u) → Manager → ℕ → Option ℕ → Manager × (Bool × UserInputReply d)
  waited_at calls t id none = (t, (false, u.invalid_reply))
  waited_at calls t id (some i) =
      let t' = at_input_server d c u (called calls) t i (get_elem? t.input_servers i) in
      (t', visit id (get_elem? t'.input_servers i))

  -- The calls come to the input server, then the thread looks.
  abbrev pub waits_for : List (Call d u) → Manager → Bytes → ℕ → Manager × (Bool × UserInputReply d)
  waits_for calls t name id = waited_at calls t id (find_input_server d c u t name)

  -- A server that was told two values.
  abbrev pub told : EpicsServer d c → Bytes → d.AnyValue → d.AnyValue → EpicsServer d c
  told v name w w' = record v {
    update_queue =
        v.update_queue
        ++ create_value_update d.AnyValue name w ∷ create_value_update d.AnyValue name w' ∷ [];
  }

  abbrev queued : EpicsServer d c → Bytes → d.AnyValue → EpicsServer d c
  queued v name w = record v { update_queue = push d.AnyValue v.update_queue name w }

  module _ (s : Manager) (name : Bytes) (id : ℕ) (request : UserInputRequest d) (i j : ℕ)
      (q : EpicsInputServer d u) (v : EpicsServer d c) (w w' : d.AnyValue)
      (input : find_input_server d c u s name ≡ some i)
      (input_at : get_elem? s.input_servers i ≡ some q)
      (pv : find_server d c u s (input_request_name name) ≡ some j)
      (pv_at : get_elem? s.servers j ≡ some v)
      (encoded : c.encode (encode_input_request d id request) ≡ some w)
      (encoded_none : c.encode (input_request_any_value d) ≡ some w') where
    abbrev begun : Manager
    begun = record s {
      input_servers = set s.input_servers i (init_new_request d u q id);
      servers = set s.servers j (queued v (input_request_name name) w);
    }

    -- The manager behind the calls of others.
    abbrev replied : List (Call d u) → Manager
    replied calls = record begun {
      input_servers =
          set (set s.input_servers i (init_new_request d u q id)) i
            (called calls (init_new_request d u q id));
    }
