-- ===== src/Epics/Manager/Routing.antt =====
-- epics/epics_anyvalue_manager.cpp: every name that is found leads to a server.
use oac_tree_server.Base.{ℕ, ◌<◌, ◌≡◌, Bool, List, Bytes, some, ok, length}
use oac_tree_server.External.Dto.{Dto}
use oac_tree_server.External.Codec.{Codec}
use oac_tree_server.External.UserInput.{UserInput, UserInputRequest, UserInputReply}
use oac_tree_server.Epics.Manager.{
  EpicsAnyValueManager, init, add_any_values, add_input_handler, find_server, update_value,
  begin_user_input, end_user_input, interrupt,
}
use oac_tree_server.Epics.Manager.Keeps.{Keeps}

module _ (d : Dto) (c : Codec d) (u : UserInput d) where
  open d use {AnyValue}

  abbrev Manager : Type 0
  Manager = EpicsAnyValueManager d c u

  -- The states that the public methods lead to.
  pub data Reachable : Manager → Type 0 where
    starts : Reachable (init d c u)
    adds :
        {s : Manager}
        → Reachable s
        → (vs : List (Bytes × AnyValue)) → Reachable (add_any_values d c u s vs).0
    handles :
        {s : Manager} → Reachable s → (name : Bytes) → Reachable (add_input_handler d c u s name).0
    updates :
        {s t : Manager} {b : Bool}
        → Reachable s
        → (name : Bytes) (value : AnyValue) → update_value d c u s name value ≡ ok (t, b)
        → Reachable t
    begins :
        {s t : Manager}
        → Reachable s
        → (name : Bytes) (id : ℕ) (request : UserInputRequest d)
        → begin_user_input d c u s name id request ≡ ok (some t)
        → Reachable t
    ends :
        {s t : Manager} {reply : UserInputReply d}
        → Reachable s
        → (name : Bytes) (r : Bool × UserInputReply d)
        → end_user_input d c u s name r ≡ ok (t, reply)
        → Reachable t
    interrupts :
        {s : Manager}
        → Reachable s
        → (name : Bytes) (id : ℕ) → Reachable (interrupt d c u s name id)

  pub record Wf (s : Manager) : Type 0 where
    pub found : (name : Bytes) (i : ℕ) → find_server d c u s name ≡ some i → i < length s.servers
