-- ===== src/Epics/Manager.antt =====
-- epics/epics_anyvalue_manager.cpp: the servers of all values and of all input requests, found by name. A pointer
-- to a server is its position in the list of servers. The mutex makes each method one step; `GetUserInput` waits in
-- its middle, so that it is two functions.
pub mod Adding
pub mod Keeps
pub mod Routing
pub mod Interface
pub mod Served
pub mod Asked
use oac_tree_server.Base.{
  ℕ, zero, suc, ◌%◌, Bool, true, false, not, ◌&&◌, ◌||◌, List, [], ◌∷◌, ◌++◌, Bytes, Option, none,
  some, Result, ok, throws, ◌>>=◌, lookup, insert, if◌then◌else◌, ◌==◌, length, get_elem?, set,
  bytes_eq, map,
}
use oac_tree_server.External.Scalars.{is_some}
use oac_tree_server.External.Dto.{Dto}
use oac_tree_server.External.Codec.{Codec}
use oac_tree_server.External.UserInput.{UserInput, UserInputRequest, UserInputReply}
use oac_tree_server.Protocol.Names.{input_request_name}
use oac_tree_server.Input.Codec.{input_request_any_value, encode_input_request}
use oac_tree_server.Epics.InputServer as InputServer
use oac_tree_server.Epics.InputServer.{EpicsInputServer}
use oac_tree_server.Epics.Queue.Loop.{EpicsServer, start_server, update_any_value}

-- `std::set<std::string>`, in the order of the insertions.
unfoldable pub contains : Bytes → List Bytes → Bool
contains k [] = false
contains k (j ∷ names) = bytes_eq j k || contains k names

unfoldable pub insert_name : Bytes → List Bytes → List Bytes
unfolding contains
insert_name k names = if contains k names then names else names ++ k ∷ []

unfoldable pub add_names {ℓ} : {V : Type ℓ} → List Bytes → List (Bytes × V) → List Bytes
add_names names [] = names
add_names names ((k, v) ∷ rest) = add_names (insert_name k names) rest

-- i_anyvalue_io.cpp: `GetNames`.
unfoldable pub get_names {ℓ} : {V : Type ℓ} → List (Bytes × V) → List Bytes
get_names name_value_set = add_names [] name_value_set

-- The loop over the names in `ValidateNameValueSet`.
unfoldable pub all_unknown : List (Bytes × ℕ) → List Bytes → Bool
all_unknown m [] = true
all_unknown m (name ∷ names) = if is_some (lookup name m) then false else all_unknown m names

-- `m_name_server_map[name] = server.get()` for every name.
unfoldable pub point_to : ℕ → List Bytes → List (Bytes × ℕ) → List (Bytes × ℕ)
point_to server [] m = m
point_to server (name ∷ names) m = point_to server names (insert name server m)

module _ (d : Dto) (c : Codec d) (u : UserInput d) where
  open d use {AnyValue}

  pub record EpicsAnyValueManager : Type 0 where
    pub name_server_map : List (Bytes × ℕ)
    pub servers : List (EpicsServer d c)
    pub name_input_server_map : List (Bytes × ℕ)
    pub input_servers : List (EpicsInputServer d u)

  unfoldable pub init : EpicsAnyValueManager
  init = record {
    name_server_map = [];
    servers = [];
    name_input_server_map = [];
    input_servers = [];
  }

  -- An exception of the server's thread ends that thread, and nobody else sees it.
  unfoldable pub launch : Result (EpicsServer d c) → EpicsServer d c
  launch (ok s) = s
  launch (throws e) = record { update_queue = []; variables = []; published = []; exited = true }

  unfoldable pub validate_name_value_set : EpicsAnyValueManager → List (Bytes × AnyValue) → Bool
  validate_name_value_set s name_value_set =
      let names = get_names name_value_set in
      if not (length names == length name_value_set)
      then false
      else all_unknown s.name_server_map names

  unfoldable pub added : EpicsAnyValueManager → List (Bytes × AnyValue) → EpicsAnyValueManager
  added s name_value_set = record s {
    name_server_map = point_to (length s.servers) (get_names name_value_set) s.name_server_map;
    servers = s.servers ++ launch (start_server d c name_value_set) ∷ [];
  }

  unfoldable pub add_any_values :
      EpicsAnyValueManager → List (Bytes × AnyValue) → EpicsAnyValueManager × Bool
  add_any_values s name_value_set =
      if not (validate_name_value_set s name_value_set)
      then (s, false)
      else (added s name_value_set, true)

  unfoldable pub with_input_server : EpicsAnyValueManager → Bytes → EpicsAnyValueManager
  with_input_server s name = record s {
    name_input_server_map = insert name (length s.input_servers) s.name_input_server_map;
    input_servers = s.input_servers ++ InputServer.construct d u name ∷ [];
  }

  unfoldable pub add_input_handler : EpicsAnyValueManager → Bytes → EpicsAnyValueManager × Bool
  add_input_handler s name =
      if is_some (lookup name s.name_input_server_map)
      then (s, false)
      else add_any_values (with_input_server s name)
          ((input_request_name name, input_request_any_value d) ∷ [])

  unfoldable pub find_server : EpicsAnyValueManager → Bytes → Option ℕ
  find_server s name = lookup name s.name_server_map

  unfoldable pub find_input_server : EpicsAnyValueManager → Bytes → Option ℕ
  find_input_server s name = lookup name s.name_input_server_map

  -- A call of `EPICSServer::UpdateAnyValue` through a pointer.
  abbrev pub update_at :
      EpicsAnyValueManager
      → ℕ
      → Bytes
      → AnyValue
      → Option (EpicsServer d c)
      → Result EpicsAnyValueManager
  update_at s i name value none = ok s
  update_at s i name value (some server) =
      update_any_value d c server name value >>= λ t. ok (record s { servers = set s.servers i t })

  unfoldable pub update_server :
      EpicsAnyValueManager → ℕ → Bytes → AnyValue → Result EpicsAnyValueManager
  update_server s i name value = update_at s i name value (get_elem? s.servers i)

  unfoldable pub update_value :
      EpicsAnyValueManager → Bytes → AnyValue → Result (EpicsAnyValueManager × Bool)
  update_value s name value = elim (find_server s name) [
    | none ↦ ok (s, false)
    | some i ↦ update_server s i name value >>= λ t. ok (t, true)
  ]

  abbrev pub at_input_server :
      (EpicsInputServer d u → EpicsInputServer d u)
      → EpicsAnyValueManager
      → ℕ
      → Option (EpicsInputServer d u)
      → EpicsAnyValueManager
  at_input_server f s i none = s
  at_input_server f s i (some r) = record s { input_servers = set s.input_servers i (f r) }

  -- `GetUserInput` up to the wait; `none` is the early return.
  unfoldable pub begin_user_input :
      EpicsAnyValueManager → Bytes → ℕ → UserInputRequest d → Result (Option EpicsAnyValueManager)
  begin_user_input s name id request = elim (find_input_server s name) [
    | none ↦ ok none
    | some i ↦ elim (find_server s (input_request_name name)) [
      | none ↦ ok none
      | some j ↦
          let t =
            at_input_server (λ r. InputServer.init_new_request d u r id) s i
              (get_elem? s.input_servers i) in
          (update_server t j (input_request_name name) (encode_input_request d id request) >>= λ t'.
          ok (some t'))
    ]
  ]

  -- `GetUserInput` behind the wait, which gave the pair.
  unfoldable pub end_user_input :
      EpicsAnyValueManager
      → Bytes
      → Bool × UserInputReply d
      → Result (EpicsAnyValueManager × UserInputReply d)
  end_user_input s name (retrieved, value) = elim (find_server s (input_request_name name)) [
    | none ↦ ok (s, u.invalid_reply)
    | some j ↦ update_server s j (input_request_name name) (input_request_any_value d) >>= λ t.
        ok (t, if not retrieved then u.invalid_reply else value)
  ]

  unfoldable pub interrupt : EpicsAnyValueManager → Bytes → ℕ → EpicsAnyValueManager
  interrupt s name id = elim (find_input_server s name) [
    | none ↦ s
    | some i ↦
        at_input_server (λ r. InputServer.interrupt d u r id) s i (get_elem? s.input_servers i)
  ]

  -- epics_anyvalue_manager_registry.cpp.
  pub create_managers : ℕ → List EpicsAnyValueManager
  create_managers zero = []
  create_managers (suc n) = init ∷ create_managers n

  -- `none` where the C++ code divides by zero.
  unfoldable pub get_any_value_manager : List EpicsAnyValueManager → ℕ → Option EpicsAnyValueManager
  get_any_value_manager [] idx = none
  get_any_value_manager (m ∷ ms) idx = get_elem? (m ∷ ms) (idx % length (m ∷ ms))
