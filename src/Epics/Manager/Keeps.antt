-- ===== src/Epics/Manager/Keeps.antt =====
-- epics/epics_anyvalue_manager.cpp: an update goes to one server, and all calls but those that add leave the names and the servers.
use oac_tree_server.Base.{
  length-set, ℕ, ◌≡◌, refl, ◌∙◌, Bool, true, false, not, Bytes, Option, none, some, Result, ok,
  throws, ◌>>=◌, if◌then◌else◌, length, get_elem?, set, OnOk, OnOk-ok,
}
use oac_tree_server.External.Dto.{Dto}
use oac_tree_server.External.Codec.{Codec}
use oac_tree_server.External.UserInput.{UserInput, UserInputRequest, UserInputReply}
use oac_tree_server.Epics.InputServer as InputServer
use oac_tree_server.Epics.InputServer.{EpicsInputServer}
use oac_tree_server.Input.Codec.{encode_input_request, input_request_any_value}
use oac_tree_server.Protocol.Names.{input_request_name}
use oac_tree_server.Epics.Queue.Loop.{EpicsServer, update_any_value}
use oac_tree_server.Epics.Manager.{
  EpicsAnyValueManager, find_server, update_at, update_server, update_value, at_input_server,
  find_input_server, begin_user_input, end_user_input, interrupt,
}

module _ (d : Dto) (c : Codec d) (u : UserInput d) where
  open d use {AnyValue}

  abbrev Manager : Type 0
  Manager = EpicsAnyValueManager d c u

  -- The map is as before, and so is the number of servers.
  abbrev pub Keeps : Manager → Manager → Type 0
  Keeps s t = (t.name_server_map ≡ s.name_server_map) × (length t.servers ≡ length s.servers)

  pub input-Keeps :
      (f : EpicsInputServer d u → EpicsInputServer d u) (s : Manager) (i : ℕ)
      (o : Option (EpicsInputServer d u))
      → Keeps s (at_input_server d c u f s i o)
  input-Keeps f s i none = (refl, refl)
  input-Keeps f s i (some r) = (refl, refl)

  pub update-Keeps :
      (s : Manager) (i : ℕ) (name : Bytes) (value : AnyValue)
      → OnOk (Keeps s) (update_server d c u s i name value)
  unfolding update_server
  update-Keeps s i name value = by_server (get_elem? s.servers i)
    where
      by_result :
          (r : Result (EpicsServer d c))
          → OnOk (Keeps s) (r >>= λ t. ok (record s { servers = set s.servers i t }))
      by_result (ok t) = (refl, length-set s.servers i t)
      by_result (throws e) = tt

      by_server : (o : Option (EpicsServer d c)) → OnOk (Keeps s) (update_at d c u s i name value o)
      by_server none = (refl, refl)
      by_server (some server) = by_result (update_any_value d c server name value)

  pub update_value-Keeps :
      (s : Manager) (name : Bytes) (value : AnyValue)
      → OnOk (λ (r : Manager × Bool). Keeps s r.0) (update_value d c u s name value)
  unfolding update_value
  update_value-Keeps s name value = by_place (find_server d c u s name)
    where
      by_place :
          (o : Option ℕ)
          → OnOk
              (λ (r : Manager × Bool). Keeps s r.0)
              (elim o [
                | none ↦ ok (s, false)
                | some i ↦ update_server d c u s i name value >>= λ t. ok (t, true)
              ])
      by_place none = (refl, refl)
      by_place (some i) =
          OnOk-ok (λ (r : Manager × Bool). Keeps s r.0) (λ t. (t, true))
            (update_server d c u s i name value) (update-Keeps s i name value)

  abbrev pub KeepsSome : Manager → Option Manager → Type 0
  KeepsSome s none = Unit
  KeepsSome s (some t) = Keeps s t

  pub begin-Keeps :
      (s : Manager) (name : Bytes) (id : ℕ) (request : UserInputRequest d)
      → OnOk (KeepsSome s) (begin_user_input d c u s name id request)
  unfolding begin_user_input
  begin-Keeps s name id request =
      by_places (find_input_server d c u s name) (find_server d c u s (input_request_name name))
    where
      restarted : ℕ → Manager
      restarted i =
          at_input_server d c u (λ r. InputServer.init_new_request d u r id) s i
            (get_elem? s.input_servers i)

      from : (t : Manager) → Keeps s t → (r : Result Manager) → OnOk (Keeps t) r → OnOk (Keeps s) r
      from t (m, n) (ok x) (p, q) = (p ∙ m, q ∙ n)
      from t k (throws e) h = tt

      then_updated :
          (i j : ℕ)
          → OnOk (Keeps s) (
              update_server d c u
                (restarted i)
                j
                (input_request_name name)
                (encode_input_request d id request))
      then_updated i j =
          from (restarted i)
            (input-Keeps (λ r. InputServer.init_new_request d u r id) s i
              (get_elem? s.input_servers i))
            _
            (update-Keeps (restarted i) j (input_request_name name)
              (encode_input_request d id request))

      by_places :
          (o p : Option ℕ)
          → OnOk (KeepsSome s) (elim o [
            | none ↦ ok none
            | some i ↦ elim p [
              | none ↦ ok none
              | some j ↦
                  update_server d c u
                    (restarted i)
                    j
                    (input_request_name name)
                    (encode_input_request d id request)
                  >>= λ t'. ok (some t')
            ]
          ])
      by_places none p = tt
      by_places (some i) none = tt
      by_places (some i) (some j) = OnOk-ok (KeepsSome s) (λ t. some t) _ (then_updated i j)

  pub end-Keeps :
      (s : Manager) (name : Bytes) (r : Bool × UserInputReply d)
      → OnOk (λ (q : Manager × UserInputReply d). Keeps s q.0) (end_user_input d c u s name r)
  unfolding end_user_input
  end-Keeps s name (retrieved, value) = by_place (find_server d c u s (input_request_name name))
    where
      by_place :
          (o : Option ℕ)
          → OnOk
              (λ (q : Manager × UserInputReply d). Keeps s q.0)
              (elim o [
                | none ↦ ok (s, u.invalid_reply)
                | some j ↦
                    update_server d c u s j (input_request_name name) (input_request_any_value d)
                    >>= λ t. ok (t, if not retrieved then u.invalid_reply else value)
              ])
      by_place none = (refl, refl)
      by_place (some j) =
          OnOk-ok (λ (q : Manager × UserInputReply d). Keeps s q.0)
            (λ t. (t, if not retrieved then u.invalid_reply else value)) _
            (update-Keeps s j (input_request_name name) (input_request_any_value d))

  pub interrupt-Keeps : (s : Manager) (name : Bytes) (id : ℕ) → Keeps s (interrupt d c u s name id)
  unfolding interrupt
  interrupt-Keeps s name id = by_place (find_input_server d c u s name)
    where
      by_place :
          (o : Option ℕ)
          → Keeps s (elim o [
            | none ↦ s
            | some i ↦
                at_input_server d c u
                  (λ r. InputServer.interrupt d u r id)
                  s
                  i
                  (get_elem? s.input_servers i)
          ])
      by_place none = (refl, refl)
      by_place (some i) = input-Keeps _ s i (get_elem? s.input_servers i)

  pub not_found :
      (s : Manager) (name : Bytes) (value : AnyValue)
      → find_server d c u s name ≡ none
      → update_value d c u s name value ≡ ok (s, false)
  unfolding update_value
  not_found s name value e = rw (update_value, e) refl

  pub at_server :
      (s : Manager) (name : Bytes) (value : AnyValue) (i : ℕ) (server : EpicsServer d c)
      → find_server d c u s name ≡ some i
      → get_elem? s.servers i ≡ some server
      → update_value d c u s name value ≡ (
          update_any_value d c server name value >>= λ t.
          ok (record s { servers = set s.servers i t }, true))
  unfolding update_value update_server
  at_server s name value i server e f =
      rw (update_value, e, update_server, f) (assoc (update_any_value d c server name value))
    where
      replaced : EpicsServer d c → Manager
      replaced t = record s { servers = set s.servers i t }

      refound : Manager → Manager × Bool
      refound t = (t, true)

      assoc :
          (q : Result (EpicsServer d c))
          → ((q >>= λ t. ok (replaced t)) >>= λ t. ok (refound t))
            ≡ (q >>= λ t. ok (refound (replaced t)))
      assoc (ok t) = refl
      assoc (throws x) = refl
