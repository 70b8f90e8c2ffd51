-- ===== src/Epics/IoClient/Alike.antt =====
-- epics/epics_io_client.cpp: callbacks leave the client PVs and the server of the handler as they are.
use oac_tree_server.Base.{
  ℕ, ◌≡◌, refl, ◌∙◌, Bool, true, false, List, [], ◌∷◌, Bytes, Option, none, some, Result, ok,
  throws, if◌then◌else◌, ◌==◌, bytes_eq, Bool-cases, inl, inr, OnOk, OnOk-bind, OnOk-all,
}
use oac_tree_server.External.Dto.{Dto}
use oac_tree_server.External.Codec.{Codec}
use oac_tree_server.External.UserInput.{UserInput, UserInputRequest}
use oac_tree_server.Protocol.Base64.{base64_decode}
use oac_tree_server.Input.Codec.{decode_input_request}
use oac_tree_server.JobInfo.{AnyValueManager}
use oac_tree_server.Epics.IoClient.{
  ExtendedValue, ClientPv, Callback, updates_value, handles_request, EpicsIoClient, InputHandler,
  update_value, interrupt_handler, ask_user, with_handler, handle_user_input, on_decoded, call_back,
  call_pvs,
}

module _ (d : Dto) (c : Codec d) (u : UserInput d) {M : Type 0} (m : AnyValueManager d M) where
  open d use {AnyValue}

  abbrev Client : Type 0
  Client = EpicsIoClient d c u m

  abbrev pub SameHandler : Option (InputHandler d c u m) → Option (InputHandler d c u m) → Type 0
  SameHandler none none = Unit
  SameHandler none (some k) = ⊥
  SameHandler (some h) none = ⊥
  SameHandler (some h) (some k) = k.server_name ≡ h.server_name

  pub SameHandler-refl : (o : Option (InputHandler d c u m)) → SameHandler o o
  SameHandler-refl none = tt
  SameHandler-refl (some h) = refl

  pub SameHandler-trans :
      (o p q : Option (InputHandler d c u m)) → SameHandler o p → SameHandler p q → SameHandler o q
  SameHandler-trans none none none a b = tt
  SameHandler-trans none none (some k) a b = b
  SameHandler-trans none (some h) q a b = absurd a
  SameHandler-trans (some g) none q a b = absurd a
  SameHandler-trans (some g) (some h) none a b = b
  SameHandler-trans (some g) (some h) (some k) a b = b ∙ a

  -- The client PVs, and the server of the handler, stay.
  abbrev pub Alike : Client → Client → Type 0
  Alike s t = (t.client_pvs ≡ s.client_pvs) × SameHandler s.input_handler t.input_handler

  pub Alike-refl : (s : Client) → Alike s s
  Alike-refl s = (refl, SameHandler-refl s.input_handler)

  Alike-trans : (r s t : Client) → Alike r s → Alike s t → Alike r t
  Alike-trans r s t (a, b) (e, f) =
      (e ∙ a, SameHandler-trans r.input_handler s.input_handler t.input_handler b f)

  interrupt-Alike :
      (s : Client) (h : InputHandler d c u m)
      → s.input_handler ≡ some h
      → OnOk (Alike s) (interrupt_handler d c u m s h)
  unfolding interrupt_handler
  interrupt-Alike s h e = elim (Bool-cases (h.delegator.active_id == 0)) [
    | inl z ↦ rw (interrupt_handler, z) (refl, rw e refl)
    | inr z ↦
        rw (interrupt_handler, z)
          (OnOk-bind (λ x. Unit {0}) (Alike s)
            (m.interrupt s.av_mgr h.server_name h.delegator.active_id) _ (OnOk-all _ _ (λ x. tt))
            (λ x y. (refl, rw e refl)))
  ]

  ask-Alike :
      (s : Client) (h : InputHandler d c u m) (n : Bytes) (id : ℕ) (q : UserInputRequest d)
      → s.input_handler ≡ some h
      → OnOk (Alike s) (ask_user d c u m s h n id q)
  unfolding ask_user
  ask-Alike s h n id q e =
      OnOk-bind (λ x. Unit {0}) (Alike s) (m.get_user_input s.av_mgr n id q) _
        (OnOk-all _ _ (λ x. tt)) (λ x y. (refl, rw e refl))

  request-Alike :
      (s : Client) (n : Bytes) (req : Option (ℕ × UserInputRequest d))
      (o : Option (InputHandler d c u m))
      → s.input_handler ≡ o
      → OnOk (Alike s) (with_handler d c u m s n req o)
  request-Alike s n req none e = Alike-refl s
  request-Alike s n none (some h) e = interrupt-Alike s h e
  request-Alike s n (some (id, q)) (some h) e =
      elim (Bool-cases (q.request_type == u.invalid_type)) [
        | inl z ↦ rw z (interrupt-Alike s h e)
        | inr z ↦ rw z (ask-Alike s h n id q e)
      ]

  decoded-Alike :
      (s : Client) (k : Callback d c u m) (o : Option AnyValue)
      → OnOk (Alike s) (on_decoded d c u m s k o)
  unfolding update_value handle_user_input
  decoded-Alike s k none = Alike-refl s
  decoded-Alike s (updates_value k) (some v) =
      OnOk-bind (λ x. Unit {0}) (Alike s) (m.update_any_value s.av_mgr k v) _
        (OnOk-all _ _ (λ x. tt)) (λ x y. (refl, SameHandler-refl s.input_handler))
  decoded-Alike s (handles_request n) (some v) =
      OnOk-bind (λ x. Unit {0}) (Alike s) (decode_input_request d v) _ (OnOk-all _ _ (λ x. tt))
        (λ req y. request-Alike s n req s.input_handler refl)

  call_back-Alike :
      (s : Client) (k : Callback d c u m) (e : ExtendedValue d c u m)
      → OnOk (Alike s) (call_back d c u m s k e)
  unfolding call_back
  call_back-Alike s k e = elim (Bool-cases e.connected) [
    | inl z ↦ rw (call_back, z) (decoded-Alike s k (base64_decode d c e.value))
    | inr z ↦ rw (call_back, z) (Alike-refl s)
  ]

  pub call_pvs-Alike :
      (s : Client) (pvs : List (ClientPv d c u m)) (k : Bytes) (e : ExtendedValue d c u m)
      → OnOk (Alike s) (call_pvs d c u m s pvs k e)
  unfolding call_pvs
  call_pvs-Alike s [] k e = Alike-refl s
  call_pvs-Alike s (pv ∷ pvs) k e =
      OnOk-bind (Alike s) (Alike s)
        (if bytes_eq pv.channel k then call_back d c u m s pv.callback e else ok s) _
        (by_channel (bytes_eq pv.channel k)) (go (λ t. call_pvs-Alike t pvs k e))
    where
      by_channel :
          (b : Bool) → OnOk (Alike s) (if b then call_back d c u m s pv.callback e else ok s)
      by_channel true = call_back-Alike s pv.callback e
      by_channel false = Alike-refl s

      go :
          ((t : Client) → OnOk (Alike t) (call_pvs d c u m t pvs k e))
          → (t : Client) → Alike s t
          → OnOk (Alike s) (call_pvs d c u m t pvs k e)
      go ih t a = from (call_pvs d c u m t pvs k e) (ih t)
        where
          from : (q : Result Client) → OnOk (Alike t) q → OnOk (Alike s) q
          from (ok x) b = Alike-trans s t x a b
          from (throws x) b = tt
