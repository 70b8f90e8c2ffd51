-- ===== src/Input/RequestServer/Spec.antt =====
-- base/input_request_server.cpp against its contract: the first valid reply to the current request
-- counts, and an interrupt of the current request.
use oac_tree_server.Base.{
  ℕ, ◌≡◌, ◌≢◌, refl, ◌∙◌, Bool, true, false, ◌&&◌, ◌||◌, List, [], ◌∷◌, Option, none, some, arith,
  ◌==◌, if◌then◌else◌,
}
use oac_tree_server.External.Dto.{Dto}
use oac_tree_server.External.UserInput.{UserInput, UserInputReply, UserInputLaws}
use oac_tree_server.Input.RequestServer.{
  InputRequestServer, is_valid, init_new_request, set_client_reply, Call, replies, interrupts, step,
  run,
}

module _ (d : Dto) (u : UserInput d) (id : ℕ) where
  -- The first valid reply to the request.
  unfoldable pub first_reply : List (Call d u) → Option (UserInputReply d)
  first_reply [] = none
  first_reply (replies i r ∷ cs) = if i == id && is_valid d u r then some r else first_reply cs
  first_reply (interrupts i ∷ cs) = first_reply cs

  -- The request is interrupted.
  unfoldable pub is_interrupted : List (Call d u) → Bool
  is_interrupted [] = false
  is_interrupted (replies i r ∷ cs) = is_interrupted cs
  is_interrupted (interrupts i ∷ cs) = i == id || is_interrupted cs

  abbrev pub or_else : UserInputReply d → Option (UserInputReply d) → UserInputReply d
  or_else r none = r
  or_else r (some q) = q

  -- A state that holds the request `id`, with the calls `cs` behind it.
  abbrev pub holds : UserInputReply d → Bool → List (Call d u) → InputRequestServer d u
  holds r b cs = record {
    request_id = id;
    reply = if is_valid d u r then r else or_else r (first_reply cs);
    interrupted = b || is_interrupted cs;
  }

  run-holds :
      (r : UserInputReply d) (b : Bool) (cs : List (Call d u))
      → id ≢ 0
      → run d u (record { request_id = id; reply = r; interrupted = b }) cs ≡ holds r b cs
  unfolding run step first_reply is_interrupted
  run-holds r b [] n = ground arith
  run-holds r b (replies i q ∷ cs) n = ground (arith, run-holds r b cs n, run-holds q b cs n)
  run-holds r b (interrupts i ∷ cs) n = ground (arith, run-holds r b cs n, run-holds r true cs n)

  -- Whatever calls follow a new request, the server holds the request, the first valid reply to it,
  -- if there was one, and whether it was interrupted. Other calls leave no trace.
  pub run-init_new_request :
      (s : InputRequestServer d u) (cs : List (Call d u))
      → UserInputLaws d u
      → id ≢ 0
      → run d u (init_new_request d u s id) cs ≡ record {
        request_id = id;
        reply = or_else u.invalid_reply (first_reply cs);
        interrupted = is_interrupted cs;
      }
  unfolding init_new_request
  run-init_new_request s cs laws n =
      run-holds u.invalid_reply false cs n ∙ ground (arith, laws.invalid_reply-type)

  abbrev pub is_none : Option (UserInputReply d) → Bool
  is_none none = true
  is_none (some r) = false

  pub first_reply-valid :
      (cs : List (Call d u)) (r : UserInputReply d)
      → first_reply cs ≡ some r
      → is_valid d u r ≡ true
  unfolding first_reply
  first_reply-valid [] r h = cc
  first_reply-valid (replies i q ∷ cs) r h = ground (arith, first_reply-valid cs r)
  first_reply-valid (interrupts i ∷ cs) r h = first_reply-valid cs r h

  -- A reply is accepted exactly when it is valid, names the current request, and none was accepted
  -- before it.
  pub set_client_reply_accepts :
      (s : InputRequestServer d u) (cs : List (Call d u)) (i : ℕ) (r : UserInputReply d)
      → UserInputLaws d u
      → id ≢ 0
      → (set_client_reply d u (run d u (init_new_request d u s id) cs) i r).1
        ≡ (i == id && is_valid d u r && is_none (first_reply cs))
  unfolding set_client_reply
  set_client_reply_accepts s cs i r laws n =
      rw (run-init_new_request s cs laws n) (accepts (first_reply cs) (first_reply-valid cs))
    where
      accepts :
          (o : Option (UserInputReply d))
          → ((q : UserInputReply d) → o ≡ some q → is_valid d u q ≡ true)
          → (set_client_reply d u
              (record {
                request_id = id;
                reply = or_else u.invalid_reply o;
                interrupted = is_interrupted cs;
              })
              i
              r).1
            ≡ (i == id && is_valid d u r && is_none o)
      accepts none h = ground (arith, laws.invalid_reply-type)
      accepts (some q) h = ground (arith, h q refl)
