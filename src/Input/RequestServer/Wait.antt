-- ===== src/Input/RequestServer/Wait.antt =====
-- base/input_request_server.cpp: what a thread in `WaitForReply` returns, and when.
use oac_tree_server.Base.{
  ℕ, ◌≡◌, ◌≢◌, ◌↔◌, refl, sym, ◌∙◌, Bool, true, false, List, [], ◌∷◌, Option, none, some, arith,
  if◌then◌else◌,
}
use oac_tree_server.External.Dto.{Dto}
use oac_tree_server.External.UserInput.{UserInput, UserInputReply, UserInputLaws}
use oac_tree_server.Input.RequestServer.{
  InputRequestServer, is_valid, init_new_request, wait_for_reply, Call, step, run,
}
use oac_tree_server.Input.RequestServer.Spec.{
  first_reply, is_interrupted, or_else, first_reply-valid, run-init_new_request,
}

module _ (d : Dto) (u : UserInput d) (id : ℕ) where
  -- The thread returns at some visit behind the calls of other threads; visits at which the
  -- predicate fails leave the state alone.
  pub data Returns
      : InputRequestServer d u → List (Call d u) → Bool × UserInputReply d → Type 0 where
    wakes :
        {s : InputRequestServer d u} {r : Bool × UserInputReply d}
        → wait_for_reply d u s id ≡ some r
        → Returns s [] r
    sleeps :
        {s : InputRequestServer d u} {c : Call d u} {cs : List (Call d u)}
        {r : Bool × UserInputReply d}
        → Returns (step d u s c) cs r
        → Returns s (c ∷ cs) r

  Returns→run :
      {s : InputRequestServer d u} {cs : List (Call d u)} {r : Bool × UserInputReply d}
      → Returns s cs r
      → wait_for_reply d u (run d u s cs) id ≡ some r
  unfolding run
  Returns→run (wakes e) = e
  Returns→run (sleeps h) = Returns→run h

  run→Returns :
      (s : InputRequestServer d u) (cs : List (Call d u)) (r : Bool × UserInputReply d)
      → wait_for_reply d u (run d u s cs) id ≡ some r
      → Returns s cs r
  unfolding run
  run→Returns s [] r e = wakes e
  run→Returns s (c ∷ cs) r e = sleeps (run→Returns (step d u s c) cs r e)

  -- What the contract says of the calls so far: an interrupt counts before a reply.
  unfoldable pub outcome : List (Call d u) → Option (Bool × UserInputReply d)
  outcome cs =
      if is_interrupted d u id cs
      then some (false, u.invalid_reply)
      else elim (first_reply d u id cs) [ none ↦ none | some r ↦ some (true, r) ]

  pub wait_for_reply-outcome :
      (s : InputRequestServer d u) (cs : List (Call d u))
      → UserInputLaws d u
      → id ≢ 0
      → wait_for_reply d u (run d u (init_new_request d u s id) cs) id ≡ outcome cs
  unfolding outcome wait_for_reply
  wait_for_reply-outcome s cs laws n =
      rw (run-init_new_request d u id s cs laws n)
        (outcome_cases (first_reply d u id cs) (first_reply-valid d u id cs))
    where
      outcome_cases :
          (o : Option (UserInputReply d))
          → ((q : UserInputReply d) → o ≡ some q → is_valid d u q ≡ true)
          → wait_for_reply d u
              (record {
                request_id = id;
                reply = or_else d u id u.invalid_reply o;
                interrupted = is_interrupted d u id cs;
              })
              id
            ≡ (if is_interrupted d u id cs
                then some (false, u.invalid_reply)
                else elim o [ none ↦ none | some r ↦ some (true, r) ])
      outcome_cases none h = ground (arith, laws.invalid_reply-type)
      outcome_cases (some q) h = ground (arith, h q refl)

  -- Behind a new request with an index that is not 0, a thread in `WaitForReply` can return a result
  -- after the calls of others exactly if it is the outcome of these calls: nothing while there was
  -- neither a valid reply nor an interrupt, failure after an interrupt, else the first valid reply.
  pub Returns-outcome :
      (s : InputRequestServer d u) (cs : List (Call d u)) (r : Bool × UserInputReply d)
      → UserInputLaws d u
      → id ≢ 0
      → Returns (init_new_request d u s id) cs r ↔ (outcome cs ≡ some r)
  Returns-outcome s cs r laws n = (
    λ h. sym (wait_for_reply-outcome s cs laws n) ∙ Returns→run h,
    λ e. run→Returns (init_new_request d u s id) cs r (wait_for_reply-outcome s cs laws n ∙ e),
  )
