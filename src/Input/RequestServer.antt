-- ===== src/Input/RequestServer.antt =====
-- base/input_request_server.cpp: the current request and its reply. The mutex makes each method one
-- step, except that `WaitForReply` gives the mutex up while its predicate is false.
pub mod Spec
pub mod Wait
use oac_tree_server.Base.{
  ℕ, Bool, true, false, not, ◌&&◌, ◌||◌, List, [], ◌∷◌, Option, none, some, ◌≡◌, ◌==◌,
  if◌then◌else◌,
}
use oac_tree_server.External.Dto.{Dto}
use oac_tree_server.External.UserInput.{UserInput, UserInputReply}

module _ (d : Dto) (u : UserInput d) where
  open u use {invalid_type, invalid_reply}

  pub record InputRequestServer : Type 0 where
    pub request_id : ℕ
    pub reply : UserInputReply d
    pub interrupted : Bool

  abbrev pub is_valid : UserInputReply d → Bool
  is_valid r = not (r.request_type == invalid_type)

  pub init : InputRequestServer
  init = record { request_id = 0; reply = invalid_reply; interrupted = false }

  unfoldable pub init_new_request : InputRequestServer → ℕ → InputRequestServer
  init_new_request s id = record s { request_id = id; interrupted = false; reply = invalid_reply }

  unfoldable pub set_client_reply :
      InputRequestServer → ℕ → UserInputReply d → InputRequestServer × Bool
  set_client_reply s id r =
      if id == 0 || not (is_valid r)
      then (s, false)
      else if not (id == s.request_id) || is_valid s.reply
      then (s, false)
      else (record s { reply = r }, true)

  -- The predicate on which `WaitForReply` sleeps.
  unfoldable pub reply_ready : InputRequestServer → ℕ → Bool
  reply_ready s id = (is_valid s.reply && id == s.request_id) || s.interrupted

  -- What `WaitForReply` returns once it runs behind the wait.
  unfoldable pub take_reply : InputRequestServer → Bool × UserInputReply d
  take_reply s = if s.interrupted then (false, invalid_reply) else (true, s.reply)

  -- One visit of the waiting thread; `none` means that it goes on waiting.
  unfoldable pub wait_for_reply : InputRequestServer → ℕ → Option (Bool × UserInputReply d)
  unfolding reply_ready take_reply
  wait_for_reply s id =
      if id == 0
      then some (false, invalid_reply)
      else if reply_ready s id
      then some (take_reply s)
      else none

  unfoldable pub interrupt : InputRequestServer → ℕ → InputRequestServer
  interrupt s id = if not (s.request_id == id) then s else record s { interrupted = true }

  -- What other threads do while one waits.
  pub data Call : Type 0 where
    replies : ℕ → UserInputReply d → Call
    interrupts : ℕ → Call

  unfoldable pub step : InputRequestServer → Call → InputRequestServer
  unfolding set_client_reply interrupt
  step s (replies id r) = (set_client_reply s id r).0
  step s (interrupts id) = interrupt s id

  unfoldable pub run : InputRequestServer → List Call → InputRequestServer
  run s [] = s
  run s (c ∷ cs) = run (step s c) cs
