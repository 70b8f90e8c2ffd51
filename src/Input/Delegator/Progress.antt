-- ===== src/Input/Delegator/Progress.antt =====
-- base/client_reply_delegator.cpp: the worker gets to every reply that waits.
use oac_tree_server.Base.{ℕ, ◌+◌, ◌*◌, ◌≤◌, ◌≡◌, false, List, [], ◌∷◌, ◌++◌, length}
use oac_tree_server.External.Dto.{Dto}
use oac_tree_server.Input.Delegator.{
  ReplyInfo, Worker, calling, stopped, ClientReplyDelegator, Event, interrupts, halts,
}

module _ (d : Dto) where
  abbrev pub NoHalt : List (Event d) → Type 0
  NoHalt [] = Unit
  NoHalt (halts ∷ es) = ⊥
  NoHalt (_ ∷ es) = NoHalt es

  -- Replies are queued and the worker works.
  abbrev pub Undisturbed : List (Event d) → Type 0
  Undisturbed [] = Unit
  Undisturbed (halts ∷ es) = ⊥
  Undisturbed (interrupts ∷ es) = ⊥
  Undisturbed (_ ∷ es) = Undisturbed es

  -- The rounds until the worker waits.
  abbrev busy : Worker d → ℕ
  busy (calling r) = 1
  busy _ = 0

  abbrev IsActive : Worker d → Type 0
  IsActive stopped = ⊥
  IsActive _ = Unit

  -- There is no halt, and the worker is in its loop.
  record Lives (s : ClientReplyDelegator d) : Type 0 where
    no_halt : s.halt ≡ false
    active : IsActive s.worker

  -- The front of the queue is sent, in its order, and then perhaps more.
  abbrev Sends : ClientReplyDelegator d → List (ReplyInfo d) → ClientReplyDelegator d → Type 0
  Sends s front t = (more : List (ReplyInfo d)) × (t.sent ≡ s.sent ++ front ++ more)

  -- What one round leaves of the front, where `n` rounds follow.
  record Round (s : ClientReplyDelegator d) (w : Worker d) (front : List (ReplyInfo d)) (n : ℕ)
      (t : ClientReplyDelegator d) : Type 0 where
    front_left : List (ReplyInfo d)
    behind : List (ReplyInfo d)
    taken : List (ReplyInfo d)
    splits : t.reply_queue ≡ front_left ++ behind
    closer : 2 * length front + busy w ≤ n + 2 → 2 * length front_left + busy t.worker ≤ n + 1
    sends : t.sent ++ front_left ≡ (s.sent ++ front) ++ taken
