-- ===== src/Input/Delegator.antt =====
-- base/client_reply_delegator.cpp: replies are queued by the callbacks of the client and sent by one
-- worker thread. What runs while the mutex is held is one step; the calls of the two functions given
-- to the constructor are recorded in `sent` and `interrupted`.
pub mod Order
pub mod Halting
pub mod Progress
use oac_tree_server.Base.{ℕ, Bool, true, false, not, List, [], ◌∷◌, ◌++◌, ◌==◌, if◌then◌else◌}
use oac_tree_server.External.Dto.{Dto}
use oac_tree_server.External.UserInput.{UserInputReply}

module _ (d : Dto) where
  pub record ReplyInfo : Type 0 where
    pub id : ℕ
    pub reply : UserInputReply d

  -- Where the worker is: at the wait, in `m_reply_func` without the mutex, or behind the loop.
  pub data Worker : Type 0 where
    waiting : Worker
    calling : ReplyInfo → Worker
    stopped : Worker

  pub record ClientReplyDelegator : Type 0 where
    pub active_id : ℕ
    pub halt : Bool
    pub reply_queue : List ReplyInfo
    pub worker : Worker
    pub sent : List ReplyInfo
    pub interrupted : List ℕ

  unfoldable pub init : ClientReplyDelegator
  init = record {
    active_id = 0;
    halt = false;
    reply_queue = [];
    worker = waiting;
    sent = [];
    interrupted = [];
  }

  unfoldable pub queue_reply : ClientReplyDelegator → ReplyInfo → ClientReplyDelegator
  queue_reply s r = record s { reply_queue = s.reply_queue ++ r ∷ [] }

  unfoldable pub interrupt_all : ClientReplyDelegator → ClientReplyDelegator
  interrupt_all s =
      let t = record s { reply_queue = [] } in
      if not (t.active_id == 0)
      then record t { interrupted = t.interrupted ++ t.active_id ∷ [] }
      else t

  unfoldable pub set_halt : ClientReplyDelegator → ClientReplyDelegator
  set_halt s = record s { halt = true }

  -- The end of a round of the loop.
  unfoldable pub end_round : ClientReplyDelegator → ClientReplyDelegator
  end_round s = if s.halt then record s { worker = stopped } else record s { worker = waiting }

  -- From the wait to the call; the worker sleeps while the queue is empty and there is no halt.
  unfoldable pub take_front : ClientReplyDelegator → List ReplyInfo → ClientReplyDelegator
  unfolding end_round
  take_front s [] = if s.halt then end_round s else s
  take_front s (r ∷ rest) = record s {
    reply_queue = rest;
    active_id = r.id;
    worker = calling r;
    sent = s.sent ++ r ∷ [];
  }

  unfoldable pub work : ClientReplyDelegator → Worker → ClientReplyDelegator
  unfolding take_front end_round
  work s waiting = take_front s s.reply_queue
  work s (calling r) = end_round (record s { active_id = 0 })
  work s stopped = s

  pub data Event : Type 0 where
    queues : ReplyInfo → Event
    interrupts halts works : Event

  unfoldable pub step : ClientReplyDelegator → Event → ClientReplyDelegator
  unfolding queue_reply interrupt_all set_halt work
  step s (queues r) = queue_reply s r
  step s interrupts = interrupt_all s
  step s halts = set_halt s
  step s works = work s s.worker

  unfoldable pub run : ClientReplyDelegator → List Event → ClientReplyDelegator
  run s [] = s
  run s (e ∷ es) = run (step s e) es
