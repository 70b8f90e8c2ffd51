-- ===== src/Input/Delegator/Order.antt =====
-- base/client_reply_delegator.cpp: which replies are sent, in which order, and what is interrupted.
use mathlib.Core.List.{append_assoc, append-nil}
use oac_tree_server.Base.{
  ℕ, ◌≡◌, inl, inr, refl, sym, ap, ◌∙◌, List, [], ◌∷◌, ◌++◌, arith, ◌==◌, if◌then◌else◌, Bool-cases,
}
use oac_tree_server.External.Dto.{Dto}
use oac_tree_server.Input.Delegator.{
  ReplyInfo, Worker, waiting, calling, stopped, ClientReplyDelegator, init, interrupt_all,
  end_round, take_front, work, Event, queues, interrupts, halts, works, step, run,
}

module _ (d : Dto) where
  -- The replies that the events queue, oldest first.
  pub queued : List (Event d) → List (ReplyInfo d)
  queued [] = []
  queued (queues r ∷ es) = r ∷ queued es
  queued (_ ∷ es) = queued es

  abbrev pub NoInterrupt : List (Event d) → Type 0
  NoInterrupt [] = Unit
  NoInterrupt (interrupts ∷ es) = ⊥
  NoInterrupt (_ ∷ es) = NoInterrupt es

  abbrev pub handled : ClientReplyDelegator d → List (ReplyInfo d)
  handled s = s.sent ++ s.reply_queue

  handled-take_front :
      (s : ClientReplyDelegator d) (q : List (ReplyInfo d))
      → s.reply_queue ≡ q
      → handled (take_front d s q) ≡ handled s
  unfolding take_front
  handled-take_front s [] e = ground arith
  handled-take_front s (r ∷ rest) e =
      append_assoc s.sent (r ∷ []) rest ∙ ap (λ q. s.sent ++ q) (sym e)

  handled-work : (s : ClientReplyDelegator d) (w : Worker d) → handled (work d s w) ≡ handled s
  unfolding work
  handled-work s waiting = handled-take_front s s.reply_queue refl
  handled-work s (calling r) = unfold end_round in ground arith
  handled-work s stopped = refl

  pub handled-run :
      (s : ClientReplyDelegator d) (es : List (Event d))
      → NoInterrupt es
      → handled (run d s es) ≡ handled s ++ queued es
  unfolding run step queued
  handled-run s [] h = sym (append-nil (handled s))
  handled-run s (queues r ∷ es) h = handled-run (step d s (queues r)) es h ∙ simp append_assoc
  handled-run s (interrupts ∷ es) h = absurd h
  handled-run s (halts ∷ es) h = handled-run (step d s halts) es h
  handled-run s (works ∷ es) h =
      handled-run (step d s works) es h ∙ ap (λ q. q ++ queued es) (handled-work s s.worker)

  -- Without an interrupt, the replies that were sent, followed by those that wait, are the queued ones in
  -- their order; behind an interrupt they are those sent before it and those queued after it.
  pub handled_since_interrupt :
      (s : ClientReplyDelegator d) (es : List (Event d))
      → NoInterrupt es
      → (handled (run d s es) ≡ handled s ++ queued es)
        × (handled (run d (interrupt_all d s) es) ≡ s.sent ++ queued es)
  handled_since_interrupt s es h = (
    handled-run s es h,
    handled-run (interrupt_all d s) es h ∙ ap (λ q. q ++ queued es) (dropped s),
  )
    where
      dropped : (s : ClientReplyDelegator d) → handled (interrupt_all d s) ≡ s.sent
      dropped s = unfold interrupt_all in ground (arith, append-nil s.sent)

  -- The reply that the worker is sending, if its index is not 0.
  pub in_flight : Worker d → List ℕ
  in_flight (calling r) = if r.id == 0 then [] else r.id ∷ []
  in_flight _ = []

  abbrev MarksActive : Worker d → ℕ → Type 0
  MarksActive (calling r) i = i ≡ r.id
  MarksActive _ i = i ≡ 0

  take_front-MarksActive :
      (s : ClientReplyDelegator d) (q : List (ReplyInfo d))
      → s.worker ≡ waiting
      → s.active_id ≡ 0
      → MarksActive (take_front d s q).worker (take_front d s q).active_id
  unfolding take_front end_round
  take_front-MarksActive s [] w h = elim (Bool-cases s.halt) [
    | inl e ↦ rw e h
    | inr e ↦ rw (e, w) h
  ]
  take_front-MarksActive s (r ∷ rest) w h = refl

  work-MarksActive :
      (s : ClientReplyDelegator d) (w : Worker d)
      → s.worker ≡ w
      → MarksActive w s.active_id
      → MarksActive (work d s w).worker (work d s w).active_id
  unfolding work
  work-MarksActive s waiting w h = take_front-MarksActive s s.reply_queue w h
  work-MarksActive s (calling r) w h = elim (Bool-cases s.halt) [
    | inl e ↦ unfold end_round in rw e refl
    | inr e ↦ unfold end_round in rw e refl
  ]
  work-MarksActive s stopped w h = rw w h

  step-MarksActive :
      (s : ClientReplyDelegator d) (e : Event d)
      → MarksActive s.worker s.active_id
      → MarksActive (step d s e).worker (step d s e).active_id
  unfolding step
  step-MarksActive s (queues r) h = h
  step-MarksActive s interrupts h = elim (Bool-cases (s.active_id == 0)) [
    | inl e ↦ rw e h
    | inr e ↦ rw e h
  ]
  step-MarksActive s halts h = h
  step-MarksActive s works h = work-MarksActive s s.worker refl h

  run-MarksActive :
      (s : ClientReplyDelegator d) (es : List (Event d))
      → MarksActive s.worker s.active_id
      → MarksActive (run d s es).worker (run d s es).active_id
  unfolding run
  run-MarksActive s [] h = h
  run-MarksActive s (e ∷ es) h = run-MarksActive (step d s e) es (step-MarksActive s e h)

  interrupts_active :
      (s : ClientReplyDelegator d) (w : Worker d)
      → MarksActive w s.active_id
      → (interrupt_all d s).interrupted ≡ s.interrupted ++ in_flight w
  unfolding interrupt_all in_flight
  interrupts_active s waiting h = ground (arith, append-nil s.interrupted)
  interrupts_active s (calling r) h = ground (arith, append-nil s.interrupted)
  interrupts_active s stopped h = ground (arith, append-nil s.interrupted)

  -- After any history, an interrupt calls the interrupt function for the reply that is being sent, if
  -- its index is not 0, and for nothing else.
  pub interrupt_all_calls :
      (es : List (Event d))
      → let s = run d (init d) es in
        (interrupt_all d s).interrupted ≡ s.interrupted ++ in_flight s.worker
  interrupt_all_calls es =
      interrupts_active (run d (init d) es) _ (run-MarksActive (init d) es (unfold init in refl))
