-- ===== src/Input/Delegator/Halting.antt =====
-- base/client_reply_delegator.cpp: the worker ends after a halt, so the destructor can join it.
use oac_tree_server.Base.{
  ℕ, suc, ◌+◌, ◌-◌, ◌≤◌, ◌≡◌, refl, ◌∙◌, true, List, [], ◌∷◌, arith, length, length-append, ◌<◌,
  ◌⊎◌, inl, inr, Bool-cases, ltb, ltb→lt,
}
use oac_tree_server.External.Dto.{Dto}
use oac_tree_server.Input.Delegator.{
  ReplyInfo, Worker, waiting, calling, stopped, ClientReplyDelegator, interrupt_all, set_halt,
  end_round, take_front, work, Event, queues, interrupts, halts, works, step, run,
}

module _ (d : Dto) where
  abbrev pub rounds : List (Event d) → ℕ
  rounds [] = 0
  rounds (works ∷ es) = suc (rounds es)
  rounds (_ ∷ es) = rounds es

  -- The rounds of the worker that a halt still leaves.
  abbrev left : Worker d → ℕ
  left waiting = 2
  left (calling r) = 1
  left stopped = 0

  -- The replies that a halt still lets through.
  abbrev budget : Worker d → ℕ
  budget waiting = 1
  budget (calling r) = 0
  budget stopped = 0

  record Winds (s : ClientReplyDelegator d) (w : Worker d) (t : ClientReplyDelegator d)
      : Type 0 where
    halted : t.halt ≡ true
    closer : left t.worker ≤ left w - 1
    few : length t.sent + budget t.worker ≤ length s.sent + budget w

  take_front-Winds :
      (s : ClientReplyDelegator d) (q : List (ReplyInfo d))
      → s.halt ≡ true
      → Winds s waiting (take_front d s q)
  unfolding take_front end_round
  take_front-Winds s [] h =
      simp h (record { halted = refl; closer = omega arith; few = omega arith })
  take_front-Winds s (r ∷ rest) h = record {
    halted = h;
    closer = omega arith;
    few = omega (arith, length-append s.sent (r ∷ []));
  }

  work-Winds :
      (s : ClientReplyDelegator d) (w : Worker d)
      → s.worker ≡ w
      → s.halt ≡ true
      → Winds s w (work d s w)
  unfolding work end_round
  work-Winds s waiting e h = take_front-Winds s s.reply_queue h
  work-Winds s (calling r) e h =
      simp h (record { halted = refl; closer = omega arith; few = omega arith })
  work-Winds s stopped e h = record {
    halted = h;
    closer = rw e (omega arith);
    few = rw e (omega arith);
  }

  interrupt_all-halt :
      (s : ClientReplyDelegator d)
      → ((interrupt_all d s).halt ≡ s.halt)
        × ((interrupt_all d s).worker ≡ s.worker)
        × ((interrupt_all d s).sent ≡ s.sent)
  unfolding interrupt_all
  interrupt_all-halt s = ground arith

  run-Winds :
      (s : ClientReplyDelegator d) (es : List (Event d))
      → s.halt ≡ true
      → (left (run d s es).worker ≤ left s.worker - rounds es)
        × (length (run d s es).sent + budget (run d s es).worker ≤ length s.sent + budget s.worker)
  unfolding run step
  run-Winds s [] h = omega arith
  run-Winds s (queues r ∷ es) h = run-Winds (step d s (queues r)) es h
  run-Winds s (interrupts ∷ es) h =
      let (a, b, c) = interrupt_all-halt s in
      rw (b, c) at (run-Winds (step d s interrupts) es (a ∙ h))
  run-Winds s (halts ∷ es) h = run-Winds (step d s halts) es refl
  run-Winds s (works ∷ es) h =
      let v = work-Winds s s.worker refl h in
      omega (arith, v.closer, v.few, run-Winds (step d s works) es v.halted)

  left-stopped : (w : Worker d) → left w ≤ 0 → w ≡ stopped
  left-stopped waiting h = absurd (omega arith)
  left-stopped (calling r) h = absurd (omega arith)
  left-stopped stopped h = refl

  budget-le : (w : Worker d) → budget w ≤ 1
  budget-le waiting = omega arith
  budget-le (calling r) = omega arith
  budget-le stopped = omega arith

  left-le : (w : Worker d) → left w ≤ 2
  left-le waiting = omega arith
  left-le (calling r) = omega arith
  left-le stopped = omega arith

  -- Whatever else happens behind a halt, at most one more reply is sent, and the worker has left its
  -- loop unless it made fewer than two of its rounds.
  pub set_halt_stops :
      (s : ClientReplyDelegator d) (es : List (Event d))
      → (length (run d (set_halt d s) es).sent ≤ length s.sent + 1)
        × ((rounds es < 2) ⊎ ((run d (set_halt d s) es).worker ≡ stopped))
  unfolding set_halt
  set_halt_stops s es =
      let t : ClientReplyDelegator d = record s { halt = true } in
      let (a, b) = run-Winds t es refl in
      (
        omega (arith, b, budget-le s.worker),
        elim (Bool-cases (ltb (rounds es) 2)) [
          | inl h ↦ inl (ltb→lt (rounds es) 2 h)
          | inr h ↦
              let l : 2 ≤ rounds es = ground arith in
              inr (left-stopped _ (omega (arith, a, l, left-le s.worker)))
        ],
      )
