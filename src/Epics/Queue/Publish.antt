-- ===== src/Epics/Queue/Publish.antt =====
-- epics/epics_server.cpp: every update is published once, in order, unless the server was destroyed
-- before it.
use mathlib.Core.List.{append_assoc, append-nil}
use oac_tree_server.Base.{
  ◌≡◌, refl, sym, ap, ◌∙◌, subst, Bool, true, false, ◌||◌, List, [], ◌∷◌, ◌++◌, Bytes, Result, ok,
  throws, arith, Bool-cases, ◌⊎◌, inl, inr, if◌then◌else◌,
}
use oac_tree_server.External.Dto.{Dto}
use oac_tree_server.External.Codec.{Codec}
use oac_tree_server.Protocol.Base64.{base64_encode}
use oac_tree_server.Epics.Queue.{
  update, exit, Command, create_value_update, create_exit_command, push, push_exit, is_non_empty,
  pop_commands, process_command_queue,
}
use oac_tree_server.Epics.Queue.Loop.{
  EpicsServer, update_any_value, destroy, set_value, process_batch, update_loop_round, Event,
  updates, destroys, rounds, after, step, run,
}

module _ (d : Dto) (c : Codec d) where
  open d use {AnyValue, empty_value}

  -- The updates in front of the first exit command, and whether there is one.
  unfoldable pub before_exit : List (Command AnyValue) → List (Bytes × AnyValue)
  before_exit [] = []
  before_exit (k ∷ q) = elim k.command_type [
    | exit ↦ []
    | update ↦ (k.channel, k.value) ∷ before_exit q
  ]

  pub has_exit : List (Command AnyValue) → Bool
  has_exit [] = false
  has_exit (k ∷ q) = elim k.command_type [ exit ↦ true | update ↦ has_exit q ]

  -- The commands that an event queues.
  abbrev pub encoded_command : Bytes → Result AnyValue → List (Command AnyValue)
  encoded_command name (ok w) = create_value_update AnyValue name w ∷ []
  encoded_command name (throws e) = []

  unfoldable pub pushed : List (Event d c) → List (Command AnyValue)
  pushed [] = []
  pushed (updates name value ∷ es) = encoded_command name (base64_encode d c value) ++ pushed es
  pushed (destroys ∷ es) = create_exit_command AnyValue empty_value ∷ pushed es
  pushed (rounds ∷ es) = pushed es

  process_command_queue_lem :
      (q : List (Command AnyValue)) (out : List (Bytes × AnyValue))
      → ((process_command_queue AnyValue (set_value d c) q out).0 ≡ has_exit q)
        × ((process_command_queue AnyValue (set_value d c) q out).2 ≡ out ++ before_exit q)
  unfolding process_command_queue before_exit has_exit
  process_command_queue_lem [] out = (refl, sym (append-nil out))
  process_command_queue_lem (k ∷ q) out = ground (
    arith,
    process_command_queue_lem q (set_value d c k.channel k.value out),
    append-nil out,
    append_assoc out ((k.channel, k.value) ∷ []) (before_exit q),
  )

  before_exit-append :
      (q r : List (Command AnyValue))
      → (before_exit (q ++ r)
          ≡ (if has_exit q then before_exit q else before_exit q ++ before_exit r))
        × (has_exit (q ++ r) ≡ (has_exit q || has_exit r))
  unfolding before_exit has_exit
  before_exit-append [] r = (refl, refl)
  before_exit-append (k ∷ q) r = ground (arith, before_exit-append q r)

  -- How the state stands to all commands queued so far: those handled and those that wait, or, behind
  -- the loop, all in front of the first exit.
  abbrev Tracks : List (Command AnyValue) → EpicsServer d c → Type 0
  Tracks h s =
      ((handled : List (Command AnyValue)) × (s.exited ≡ false)
        × (h ≡ handled ++ s.update_queue)
        × (has_exit handled ≡ false)
        × (s.published ≡ before_exit handled))
      ⊎ ((s.exited ≡ true) × (s.published ≡ before_exit h) × (has_exit h ≡ true))

  push-Tracks :
      (h : List (Command AnyValue)) (s : EpicsServer d c) (ks : List (Command AnyValue))
      → Tracks h s
      → Tracks (h ++ ks) (record s { update_queue = s.update_queue ++ ks })
  push-Tracks h s ks (inl (a, e, f, x, p)) =
      inl (a, e, ap (λ q. q ++ ks) f ∙ append_assoc a s.update_queue ks, x, p)
  push-Tracks h s ks (inr (e, p, x)) =
      inr (e, ground (arith, before_exit-append h ks), ground (arith, before_exit-append h ks))

  process_batch-Tracks :
      (h : List (Command AnyValue)) (s : EpicsServer d c)
      → Tracks h s
      → s.exited ≡ false
      → Tracks h (process_batch d c s)
  unfolding process_batch pop_commands
  process_batch-Tracks h s (inl (a, e, f, x, p)) _ =
      let (done, out) = process_command_queue_lem s.update_queue s.published in
      let (b, y) = before_exit-append a s.update_queue in
      elim (Bool-cases (has_exit s.update_queue)) [
        | inl z ↦ inr (done ∙ z, ground (arith), ground (arith))
        | inr z ↦ inl (h, done ∙ z, sym (append-nil h), ground (arith), ground (arith))
      ]
  process_batch-Tracks h s (inr (e, p, x)) n = cc

  round_cases :
      (s : EpicsServer d c)
      → ((update_loop_round d c s ≡ s)
          × ((s.exited ≡ true) ⊎ (is_non_empty AnyValue s.update_queue ≡ false)))
        ⊎ ((update_loop_round d c s ≡ process_batch d c s) × (s.exited ≡ false))
  unfolding update_loop_round
  round_cases s = elim (Bool-cases s.exited) [
    | inl e ↦ inl (ap (λ b. by_exited b) e, inl e)
    | inr e ↦ elim (Bool-cases (is_non_empty AnyValue s.update_queue)) [
      | inl f ↦ inr (ap by_exited e ∙ ap by_waiting f, e)
      | inr f ↦ inl (ap by_exited e ∙ ap by_waiting f, inr f)
    ]
  ]
    where
      by_waiting : Bool → EpicsServer d c
      by_waiting b = elim b [ true ↦ process_batch d c s | false ↦ s ]

      by_exited : Bool → EpicsServer d c
      by_exited b = elim b [ true ↦ s | false ↦ by_waiting (is_non_empty AnyValue s.update_queue) ]

  round-Tracks :
      (h : List (Command AnyValue)) (s : EpicsServer d c)
      → Tracks h s
      → Tracks h (update_loop_round d c s)
  round-Tracks h s t = elim (round_cases s) [
    | inl (e, _) ↦ subst (Tracks h) (sym e) t
    | inr (e, n) ↦ subst (Tracks h) (sym e) (process_batch-Tracks h s t n)
  ]

  update_any_value_lem :
      (s : EpicsServer d c) (name : Bytes) (value : AnyValue)
      → after d c s (update_any_value d c s name value) ≡ record s {
        update_queue = s.update_queue ++ encoded_command name (base64_encode d c value);
      }
  unfolding update_any_value push
  update_any_value_lem s name value = by_result (base64_encode d c value) refl
    where
      by_result :
          (r : Result AnyValue)
          → base64_encode d c value ≡ r
          → after d c s (update_any_value d c s name value) ≡ record s {
            update_queue = s.update_queue ++ encoded_command name (base64_encode d c value);
          }
      by_result (ok w) e = rw e
      by_result (throws x) e = simp (e, append-nil)

  run-Tracks :
      (h : List (Command AnyValue)) (s : EpicsServer d c) (es : List (Event d c))
      → Tracks h s
      → Tracks (h ++ pushed es) (run d c s es)
  unfolding run step pushed
  run-Tracks h s [] t = subst (λ q. Tracks q s) (sym (append-nil h)) t
  run-Tracks h s (updates name value ∷ es) t =
      let ks = encoded_command name (base64_encode d c value) in
      subst (λ q. Tracks q (run d c (step d c s (updates name value)) es))
        (append_assoc h ks (pushed es))
        (run-Tracks (h ++ ks) (step d c s (updates name value)) es (
          subst (Tracks (h ++ ks)) (sym (update_any_value_lem s name value))
            (push-Tracks h s ks t)))
  run-Tracks h s (destroys ∷ es) t =
      let ks = create_exit_command AnyValue empty_value ∷ [] in
      subst (λ q. Tracks q (run d c (step d c s destroys) es)) (append_assoc h ks (pushed es))
        (run-Tracks (h ++ ks) (step d c s destroys) es
          (unfold destroy push_exit in push-Tracks h s ks t))
  run-Tracks h s (rounds ∷ es) t = run-Tracks h (update_loop_round d c s) es (round-Tracks h s t)

  round_drains :
      (h : List (Command AnyValue)) (s : EpicsServer d c)
      → Tracks h s
      → ((update_loop_round d c s).published ≡ before_exit h)
        × ((update_loop_round d c s).exited ≡ has_exit h)
  unfolding process_batch pop_commands is_non_empty
  round_drains h s t = elim (round_cases s) [
    | inl (k, w) ↦ simp k (drained t w)
    | inr (k, n) ↦ elim t [
      | inl (a, e, f, x, p) ↦
          let (done, out) = process_command_queue_lem s.update_queue s.published in
          let (b, y) = before_exit-append a s.update_queue in
          simp k (ground (arith), ground (arith))
      | inr (e, p, x) ↦ cc
    ]
  ]
    where
      empty_queue : (q : List (Command AnyValue)) → is_non_empty AnyValue q ≡ false → q ≡ []
      empty_queue [] y = refl
      empty_queue (k ∷ q) y = cc

      drained :
          Tracks h s
          → (s.exited ≡ true) ⊎ (is_non_empty AnyValue s.update_queue ≡ false)
          → (s.published ≡ before_exit h) × (s.exited ≡ has_exit h)
      drained (inr (e, p, x)) w = (p, e ∙ sym x)
      drained (inl (a, e, f, x, p)) (inl y) = cc
      drained (inl (a, e, f, x, p)) (inr y) =
          let q = f ∙ ap (λ q. a ++ q) (empty_queue s.update_queue y) ∙ append-nil a in
          (p ∙ ap before_exit (sym q), e ∙ sym (ap has_exit q ∙ x))

  -- After any events on a fresh server, one more round of the update loop has published all updates that were
  -- queued in front of the first destruction and could be encoded, each once and in order, and the loop has ended if and only if
  -- there was a destruction.
  pub published-run :
      (s : EpicsServer d c) (es : List (Event d c))
      → s.update_queue ≡ []
      → s.published ≡ []
      → s.exited ≡ false
      → let t = update_loop_round d c (run d c s es) in
        (t.published ≡ before_exit (pushed es)) × (t.exited ≡ has_exit (pushed es))
  published-run s es q p e = round_drains (pushed es) (run d c s es) (
      run-Tracks [] s es (inl ([], e, sym q, (unfold has_exit in refl), (unfold before_exit in p))))
