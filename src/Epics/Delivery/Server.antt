-- ===== src/Epics/Delivery/Server.antt =====
-- epics/epics_anyvalue_manager.cpp: which updates each server is told.
use mathlib.Core.Option.{some-injective}
use oac_tree_server.Base.{
  length-set, get_elem-total, get_elem-set, get_elem-set_other, zero, suc, Bool, ℕ, ◌<◌, ◌≡◌, refl,
  sym, ap, ◌∙◌, true, false, List, [], ◌∷◌, Bytes, some, ok, map, ◌==◌, All, arith, Bool-cases, inl,
  inr, length, get_elem?, set,
}
use oac_tree_server.External.Dto.{Dto}
use oac_tree_server.External.Codec.{Codec}
use oac_tree_server.External.UserInput.{UserInput, UserInputReply}
use oac_tree_server.External.OacTree.{OacTree}
use oac_tree_server.Protocol.Base64.{base64_encode}
use oac_tree_server.Protocol.ValueName.{
  ValueNameType, unknown, instruction, variable, log_entry, message_entry, output_value_entry,
  job_status, breakpoint_instruction,
}
use oac_tree_server.JobInfo.Updates.{update_all}
use oac_tree_server.JobInfo.Reports.{kind}
use oac_tree_server.Epics.Queue.Loop.{
  EpicsServer, add_variables, start_server, Event, updates, update_any_value, step, run,
}
use oac_tree_server.Epics.Queue.Publish.{before_exit, pushed}
use oac_tree_server.Epics.Manager.{EpicsAnyValueManager, launch, find_server, update_value}
use oac_tree_server.Epics.Manager.Keeps.{at_server}
use oac_tree_server.Epics.Manager.Interface.{epics_manager}
use oac_tree_server.Epics.Manager.Served.{home}
use oac_tree_server.Epics.Delivery.{Told, call_name, named, told_at}

home-lt : (t : ValueNameType) → home t < 3
home-lt unknown = omega arith
home-lt instruction = omega arith
home-lt variable = omega arith
home-lt log_entry = omega arith
home-lt message_entry = omega arith
home-lt output_value_entry = omega arith
home-lt job_status = omega arith
home-lt breakpoint_instruction = omega arith

-- The codec encodes every value.
abbrev pub Encodes : (d : Dto) → Codec d → Type 0
Encodes d c = (v : d.AnyValue) → (w : d.AnyValue) × (c.encode v ≡ some w)

module _ (d : Dto) (c : Codec d) where
  -- A server whose thread has nothing to do.
  abbrev pub Idle : EpicsServer d c → Type 0
  Idle v = (v.update_queue ≡ []) × (v.published ≡ []) × (v.exited ≡ false)

  add_variables_lem :
      (encodes : Encodes d c) (vs : List (Bytes × d.AnyValue))
      → (xs : List (Bytes × d.AnyValue)) × (add_variables d c vs ≡ ok xs)
  unfolding add_variables base64_encode
  add_variables_lem encodes [] = ([], refl)
  add_variables_lem encodes ((x, v) ∷ vs) =
      let (w, e) = encodes v in
      let (xs, f) = add_variables_lem encodes vs in ((x, w) ∷ xs, simp (e, f) refl)

  launch-Idle :
      (u : UserInput d) (encodes : Encodes d c) (vs : List (Bytes × d.AnyValue))
      → Idle (launch d c u (start_server d c vs))
  unfolding launch start_server
  launch-Idle u encodes vs = let (xs, e) = add_variables_lem encodes vs in rw e (refl, refl, refl)

  pub three-Idle :
      (u : UserInput d) (encodes : Encodes d c) (vs ws xs : List (Bytes × d.AnyValue)) (j : ℕ)
      → j < 3
      → (v : EpicsServer d c) × (get_elem?
            (launch d c u (start_server d c vs)
              ∷ launch d c u (start_server d c ws)
              ∷ launch d c u (start_server d c xs)
              ∷ [])
            j
          ≡ some v)
        × Idle v
  three-Idle u encodes vs ws xs zero h =
      (launch d c u (start_server d c vs), refl, launch-Idle u encodes vs)
  three-Idle u encodes vs ws xs (suc zero) h =
      (launch d c u (start_server d c ws), refl, launch-Idle u encodes ws)
  three-Idle u encodes vs ws xs (suc (suc zero)) h =
      (launch d c u (start_server d c xs), refl, launch-Idle u encodes xs)
  three-Idle u encodes vs ws xs (suc (suc (suc j))) h = absurd (omega (arith, h))

module _ (d : Dto) (c : Codec d) (o : OacTree d) (p : Bytes) where
  -- The updates that a server is told.
  abbrev pub events : List (Told d o) → List (Event d c)
  events [] = []
  events ((r, v) ∷ us) = updates (call_name d o p r) v ∷ events us

  module _ (encodes : Encodes d c) where
    -- The values as a server publishes them.
    abbrev pub published : List (Told d o) → List (Bytes × d.AnyValue)
    published [] = []
    published ((r, v) ∷ us) = (call_name d o p r, (encodes v).0) ∷ published us

    pub before_exit-pushed :
        (us : List (Told d o)) → before_exit d c (pushed d c (events us)) ≡ published us
    unfolding before_exit pushed base64_encode
    before_exit-pushed [] = refl
    before_exit-pushed ((r, v) ∷ us) =
        let (w, e) = encodes v in simp (e, before_exit-pushed us) refl

module _ (d : Dto) (c : Codec d) (o : OacTree d) (u : UserInput d)
    (wait : EpicsAnyValueManager d c u
      → Bytes
      → ℕ
      → EpicsAnyValueManager d c u × (Bool × UserInputReply d))
    (encodes : Encodes d c) (p : Bytes) where
  abbrev Manager : Type 0
  Manager = EpicsAnyValueManager d c u

  -- The value of a report is found at its server.
  abbrev pub FoundAtHome : Manager → Told d o → Type 0
  FoundAtHome s (r, v) = find_server d c u s (call_name d o p r) ≡ some (home (kind d o r))

  -- Each server has been told the updates of its values.
  abbrev pub Tells : Manager → List (Told d o) → Manager → Type 0
  Tells s us q =
      (j : ℕ) (v : EpicsServer d c)
      → get_elem? s.servers j ≡ some v
      → get_elem? q.servers j ≡ some (run d c v (events d c o p (told_at d o j us)))

  told : EpicsServer d c → Told d o → EpicsServer d c
  told server (r, v) = step d c server (updates (call_name d o p r) v)

  at_home : Manager → Told d o → EpicsServer d c → Manager
  at_home s (r, v) server = record s {
    servers = set s.servers (home (kind d o r)) (told server (r, v));
  }

  update_lem :
      (s : Manager) (r : Told d o) (server : EpicsServer d c)
      → FoundAtHome s r
      → get_elem? s.servers (home (kind d o r.0)) ≡ some server
      → update_value d c u s (call_name d o p r.0) r.1 ≡ ok (at_home s r server, true)
  unfolding told at_home update_any_value base64_encode step
  update_lem s (r, v) server f g =
      let (w, e) = encodes v in
      at_server d c u s (call_name d o p r) v (home (kind d o r)) server f g ∙ simp e refl

  at_home-Tells :
      (s : Manager) (r : Told d o) (us : List (Told d o)) (server : EpicsServer d c) (q : Manager)
      → get_elem? s.servers (home (kind d o r.0)) ≡ some server
      → Tells (at_home s r server) us q
      → Tells s (r ∷ us) q
  unfolding told at_home told_at run
  at_home-Tells s (r, v) us server q g t j x h = elim (Bool-cases (home (kind d o r) == j)) [
    | inl e ↦
        let i : home (kind d o r) ≡ j = ground arith in
        let x' : server ≡ x = some-injective _ _ (sym g ∙ ap (get_elem? s.servers) i ∙ h) in
        simp e (
          t j (step d c x (updates (call_name d o p r) v)) (
            ap (λ k. get_elem? (set s.servers (home (kind d o r)) (told server (r, v))) k) (sym i)
            ∙ get_elem-set s.servers (home (kind d o r)) (told server (r, v)) server g
            ∙ ap (λ y. some (step d c y (updates (call_name d o p r) v))) x'))
    | inr e ↦ simp e (
        t j x (
          get_elem-set_other s.servers (home (kind d o r)) j (told server (r, v))
            (λ i. absurd (ground arith))
          ∙ h))
  ]

  pub update_all-Tells :
      (s : Manager) (us : List (Told d o))
      → All (FoundAtHome s) us
      → length s.servers ≡ 3
      → (q : Manager) × (update_all d (epics_manager d c u wait) s (map (named d o p) us) ≡ ok q)
        × Tells s us q
  unfolding update_all told_at run at_home find_server
  update_all-Tells s [] f l = (s, refl, λ j v h. h)
  update_all-Tells s ((r, v) ∷ us) (f, fs) l =
      let (server, g) =
        get_elem-total s.servers (home (kind d o r)) (omega (arith, l, home-lt (kind d o r))) in
      let t = at_home s (r, v) server in
      let (q, e, h) =
        update_all-Tells t us fs
          (length-set s.servers (home (kind d o r)) (told server (r, v)) ∙ l) in
      (q, simp (update_lem s (r, v) server f g) e, at_home-Tells s (r, v) us server q g h)
