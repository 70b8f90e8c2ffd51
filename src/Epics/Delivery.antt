-- ===== src/Epics/Delivery.antt =====
-- From the reports of a job to the client: base/server_job_info_io.cpp over epics/epics_anyvalue_manager.cpp and
-- epics/epics_server.cpp, and epics/epics_io_client.cpp over base/client_anyvalue_manager.cpp.
pub mod Server
pub mod Client
pub mod Delivered
pub mod Questions
use oac_tree_server.Base.{
  inl, inr, Bool-cases, ℕ, ◌≡◌, refl, sym, ap, ◌∙◌, subst, Bool, List, [], ◌∷◌, Bytes, Result, ok,
  ◌>>=◌, map, if◌then◌else◌, ◌==◌, All, bind_inversion,
}
use oac_tree_server.External.Dto.{Dto, DtoLaws}
use oac_tree_server.External.UserInput.{UserInput}
use oac_tree_server.External.OacTree.{OacTree, OacTreeLaws}
use oac_tree_server.Protocol.ValueName.{value_name, info}
use oac_tree_server.JobInfo.{AnyValueManager, JobInfoCall}
use oac_tree_server.JobInfo.ClientManager.{create_callback}
use oac_tree_server.JobInfo.ServerIo.{ServerJobInfoIo, publish}
use oac_tree_server.JobInfo.Updates.{update_all}
use oac_tree_server.JobInfo.Reports.{
  kind, index, IsReport, Fits, shown, Generators, encoded_report, report_call, report_all,
  generators, with_generators, report_call-publish,
}
use oac_tree_server.JobInfo.Forward.{encoded_report-Shows}
use oac_tree_server.Epics.Manager.Served.{home}

module _ (d : Dto) (o : OacTree d) where
  -- A report with the value that encodes it.
  abbrev pub Told : Type 0
  Told = JobInfoCall d o × d.AnyValue

  abbrev pub call_name : Bytes → JobInfoCall d o → Bytes
  call_name p c = value_name p (kind d o c) (index d o c)

  abbrev pub named : Bytes → Told → Bytes × d.AnyValue
  named p (c, v) = (call_name p c, v)

  abbrev pub calls_of : List Told → List (JobInfoCall d o)
  calls_of [] = []
  calls_of ((c, v) ∷ us) = c ∷ calls_of us

  -- The report is an update of a value that a server has.
  abbrev pub goes_to : ℕ → JobInfoCall d o → Bool
  goes_to j c = home (kind d o c) == j

  -- The reports that go to one server.
  unfoldable pub reports_at : ℕ → List (JobInfoCall d o) → List (JobInfoCall d o)
  reports_at j [] = []
  reports_at j (c ∷ cs) = if goes_to j c then c ∷ reports_at j cs else reports_at j cs

  unfoldable pub told_at : ℕ → List Told → List Told
  told_at j [] = []
  told_at j ((c, v) ∷ us) = if goes_to j c then (c, v) ∷ told_at j us else told_at j us

  -- The callback of the value's kind makes the report from the encoded value.
  abbrev pub Decodes : Told → Type 0
  Decodes (c, v) = create_callback d o (info (kind d o c) (index d o c)) v ≡ ok (shown d o c)

  -- What holds of all reports holds of all that are told.
  pub All-told :
      (P : JobInfoCall d o → Type 0) (Q : Told → Type 0) (us : List (Told))
      → ((r : JobInfoCall d o) (v : d.AnyValue) → P r → Q (r, v))
      → All P (calls_of us)
      → All Q us
  All-told P Q [] f h = tt
  All-told P Q ((r, v) ∷ us) f (h, hs) = (f r v h, All-told P Q us f hs)

  pub All-told_at : (Q : Told → Type 0) (j : ℕ) (us : List (Told)) → All Q us → All Q (told_at j us)
  unfolding told_at
  All-told_at Q j [] h = tt
  All-told_at Q j ((r, v) ∷ us) (h, hs) = elim (Bool-cases (goes_to j r)) [
    | inl e ↦ rw e (h, All-told_at Q j us hs)
    | inr e ↦ rw e (All-told_at Q j us hs)
  ]

  pub calls_of-told_at :
      (j : ℕ) (us : List (Told)) → calls_of (told_at j us) ≡ reports_at j (calls_of us)
  unfolding told_at reports_at
  calls_of-told_at j [] = refl
  calls_of-told_at j ((r, v) ∷ us) = elim (Bool-cases (goes_to j r)) [
    | inl e ↦ rw e (ap (λ l. r ∷ l) (calls_of-told_at j us))
    | inr e ↦ rw e (calls_of-told_at j us)
  ]

module _ (d : Dto) (laws : DtoLaws d) (o : OacTree d) (u : UserInput d)
    (tree_laws : OacTreeLaws d u o) {M : Type 0} (m : AnyValueManager d M) where
  abbrev JobServer : Type 0
  JobServer = ServerJobInfoIo d o m

  -- The object behind reports, which leave the generators and the manager.
  abbrev pub behind : JobServer → Generators d o → M → JobServer
  behind s g q = record (with_generators d o m s g) { manager = q }

  -- If the manager takes the updates, the reports are made.
  abbrev pub Makes :
      Generators d o → List (JobInfoCall d o) → List (Told d o) → Generators d o → Type 0
  Makes g cs us g' =
      (s : JobServer) (q : M)
      → generators d o m s ≡ g
      → update_all d m s.manager (map (named d o s.job_prefix) us) ≡ ok q
      → report_all d o m s cs ≡ ok (behind s g' q)

  report_then :
      (s : JobServer) (g : Generators d o) (c : JobInfoCall d o) (v : d.AnyValue) (r : M × Bool)
      → IsReport d o c
      → encoded_report d o (generators d o m s) c ≡ ok (g, v)
      → m.update_any_value s.manager (call_name d o s.job_prefix c) v ≡ ok r
      → report_call d o m s c ≡ ok (behind s g r.0)
  unfolding publish
  report_then s g c v r h e f = report_call-publish d o m s c h ∙ simp (e, f) refl

  pub reports-Makes :
      (g : Generators d o) (cs : List (JobInfoCall d o))
      → All (IsReport d o) cs
      → All (Fits d o) cs
      → (us : List (Told d o)) × (g' : Generators d o) × (calls_of d o us ≡ cs)
        × All (Decodes d o) us
        × Makes g cs us g'
  unfolding update_all report_all
  reports-Makes g [] r f = (
    [],
    g,
    refl,
    tt,
    λ s q e h.
        let m' : s.manager ≡ q = cc in
        subst (λ x. ok s ≡ ok (behind s x q)) e (ap (λ x. ok (record s { manager = x })) m'),
  )
  reports-Makes g (c ∷ cs) (r, rs) (f, fs) =
      let (g1, v, e, k) = encoded_report-Shows d laws o u tree_laws g c r f in
      let (us, g2, a, b, h) = reports-Makes g1 cs rs fs in
      (
        (c, v) ∷ us,
        g2,
        ap (λ l. c ∷ l) a,
        (k, b),
        λ s q e' h'.
            let (x, n, z) =
              bind_inversion (m.update_any_value s.manager (call_name d o s.job_prefix c) v) _ h' in
            (ap (λ t. t >>= λ t'. report_all d o m t' cs)
                (report_then s g1 c v x r (ap (λ y. encoded_report d o y c) e' ∙ e) z)
              ∙ h (behind s g1 x.0) q refl n),
      )
