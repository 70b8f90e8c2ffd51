-- ===== src/JobInfo/Registrations.antt =====
-- base/client_anyvalue_manager.cpp: a new client registers all values of a job with the callbacks of their kinds.
use oac_tree_server.Base.{
  [], ℕ, ◌^◌, ◌<◌, ◌≡◌, ◌≢◌, refl, ap, ◌∙◌, true, Bytes, none, some, ok, arith, lookup,
  if◌then◌else◌,
}
use oac_tree_server.External.Scalars.{has_name}
use oac_tree_server.External.Dto.{Dto, DtoLaws}
use oac_tree_server.External.OacTree.{OacTree}
use oac_tree_server.Protocol.ValueName.{ValueNameType, value_name, info}
use oac_tree_server.Protocol.ValueName.RoundTrip.{parse-value_name}
use oac_tree_server.JobInfo.ClientManager as ClientManager
use oac_tree_server.JobInfo.ClientManager.{ClientAnyValueManager, create_callback, add_any_values}
use oac_tree_server.JobInfo.Registers.{callback_of, Fresh, Registers, add_any_values-Registers}
use oac_tree_server.JobInfo.JobValues.{
  IsJobValue, job_value-IsIndexOf, instructions, instructions-distinct, instructions_new,
  has_job_value, in_either,
}
use oac_tree_server.JobInfo.InitialNames.{initial_values, initial-distinct}

module _ (d : Dto) (laws : DtoLaws d) (o : OacTree d) where
  -- Every value of a job has its callback.
  abbrev pub AllRegistered : Bytes → ℕ → ℕ → ClientAnyValueManager d o → Type 0
  AllRegistered p n k t =
      (q : ValueNameType) (i : ℕ)
      → IsJobValue n k q i
      → lookup (value_name p q i) t.cb_map ≡ some (create_callback d o (info q i))

  module _ (p : Bytes) (ne : p ≢ []) (n k : ℕ) (hn : n < 2 ^ 32) (hk : k < 2 ^ 32) where
    -- A manager that has the initial values and no others.
    abbrev HasInitials : ClientAnyValueManager d o → Type 0
    HasInitials t =
        (x : Bytes)
        → lookup x t.cb_map
          ≡ (if has_name x (initial_values d o p ne n) then some (callback_of d laws o x) else none)

    initials-Fresh : Fresh d laws o (ClientManager.init d o) (initial_values d o p ne n)
    unfolding ClientManager.init lookup
    initials-Fresh = (initial-distinct d o p ne n (omega (arith, hn)), λ x h. refl)

    initials_registered :
        (t : ClientAnyValueManager d o)
        → Registers d laws o (ClientManager.init d o) (initial_values d o p ne n) t
        → HasInitials t
    unfolding ClientManager.init lookup
    initials_registered t r = r

    instructions-Fresh :
        (t : ClientAnyValueManager d o) → HasInitials t → Fresh d laws o t (instructions d o p ne k)
    instructions-Fresh t known = (
      instructions-distinct d o p ne k hk,
      λ x h. known x ∙ simp (instructions_new d o p ne n k x hn hk h) refl,
    )

    all_registered :
        (s t : ClientAnyValueManager d o)
        → HasInitials s
        → Registers d laws o s (instructions d o p ne k) t
        → AllRegistered p n k t
    all_registered s t known r q i j =
        let x = value_name p q i in
        (r x
          ∙ ap
              (λ l.
                if has_name x (instructions d o p ne k) then some (callback_of d laws o x) else l)
              (known x)
          ∙ in_either _ _ (some (callback_of d laws o x)) (has_job_value d o p ne n k q i j)
          ∙ ap (λ z. some (create_callback d o z))
              (parse-value_name p q i ne (job_value-IsIndexOf n k q i hn hk j)))

    -- Both registrations of a job succeed over a new client.
    pub job_values-registered :
        (s : ClientAnyValueManager d o) × (t : ClientAnyValueManager d o) × (add_any_values d o
            (ClientManager.init d o)
            (initial_values d o p ne n)
          ≡ ok (s, true))
        × (add_any_values d o s (instructions d o p ne k) ≡ ok (t, true))
        × AllRegistered p n k t
    job_values-registered =
        let (s, e, r) =
          add_any_values-Registers d laws o (ClientManager.init d o) _ initials-Fresh in
        let known = initials_registered s r in
        let (t, f, q) = add_any_values-Registers d laws o s _ (instructions-Fresh s known) in
        (s, t, e, f, all_registered s t known q)
