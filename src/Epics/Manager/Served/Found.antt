-- ===== src/Epics/Manager/Served/Found.antt =====
-- base/server_job_info_io.cpp over epics/epics_anyvalue_manager.cpp: where the names of a served job lead.
use oac_tree_server.Base.{
  ℕ, ◌^◌, ◌<◌, ◌≡◌, ◌≢◌, refl, ◌∙◌, Bool, List, [], ◌∷◌, Bytes, Option, none, some, ok, arith,
  lookup, if◌then◌else◌, bytes_eq_refl, insert, inl, inr, Bool-cases,
}
use oac_tree_server.External.Scalars.{has_name}
use oac_tree_server.External.Dto.{Dto, DtoLaws}
use oac_tree_server.External.Codec.{Codec}
use oac_tree_server.External.UserInput.{UserInput, UserInputReply}
use oac_tree_server.External.OacTree.{OacTree}
use oac_tree_server.Protocol.Names.{input_server_name}
use oac_tree_server.Protocol.ValueName.{
  ValueNameType, unknown, instruction, variable, log_entry, message_entry, output_value_entry,
  job_status, breakpoint_instruction, value_name,
}
use oac_tree_server.Input.Codec.{input_request_any_value}
use oac_tree_server.JobInfo.ValueSets.{initial_value_set, instruction_value_set}
use oac_tree_server.JobInfo.InitialNames.{
  initial_value_set_lem, initial-IsIndexOf, initial_has, IsInitial, instructions_lem,
}
use oac_tree_server.JobInfo.JobValues.{IsJobValue, instructions, instructions_new, has_instruction}
use oac_tree_server.JobInfo.RequestName.{request_name, value_name-ne-request_name}
use oac_tree_server.Epics.Queue.Loop.{start_server}
use oac_tree_server.Epics.InputServer as InputServer
use oac_tree_server.Epics.Manager.{
  EpicsAnyValueManager, init, added, with_input_server, find_server, find_input_server, launch,
}
use oac_tree_server.Epics.Manager.Served.{
  home, JobServer, serve, found_instructions, found_request, no_request, instruction_no_request,
  initials, request, served, serve_lem, with_instructions,
}

module _ (d : Dto) (c : Codec d) (o : OacTree d) (u : UserInput d)
    (wait : EpicsAnyValueManager d c u
      → Bytes
      → ℕ
      → EpicsAnyValueManager d c u × (Bool × UserInputReply d)) where
  open d use {AnyValue}

  module _ (laws : DtoLaws d) (p : Bytes) (ne : p ≢ []) (n k : ℕ) (hn : n < 2 ^ 32)
      (hk : k < 2 ^ 32) where
    -- The server that has the name, of the three.
    abbrev in_three : Bytes → Option ℕ
    in_three x =
        if has_name x (instructions d o p ne k)
        then some 2
        else if has_name x (request d c o u wait laws p ne n k hn hk)
        then some 1
        else if has_name x (initials d c o u wait laws p ne n k hn hk)
        then some 0
        else none

    found :
        (x : Bytes)
        → find_server d c u (with_instructions d c o u wait laws p ne n k hn hk) x ≡ in_three x
    found x =
        (found_instructions d c o u wait laws p ne n k hn hk) x
        ∙ simp (found_request d c o u wait laws p ne n k hn hk) refl

    in_initials :
        (t : ValueNameType) (i : ℕ) → IsInitial n t i → in_three (value_name p t i) ≡ some 0
    in_initials t i h =
        let e = initial_has d o p ne n t i h in
        let r =
          (no_request d c o u wait laws p ne n k hn hk) (value_name p t i)
            (value_name-ne-request_name p t i (initial-IsIndexOf n t i (omega (arith, hn)) h)) in
        elim (Bool-cases (has_name (value_name p t i) (instructions d o p ne k))) [
          | inl f ↦ let g = instructions_new d o p ne n k _ hn hk f in cc
          | inr f ↦ rw (f, r, e) refl
        ]

    in_home :
        (t : ValueNameType) (i : ℕ)
        → IsJobValue n k t i
        → in_three (value_name p t i) ≡ some (home t)
    in_home instruction i h = rw (has_instruction d o p ne k i h) refl
    in_home unknown i h = absurd h
    in_home variable i h = in_initials variable i h
    in_home log_entry i h = in_initials log_entry i h
    in_home message_entry i h = in_initials message_entry i h
    in_home output_value_entry i h = in_initials output_value_entry i h
    in_home job_status i h = in_initials job_status i h
    in_home breakpoint_instruction i h = in_initials breakpoint_instruction i h

    pub find_server-served :
        (t : ValueNameType) (i : ℕ)
        → IsJobValue n k t i
        → find_server d c u (served d c o u wait laws p ne n k hn hk).manager (value_name p t i)
          ≡ some (home t)
    find_server-served t i h = found _ ∙ in_home t i h

    request_found : in_three (request_name p) ≡ some 1
    unfolding has_name
    request_found = elim (Bool-cases (has_name (request_name p) (instructions d o p ne k))) [
      | inl f ↦ absurd ((instruction_no_request d c o u wait laws p ne n k hn hk) _ f refl)
      | inr f ↦ rw (f, bytes_eq_refl (request_name p)) refl
    ]

    pub servers_lem :
        (with_instructions d c o u wait laws p ne n k hn hk).servers
        ≡ launch d c u (start_server d c (initials d c o u wait laws p ne n k hn hk))
          ∷ launch d c u (start_server d c (request d c o u wait laws p ne n k hn hk))
          ∷ launch d c u (start_server d c (instruction_value_set d o p k))
          ∷ []
    unfolding added with_input_server init instruction_value_set
    servers_lem = simp (instructions_lem d o p ne 0 k) refl

    pub input_server_found :
        find_input_server d c u
          (with_instructions d c o u wait laws p ne n k hn hk)
          (input_server_name p)
        ≡ some 0
    unfolding added with_input_server init find_input_server lookup insert
    input_server_found = rw (bytes_eq_refl (input_server_name p)) refl

    pub request_found_at :
        find_server d c u (with_instructions d c o u wait laws p ne n k hn hk) (request_name p)
        ≡ some 1
    request_found_at = found _ ∙ request_found

    pub input_servers_lem :
        (with_instructions d c o u wait laws p ne n k hn hk).input_servers
        ≡ InputServer.construct d u (input_server_name p) ∷ []
    unfolding added with_input_server init
    input_servers_lem = refl

    -- A job with a non-empty prefix and numbers of variables and instructions below 2^32 is (served d c o u wait laws p ne n k hn hk) by three
    -- servers of process variables, for the values of its start, its input (request d c o u wait laws p ne n k hn hk) and its instructions; each of its
    -- values is found at the server that has it, and so are the input server and its request.
    pub serve-find_server :
        (t : ValueNameType) (i : ℕ)
        → IsJobValue n k t i
        → (s : JobServer d c o u wait) × (vs : List (Bytes × AnyValue)) × (serve d c o u wait p n k
            ≡ ok s)
          × (initial_value_set d o p n ≡ ok vs)
          × (s.manager.servers
              ≡ launch d c u (start_server d c vs)
                ∷ launch d c u (start_server d c ((request_name p, input_request_any_value d) ∷ []))
                ∷ launch d c u (start_server d c (instruction_value_set d o p k))
                ∷ [])
          × (find_server d c u s.manager (value_name p t i) ≡ some (home t))
          × (find_input_server d c u s.manager (input_server_name p) ≡ some 0)
          × (find_server d c u s.manager (request_name p) ≡ some 1)
    serve-find_server t i h = (
      (served d c o u wait laws p ne n k hn hk),
      (initials d c o u wait laws p ne n k hn hk),
      (serve_lem d c o u wait laws p ne n k hn hk),
      initial_value_set_lem d o p ne n laws,
      servers_lem,
      find_server-served t i h,
      input_server_found,
      request_found_at,
    )
