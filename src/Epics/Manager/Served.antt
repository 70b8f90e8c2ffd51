-- ===== src/Epics/Manager/Served.antt =====
-- base/server_job_info_io.cpp over epics/epics_anyvalue_manager.cpp: the process variables of a job.
pub mod Found
use oac_tree_server.Base.{
  ℕ, ◌^◌, ◌<◌, ◌≡◌, ◌≢◌, refl, sym, ap, ◌∙◌, Bool, true, false, List, [], ◌∷◌, Bytes, Option, none,
  some, Result, ok, ◌>>=◌, arith, lookup, if◌then◌else◌, subst, bytes_eq→eq, bytes_eq_refl, insert,
  bytes_ne, inl, inr, Bool-cases,
}
use oac_tree_server.External.Scalars.{has_name}
use oac_tree_server.External.Dto.{Dto, DtoLaws}
use oac_tree_server.External.Codec.{Codec}
use oac_tree_server.External.UserInput.{UserInput, UserInputReply}
use oac_tree_server.External.OacTree.{OacTree}
use oac_tree_server.Protocol.Names.{input_server_name}
use oac_tree_server.Protocol.ValueName.{
  ValueNameType, unknown, instruction, variable, log_entry, message_entry, output_value_entry,
  job_status, breakpoint_instruction, value_name,
}
use oac_tree_server.Input.Codec.{input_request_any_value}
use oac_tree_server.JobInfo.ServerIo.{ServerJobInfoIo, construct, init_instructions}
use oac_tree_server.JobInfo.ValueSets.{
  initial_value_set, instruction_value_set, initialize_job_and_variables, initialize_instructions,
}
use oac_tree_server.JobInfo.Registers.{distinct}
use oac_tree_server.JobInfo.Names.{in_indexed}
use oac_tree_server.JobInfo.InitialNames.{
  initial_values, initial_value_set_lem, initial-distinct, initial_misses, initial-IsIndexOf,
  initial_has, IsInitial, instructions_lem, instruction-IsIndexed,
}
use oac_tree_server.JobInfo.JobValues.{
  IsJobValue, instructions, instructions-distinct, instructions_new, has_instruction,
}
use oac_tree_server.JobInfo.RequestName.{request_name, value_name-ne-request_name}
use oac_tree_server.IndexGenerator as IndexGenerator
use oac_tree_server.Epics.Queue.Loop.{start_server}
use oac_tree_server.Epics.InputServer as InputServer
use oac_tree_server.Epics.Manager.{
  EpicsAnyValueManager, init, added, with_input_server, add_input_handler, find_server,
  find_input_server, launch,
}
use oac_tree_server.Epics.Manager.Adding.{Addable, add_any_values-Addable}
use oac_tree_server.Epics.Manager.Interface.{epics_manager}

-- The server that has a value of the job.
abbrev pub home : ValueNameType → ℕ
home instruction = 2
home _ = 0

module _ (d : Dto) (c : Codec d) (o : OacTree d) (u : UserInput d)
    (wait : EpicsAnyValueManager d c u
      → Bytes
      → ℕ
      → EpicsAnyValueManager d c u × (Bool × UserInputReply d)) where
  open d use {AnyValue}

  abbrev Manager : Type 0
  Manager = EpicsAnyValueManager d c u

  abbrev pub JobServer : Type 0
  JobServer = ServerJobInfoIo d o (epics_manager d c u wait)

  unfoldable pub serve : Bytes → ℕ → ℕ → Result JobServer
  serve p n k = construct d o (epics_manager d c u wait) p n (init d c u) >>= λ s.
      init_instructions d o (epics_manager d c u wait) s k

  module _ (laws : DtoLaws d) (p : Bytes) (ne : p ≢ []) (n k : ℕ) (hn : n < 2 ^ 32)
      (hk : k < 2 ^ 32) where
    abbrev pub initials : List (Bytes × AnyValue)
    initials = initial_values d o p ne n

    abbrev pub request : List (Bytes × AnyValue)
    request = (request_name p, input_request_any_value d) ∷ []

    -- The managers behind the three calls that add values.
    abbrev with_initials : Manager
    with_initials = added d c u (init d c u) initials

    abbrev with_input : Manager
    with_input = with_input_server d c u with_initials (input_server_name p)

    abbrev with_request : Manager
    with_request = added d c u with_input request

    abbrev pub with_instructions : Manager
    with_instructions = added d c u with_request (instructions d o p ne k)

    initials-Addable : Addable d c u (init d c u) initials
    unfolding init lookup
    initials-Addable = (initial-distinct d o p ne n (omega (arith, hn)), λ x h. refl)

    found_initials :
        (x : Bytes)
        → find_server d c u with_initials x ≡ (if has_name x initials then some 0 else none)
    unfolding init find_server lookup
    found_initials x = (add_any_values-Addable d c u (init d c u) initials initials-Addable).1.1 x

    request_new : has_name (request_name p) initials ≡ false
    request_new =
        initial_misses d o p ne n (request_name p) (λ t i h.
          value_name-ne-request_name p t i (initial-IsIndexOf n t i (omega (arith, hn)) h))

    request-Addable : Addable d c u with_input request
    unfolding with_input_server find_server distinct has_name
    request-Addable = (
      refl,
      λ x h.
          subst (λ y. find_server d c u with_initials y ≡ none) (bytes_eq→eq _ _ (ground arith))
            (found_initials (request_name p) ∙ simp request_new refl),
    )

    pub found_request :
        (x : Bytes)
        → find_server d c u with_request x
          ≡ (if has_name x request then some 1 else (if has_name x initials then some 0 else none))
    unfolding init with_input_server added find_server
    found_request x =
        (add_any_values-Addable d c u with_input request request-Addable).1.1 x
        ∙ ap (λ r. if has_name x request then some 1 else r) (found_initials x)

    pub no_request : (x : Bytes) → x ≢ request_name p → has_name x request ≡ false
    unfolding has_name
    no_request x h = rw (bytes_ne (request_name p) x (λ e. h (sym e))) refl

    pub instruction_no_request :
        (x : Bytes) → has_name x (instructions d o p ne k) ≡ true → x ≢ request_name p
    instruction_no_request x h e =
        let (j, a, b, f) = in_indexed p ne instruction o.instruction_state_any_value 0 k x h in
        value_name-ne-request_name p instruction j (instruction-IsIndexed j (omega (arith, b, hk)))
          (f ∙ e)

    instructions-Addable : Addable d c u with_request (instructions d o p ne k)
    unfolding find_server
    instructions-Addable = (
      instructions-distinct d o p ne k hk,
      λ x h.
          found_request x
          ∙ simp
              (no_request x (instruction_no_request x h), instructions_new d o p ne n k x hn hk h)
              refl,
    )

    pub found_instructions :
        (x : Bytes)
        → find_server d c u with_instructions x ≡ (
            if has_name x (instructions d o p ne k)
            then some 2
            else find_server d c u with_request x)
    unfolding init with_input_server added
    found_instructions x = (add_any_values-Addable d c u with_request _ instructions-Addable).1.1 x

    -- The object behind the constructor.
    abbrev constructed : JobServer
    constructed = record {
      job_prefix = p;
      n_vars = n;
      manager = with_request;
      log_idx_gen = IndexGenerator.init;
      msg_idx_gen = IndexGenerator.init;
      out_val_idx_gen = IndexGenerator.init;
    }

    abbrev pub served : JobServer
    served = record constructed { manager = with_instructions }

    add_input_handler_lem :
        add_input_handler d c u with_initials (input_server_name p) ≡ (with_request, true)
    unfolding add_input_handler added init lookup
    add_input_handler_lem = (add_any_values-Addable d c u with_input request request-Addable).0

    construct_lem : construct d o (epics_manager d c u wait) p n (init d c u) ≡ ok constructed
    unfolding construct initialize_job_and_variables
    construct_lem =
        simp
          (
            initial_value_set_lem d o p ne n laws,
            (add_any_values-Addable d c u (init d c u) initials initials-Addable).0,
            add_input_handler_lem,
          )
          refl

    pub serve_lem : serve p n k ≡ ok served
    unfolding serve init_instructions initialize_instructions instruction_value_set
    serve_lem =
        simp
          (
            construct_lem,
            instructions_lem d o p ne 0 k,
            (add_any_values-Addable d c u with_request _ instructions-Addable).0,
          )
          refl
