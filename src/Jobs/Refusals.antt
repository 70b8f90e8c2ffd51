-- ===== src/Jobs/Refusals.antt =====
-- base/control_protocol_server.cpp: a remote call that fails leaves the jobs alone.
use oac_tree_server.Base.{
  ℕ, ◌≡◌, ◌⊎◌, inl, inr, refl, subst, Bool, true, false, Option, none, some, Bytes, Result, ok,
  throws, ◌>>=◌, bytes_eq, if◌then◌else◌, OnOk, OnOk-bind, OnOk-all,
}
use oac_tree_server.External.Dto.{Dto}
use oac_tree_server.External.Rpc.{Rpc}
use oac_tree_server.Protocol.Fields.{edit_breakpoint_function, breakpoint_active_field}
use oac_tree_server.Protocol.Results.{Extracted, extracted, refused, not_supported}
use oac_tree_server.Jobs.{JobManager}
use oac_tree_server.Jobs.ControlServer.{
  extract_job_command, edit_active, edit_instruction, edit_job, serve_edit, send_command,
  send_to_job, serve_command, function_names, call, invoke_control,
}

module _ (d : Dto) (r : Rpc d) {M : Type 0} (manager : JobManager d r M) where
  open d use {AnyValue}

  abbrev SucceedsOrKeeps : M → M × ℕ → Type 0
  SucceedsOrKeeps m (t, code) = (code ≡ r.success) ⊎ (t ≡ m)

  done : (m : M) (q : Result M) → OnOk (SucceedsOrKeeps m) (q >>= λ t. ok (t, r.success))
  done m (ok t) = inl refl
  done m (throws e) = tt

  active_keeps :
      (m : M) (i j : ℕ) (o : Option Bool)
      → OnOk (SucceedsOrKeeps m) (edit_active d r manager m i j o)
  active_keeps m i j none = inr refl
  active_keeps m i j (some b) = done m (manager.edit_breakpoint m i j b)

  instruction_keeps :
      (m : M) (i : ℕ) (input : AnyValue) (x : Extracted ℕ)
      → OnOk (SucceedsOrKeeps m) (edit_instruction d r manager m i input x)
  instruction_keeps m i input (refused code) = inr refl
  instruction_keeps m i input (extracted j) =
      active_keeps m i j (r.extract_bool input breakpoint_active_field)

  edit_keeps :
      (m : M) (input : AnyValue) (x : Extracted ℕ)
      → OnOk (SucceedsOrKeeps m) (edit_job d r manager m input x)
  edit_keeps m input (refused code) = inr refl
  edit_keeps m input (extracted i) =
      OnOk-bind (λ x. Unit {0}) (SucceedsOrKeeps m) (manager.get_job_info m i) _
        (OnOk-all _ _ (λ x. tt)) (λ info _. instruction_keeps m i input _)

  command_keeps :
      (m : M) (i : ℕ) (x : Extracted ℕ) → OnOk (SucceedsOrKeeps m) (send_command d r manager m i x)
  command_keeps m i (refused code) = inr refl
  command_keeps m i (extracted c) = done m (manager.send_job_command m i c)

  send_keeps :
      (m : M) (input : AnyValue) (x : Extracted ℕ)
      → OnOk (SucceedsOrKeeps m) (send_to_job d r manager m input x)
  send_keeps m input (refused code) = inr refl
  send_keeps m input (extracted i) = command_keeps m i (extract_job_command d r manager input)

  serve_keeps :
      (m : M) (input : AnyValue)
      → OnOk (SucceedsOrKeeps m) (serve_edit d r manager m input)
        × OnOk (SucceedsOrKeeps m) (serve_command d r manager m input)
  unfolding serve_edit serve_command
  serve_keeps m input = (
    OnOk-bind (λ x. Unit {0}) (SucceedsOrKeeps m) (manager.get_number_of_jobs m) _
        (OnOk-all _ _ (λ x. tt)) (λ n _. edit_keeps m input _),
    OnOk-bind (λ x. Unit {0}) (SucceedsOrKeeps m) (manager.get_number_of_jobs m) _
        (OnOk-all _ _ (λ x. tt)) (λ n _. send_keeps m input _),
  )

  call_keeps :
      (m : M) (input : AnyValue) (f : Bytes ⊎ ℕ)
      → OnOk (SucceedsOrKeeps m) (call d r manager m input f)
  call_keeps m input (inr code) = inr refl
  call_keeps m input (inl name) = by_name (bytes_eq name edit_breakpoint_function)
    where
      by_name :
          (b : Bool)
          → OnOk
              (SucceedsOrKeeps m)
              (if b then serve_edit d r manager m input else serve_command d r manager m input)
      by_name true = (serve_keeps m input).0
      by_name false = (serve_keeps m input).1

  -- Whatever value a client sends, a remote call on jobs that does not throw either succeeds or leaves the state of all jobs as it was.
  pub invoke_control_cases :
      (m t : M) (input : AnyValue) (code : ℕ)
      → invoke_control d r manager m input ≡ ok (t, code)
      → (code ≡ r.success) ⊎ (t ≡ m)
  unfolding invoke_control
  invoke_control_cases m t input code e = subst (OnOk (SucceedsOrKeeps m)) e (
      call_keeps m input (r.called_function input (function_names d r manager) (not_supported d r)))
