-- ===== src/Jobs/InfoServer.antt =====
-- base/info_protocol_server.cpp: `Invoke` and the functions behind it. The result and the output value are returned.
use oac_tree_server.Base.{
  ℕ, List, [], ◌∷◌, Option, none, some, Bytes, bytes_eq, Result, ok, ◌>>=◌, inl, inr, ◌⊎◌,
  if◌then◌else◌,
}
use oac_tree_server.External.Scalars.{of_uint64, of_string}
use oac_tree_server.External.Dto.{Dto}
use oac_tree_server.External.Rpc.{Rpc}
use oac_tree_server.Protocol.Fields.{
  info_server_type, info_server_version, get_server_prefix_function, get_number_of_jobs_function,
  get_job_info_function, server_prefix_field, number_of_jobs_field, job_info_field,
}
use oac_tree_server.Protocol.Results.{
  Extracted, extracted, refused, not_supported, extract_job_index,
}
use oac_tree_server.Jobs.{JobManager}

module _ (d : Dto) (r : Rpc d) {M : Type 0} (manager : JobManager d r M) where
  open d use {AnyValue, scalar, empty_value}

  -- `TryAssignIfEmptyOrConvert(output, temp_out)` and the result.
  abbrev pub assign_output : AnyValue → Option AnyValue → ℕ × AnyValue
  assign_output output none = (r.encoding_error, output)
  assign_output output (some v) = (r.success, v)

  unfoldable pub reply_with : AnyValue → Bytes → AnyValue → ℕ × AnyValue
  reply_with output name value =
      assign_output output (r.try_assign_if_empty_or_convert output (r.pack empty_value name value))

  unfoldable pub serve_prefix : M → AnyValue → AnyValue → Result (ℕ × AnyValue)
  unfolding reply_with
  serve_prefix m input output = do
    server_prefix ← manager.get_server_prefix m
    ok (reply_with output server_prefix_field (scalar (of_string server_prefix)))

  unfoldable pub serve_number : M → AnyValue → AnyValue → Result (ℕ × AnyValue)
  unfolding reply_with
  serve_number m input output = do
    n ← manager.get_number_of_jobs m
    ok (reply_with output number_of_jobs_field (scalar (of_uint64 n)))

  abbrev pub info_of : M → AnyValue → Extracted ℕ → Result (ℕ × AnyValue)
  info_of m output (refused code) = ok (code, output)
  info_of m output (extracted idx) = manager.get_job_info m idx >>= λ job_info.
      ok (reply_with output job_info_field (r.job_info_to_any_value job_info))

  unfoldable pub serve_info : M → AnyValue → AnyValue → Result (ℕ × AnyValue)
  serve_info m input output = do
    n ← manager.get_number_of_jobs m
    info_of m output (extract_job_index d r input n)

  abbrev pub function_names : List Bytes
  function_names =
      get_server_prefix_function ∷ get_number_of_jobs_function ∷ get_job_info_function ∷ []

  abbrev pub call : M → AnyValue → AnyValue → Bytes ⊎ ℕ → Result (ℕ × AnyValue)
  call m input output (inr code) = ok (code, output)
  call m input output (inl name) =
      if bytes_eq name get_server_prefix_function
      then serve_prefix m input output
      else if bytes_eq name get_number_of_jobs_function
      then serve_number m input output
      else serve_info m input output

  unfoldable pub invoke_info : M → AnyValue → AnyValue → Result (ℕ × AnyValue)
  invoke_info m input output =
      call m input output (r.called_function input function_names (not_supported d r))

  -- `Service`: questions for the protocol itself.
  unfoldable pub service : AnyValue → AnyValue → ℕ × AnyValue
  service input output =
      if r.is_application_protocol_request_payload input
      then r.handle_application_protocol_info output info_server_type info_server_version
      else (not_supported d r, output)
