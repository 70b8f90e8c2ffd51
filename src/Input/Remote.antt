-- ===== src/Input/Remote.antt =====
-- base/input_protocol_server.cpp and base/input_protocol_client.cpp: the remote call that sends a reply.
pub mod Accepts
use oac_tree_server.Base.{
  ℕ, Bool, true, false, not, List, [], ◌∷◌, Option, none, some, Bytes, Result, ok, ◌>>=◌, ◌⊎◌, inl,
  inr, ◌==◌, if◌then◌else◌,
}
use oac_tree_server.External.Dto.{Dto}
use oac_tree_server.External.UserInput.{UserInput, UserInputReply}
use oac_tree_server.External.Codec.{Codec}
use oac_tree_server.External.Rpc.{Rpc, packed}
use oac_tree_server.Protocol.Fields.{
  input_request_server_type, input_request_server_version, set_reply_function,
  user_reply_value_field,
}
use oac_tree_server.Protocol.Results.{not_supported, client_reply_refused}
use oac_tree_server.Input.Codec.{encode_input_reply, decode_input_reply}
use oac_tree_server.Input.RequestServer.{InputRequestServer, set_client_reply}

module _ (d : Dto) (c : Codec d) (u : UserInput d) (r : Rpc d) where
  open d use {AnyValue}

  abbrev pub reply_result : InputRequestServer d u × Bool → InputRequestServer d u × ℕ
  reply_result (s, result) = (s, if not result then client_reply_refused d r else r.success)

  -- The server behind the decoding of the reply.
  abbrev pub serve_decoded :
      InputRequestServer d u → Option (ℕ × UserInputReply d) → Result (InputRequestServer d u × ℕ)
  serve_decoded s none = ok (s, r.decoding_error)
  serve_decoded s (some (id, user_reply)) = ok (reply_result (set_client_reply d u s id user_reply))

  abbrev pub serve_extracted :
      InputRequestServer d u → Option AnyValue → Result (InputRequestServer d u × ℕ)
  serve_extracted s none = ok (s, r.decoding_error)
  serve_extracted s (some user_reply_av) = decode_input_reply d c user_reply_av >>= serve_decoded s

  -- `InputProtocolServer::SetClientReply`; the output is not changed.
  unfoldable pub serve_reply :
      InputRequestServer d u → AnyValue → Result (InputRequestServer d u × ℕ)
  serve_reply s input = serve_extracted s (r.extract input user_reply_value_field)

  abbrev pub function_names : List Bytes
  function_names = set_reply_function ∷ []

  abbrev pub call :
      InputRequestServer d u → AnyValue → Bytes ⊎ ℕ → Result (InputRequestServer d u × ℕ)
  call s input (inr code) = ok (s, code)
  call s input (inl name) = serve_reply s input

  unfoldable pub invoke_input :
      InputRequestServer d u → AnyValue → Result (InputRequestServer d u × ℕ)
  invoke_input s input = call s input (r.called_function input function_names (not_supported d r))

  -- `Service`: questions for the protocol itself.
  unfoldable pub service : AnyValue → AnyValue → ℕ × AnyValue
  service input output =
      if r.is_application_protocol_request_payload input
      then r.handle_application_protocol_info output input_request_server_type
          input_request_server_version
      else (not_supported d r, output)

  abbrev pub sent_members : AnyValue → List (Bytes × AnyValue)
  sent_members encoded = (user_reply_value_field, encoded) ∷ []

  -- `InputProtocolClient::SetClientReply` over the `Invoke` of a protocol with the state `S` behind it.
  unfoldable pub send_reply :
      {S : Type 0} → (S → AnyValue → Result (S × ℕ)) → S → ℕ → UserInputReply d → Result (S × Bool)
  send_reply invoke s id reply = do
    encoded ← encode_input_reply d c id reply
    (t, result) ← invoke s (packed d r (r.function_input set_reply_function) (sent_members encoded))
    ok (t, if not (result == r.success) then false else true)
