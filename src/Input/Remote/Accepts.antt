-- ===== src/Input/Remote/Accepts.antt =====
-- base/input_protocol_client.cpp over base/input_protocol_server.cpp: the client learns whether its reply counts.
use oac_tree_server.Base.{
  ℕ, ◌≡◌, refl, ap, ◌∙◌, Bool, true, false, not, Option, none, some, Result, ok, ◌>>=◌, arith, ◌==◌,
  if◌then◌else◌, lookup, bytes_eq,
}
use oac_tree_server.External.Scalars.{valid_members, FitsUint32, FitsUint64}
use oac_tree_server.External.Dto.{Dto, DtoLaws}
use oac_tree_server.External.UserInput.{UserInput, UserInputReply}
use oac_tree_server.External.Codec.{Codec, CodecLaws}
use oac_tree_server.External.Rpc.{Rpc, RpcLaws, packed}
use oac_tree_server.Protocol.Fields.{set_reply_function, user_reply_value_field}
use oac_tree_server.Protocol.Results.{client_reply_refused}
use oac_tree_server.Protocol.Base64.{base64_encode, base64_decode, encoded_or_throw}
use oac_tree_server.Input.Codec.{encode_input_reply, decode_input_reply, reply_payload}
use oac_tree_server.Input.Codec.RoundTrip.{decode-reply_payload}
use oac_tree_server.Input.RequestServer.{InputRequestServer, set_client_reply}
use oac_tree_server.Input.Remote.{
  reply_result, serve_decoded, serve_reply, function_names, invoke_input, sent_members, send_reply,
}

module _ (d : Dto) (laws : DtoLaws d) (c : Codec d) (codec_laws : CodecLaws d c) (u : UserInput d)
    (r : Rpc d) (rpc : RpcLaws d r) where
  open d use {AnyValue}

  sent_valid : (w : AnyValue) → valid_members (sent_members d c u r w) ≡ true
  unfolding valid_members
  sent_valid w = refl

  abbrev sent : AnyValue → AnyValue
  sent w = packed d r (r.function_input set_reply_function) (sent_members d c u r w)

  invoked :
      (s : InputRequestServer d u) (w : AnyValue)
      → invoke_input d c u r s (sent w) ≡ (decode_input_reply d c w >>= serve_decoded d c u r s)
  unfolding invoke_input serve_reply lookup bytes_eq
  invoked s w =
      rw
        (
          invoke_input,
          rpc.called-input set_reply_function (sent_members d c u r w) (function_names d c u r) 0 _
              (sent_valid w) (rpc.reserved-fields.1.1.1.1.0, tt) refl,
          serve_reply,
          rpc.extract-input set_reply_function (sent_members d c u r w) user_reply_value_field w
              (sent_valid w) (rpc.reserved-fields.1.1.1.1.0, tt) refl,
        )
        refl

  decoded :
      (w : AnyValue) (id : ℕ) (reply : UserInputReply d)
      → FitsUint64 id
      → FitsUint32 reply.request_type
      → c.encode (reply_payload d id reply) ≡ some w
      → decode_input_reply d c w ≡ ok (some (id, reply))
  unfolding decode_input_reply base64_decode
  decoded w id reply hi ht e =
      rw (decode_input_reply, base64_decode, codec_laws.decode-encode _ w e)
        (decode-reply_payload d laws id reply hi ht)

  -- The code of the server says whether the reply was accepted.
  code_tells :
      (b : Bool)
      → (if not ((if not b then client_reply_refused d r else r.success) == r.success)
          then false
          else true)
        ≡ b
  code_tells true = ground arith
  code_tells false = ground (arith, rpc.success-lt, rpc.generic-le)

  -- A reply in range that a client sends reaches the request server unchanged, and the client learns whether it was accepted; if
  -- the reply cannot be encoded, the exception of the encoder is thrown, and the server is not called.
  pub send_reply-accepts :
      (s : InputRequestServer d u) (id : ℕ) (reply : UserInputReply d)
      → FitsUint64 id
      → FitsUint32 reply.request_type
      → send_reply d c u r (invoke_input d c u r) s id reply
        ≡ (encode_input_reply d c id reply >>= λ w. ok (set_client_reply d u s id reply))
  unfolding send_reply encode_input_reply base64_encode
  send_reply-accepts s id reply hi ht = by_codec (c.encode (reply_payload d id reply)) refl
    where
      tell : InputRequestServer d u × ℕ → Result (InputRequestServer d u × Bool)
      tell (t, result) = ok (t, if not (result == r.success) then false else true)

      told : (q : InputRequestServer d u × Bool) → tell (reply_result d c u r q) ≡ ok q
      told (t, b) = ap (λ x. ok (t, x)) (code_tells b)

      by_codec :
          (o : Option AnyValue)
          → c.encode (reply_payload d id reply) ≡ o
          → (encoded_or_throw d c o >>= λ w. (invoke_input d c u r s (sent w) >>= tell))
            ≡ (encoded_or_throw d c o >>= λ w. ok (set_client_reply d u s id reply))
      by_codec none e = refl
      by_codec (some w) e =
          ap (λ q. q >>= tell)
            (invoked s w ∙ ap (λ q. q >>= serve_decoded d c u r s) (decoded w id reply hi ht e))
          ∙ told (set_client_reply d u s id reply)
