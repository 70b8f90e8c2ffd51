-- ===== src/Epics/IoClient/Requests.antt =====
-- epics/epics_io_client.cpp: what a client does with the value in which a server puts its questions.
use oac_tree_server.Base.{
  ℕ, ◌≡◌, ◌≢◌, refl, ◌∙◌, true, false, [], ◌∷◌, Bytes, some, Result, ok, throws, ◌>>=◌, ◌==◌,
  bytes_eq_refl, arith,
}
use oac_tree_server.External.Scalars.{FitsUint32, FitsUint64}
use oac_tree_server.External.Dto.{Dto, DtoLaws}
use oac_tree_server.External.Codec.{Codec, CodecLaws}
use oac_tree_server.External.UserInput.{UserInput, UserInputRequest}
use oac_tree_server.Protocol.Base64.{base64_decode-encode}
use oac_tree_server.Protocol.Names.{input_request_name}
use oac_tree_server.Input.Codec.{encode_input_request, input_request_any_value}
use oac_tree_server.Input.Codec.RoundTrip.{decode-encode_request, decode_input_request_any_value}
use oac_tree_server.JobInfo.{AnyValueManager}
use oac_tree_server.Epics.IoClient.{
  EpicsIoClient, InputHandler, request_pv, call_back, call_pvs, receive, handle_user_input,
  ask_user, interrupt_handler,
}
use oac_tree_server.Epics.IoClient.Monitors.{pvs_of, call_pvs-pvs_of, shows}

module _ (d : Dto) (laws : DtoLaws d) (c : Codec d) (codec_laws : CodecLaws d c) (u : UserInput d)
    {M : Type 0} (m : AnyValueManager d M) where
  open d use {AnyValue}

  abbrev Client : Type 0
  Client = EpicsIoClient d c u m

  -- The client listens for the questions of the server, and has a handler for them.
  pub record Listens (s : Client) (server_name : Bytes) (h : InputHandler d c u m) : Type 0 where
    pub handler : s.input_handler ≡ some h
    pub server : h.server_name ≡ server_name
    pub one_pv :
        pvs_of d c codec_laws u m (input_request_name server_name) s.client_pvs
        ≡ request_pv d c u m server_name ∷ []

  same : {A : Type 0} (q : Result A) → (q >>= λ t. ok t) ≡ q
  same (ok t) = refl
  same (throws e) = refl

  -- A value of the channel of questions is handled as user input once it is decoded.
  received_request :
      (s : Client) (server_name : Bytes) (h : InputHandler d c u m) (v w : AnyValue)
      → Listens s server_name h
      → c.encode v ≡ some w
      → receive d c u m s (input_request_name server_name) (shows d c codec_laws u m w)
        ≡ handle_user_input d c u m s server_name v
  unfolding receive call_pvs call_back
  received_request s n h v w l e =
      call_pvs-pvs_of d c codec_laws u m s s.client_pvs (input_request_name n)
        (shows d c codec_laws u m w)
      ∙ rw
          (
            l.one_pv,
            bytes_eq_refl (input_request_name n),
            call_back,
            base64_decode-encode d c v w codec_laws e,
          )
          (same (handle_user_input d c u m s n v))

  -- A question is put to the user, and the reply is queued for the server.
  pub question-asked :
      (s : Client) (server_name : Bytes) (h : InputHandler d c u m) (id : ℕ)
      (request : UserInputRequest d) (w : AnyValue)
      → Listens s server_name h
      → FitsUint64 id
      → FitsUint32 request.request_type
      → request.request_type ≢ u.invalid_type
      → c.encode (encode_input_request d id request) ≡ some w
      → receive d c u m s (input_request_name server_name) (shows d c codec_laws u m w)
        ≡ ask_user d c u m s h server_name id request
  unfolding handle_user_input
  question-asked s n h id request w l hi ht ne e =
      let b : (request.request_type == u.invalid_type) ≡ false = ground arith in
      received_request s n h _ w l e
      ∙ rw (handle_user_input, decode-encode_request d laws id request hi ht, l.handler, b) refl

  -- The value between two questions interrupts what is left of the last one.
  pub no_question-interrupts :
      (s : Client) (server_name : Bytes) (h : InputHandler d c u m) (w : AnyValue)
      → Listens s server_name h
      → u.invalid_type ≡ 0
      → c.encode (input_request_any_value d) ≡ some w
      → receive d c u m s (input_request_name server_name) (shows d c codec_laws u m w)
        ≡ interrupt_handler d c u m s h
  unfolding handle_user_input
  no_question-interrupts s n h w l z e =
      let (q, f, t) = decode_input_request_any_value d laws in
      let b : (q.1.request_type == u.invalid_type) ≡ true = ground arith in
      received_request s n h _ w l e ∙ rw (handle_user_input, f, l.handler, b) refl
