-- ===== src/Epics/IoClient/Answer.antt =====
-- epics/epics_io_client.cpp, base/client_reply_delegator.cpp and base/input_request_server.cpp: a question that is put to a
-- client is answered to the thread that waits on the server.
use oac_tree_server.Base.{ℕ, ◌≡◌, ◌≢◌, refl, ap, ◌∙◌, true, [], Bytes, some, Result, ok, arith}
use oac_tree_server.External.Scalars.{FitsUint32, FitsUint64}
use oac_tree_server.External.Dto.{Dto, DtoLaws}
use oac_tree_server.External.Codec.{Codec, CodecLaws}
use oac_tree_server.External.Rpc.{Rpc, RpcLaws}
use oac_tree_server.External.UserInput.{UserInput, UserInputLaws, UserInputRequest, UserInputReply}
use oac_tree_server.Protocol.Base64.{base64_encode}
use oac_tree_server.Protocol.Names.{input_request_name}
use oac_tree_server.Input.Codec.{encode_input_request, encode_input_reply, reply_payload}
use oac_tree_server.Input.Delegator.{
  ReplyInfo, ClientReplyDelegator, waiting, calling, queue_reply, work, take_front,
}
use oac_tree_server.Input.RequestServer as RequestServer
use oac_tree_server.Input.RequestServer.{
  InputRequestServer, init_new_request, reply_ready, take_reply, wait_for_reply,
}
use oac_tree_server.Input.Remote.{invoke_input, send_reply}
use oac_tree_server.Input.Remote.Accepts.{send_reply-accepts}
use oac_tree_server.JobInfo.{AnyValueManager}
use oac_tree_server.Epics.IoClient.{
  EpicsIoClient, InputHandler, receive, ask_user, work_handler, set_client_reply,
}
use oac_tree_server.Epics.IoClient.Monitors.{shows}
use oac_tree_server.Epics.IoClient.Requests.{Listens, question-asked}

module _ (d : Dto) (laws : DtoLaws d) (c : Codec d) (codec_laws : CodecLaws d c) (u : UserInput d)
    (input_laws : UserInputLaws d u) (r : Rpc d) (rpc : RpcLaws d r) {M : Type 0}
    (m : AnyValueManager d M) where
  open d use {AnyValue}

  -- A new request takes a valid reply to it, and gives it to the thread that waits.
  taken :
      (q : InputRequestServer d u) (id : ℕ) (reply : UserInputReply d)
      → id ≢ 0
      → reply.request_type ≢ u.invalid_type
      → let (t, accepted) =
          RequestServer.set_client_reply d u (init_new_request d u q id) id reply in
        (accepted ≡ true) × (wait_for_reply d u t id ≡ some (true, reply))
  unfolding RequestServer.set_client_reply init_new_request wait_for_reply
  taken q id reply ne valid = ground (arith, input_laws.invalid_reply-type)

  sent :
      (q : InputRequestServer d u) (id : ℕ) (reply : UserInputReply d) (w : AnyValue)
      → FitsUint64 id
      → FitsUint32 reply.request_type
      → c.encode (reply_payload d id reply) ≡ some w
      → send_reply d c u r (invoke_input d c u r) q id reply
        ≡ ok (RequestServer.set_client_reply d u q id reply)
  unfolding encode_input_reply base64_encode
  sent q id reply w hi ht e =
      send_reply-accepts d laws c codec_laws u r rpc q id reply hi ht
      ∙ rw (encode_input_reply, base64_encode, e) refl

  -- The delegator that waits takes the reply that is queued.
  calls :
      (s : ClientReplyDelegator d) (i : ReplyInfo d)
      → s.worker ≡ waiting
      → s.reply_queue ≡ []
      → (work d (queue_reply d s i) (queue_reply d s i).worker).worker ≡ calling i
  unfolding work queue_reply take_front
  calls s i w q = rw (w, q) refl

  -- A client that listens to a server, with a delegator that waits for replies, receives the question that a thread of the server
  -- asks, and its manager replies to it. Then the delegator sends exactly this reply under the index of the question, the remote
  -- call succeeds, and the thread on the server gets the reply.
  pub question-answered :
      (s : EpicsIoClient d c u m) (n : Bytes) (h : InputHandler d c u m) (id : ℕ)
      (request : UserInputRequest d) (reply : UserInputReply d) (t : M) (w v : AnyValue)
      (q : InputRequestServer d u)
      (invoke : Bytes → InputRequestServer d u → AnyValue → Result (InputRequestServer d u × ℕ))
      → Listens d laws c codec_laws u m s n h
      → h.delegator.worker ≡ waiting
      → h.delegator.reply_queue ≡ []
      → id ≢ 0
      → FitsUint64 id
      → FitsUint32 request.request_type
      → request.request_type ≢ u.invalid_type
      → FitsUint32 reply.request_type
      → reply.request_type ≢ u.invalid_type
      → c.encode (encode_input_request d id request) ≡ some w
      → c.encode (reply_payload d id reply) ≡ some v
      → m.get_user_input s.av_mgr n id request ≡ ok (t, reply)
      → invoke n ≡ invoke_input d c u r
      → (s' : EpicsIoClient d c u m) × (h' : InputHandler d c u m) × (q' : InputRequestServer d u)
        × (receive d c u m s (input_request_name n) (shows d c codec_laws u m w) ≡ ok s')
        × (s'.av_mgr ≡ t)
        × ((work_handler d c u m s').input_handler ≡ some h')
        × (h'.delegator.worker ≡ calling (record { id = id; reply = reply }))
        × (set_client_reply d c u r invoke h'.server_name (init_new_request d u q id) id reply
            ≡ ok (q', true))
        × (wait_for_reply d u q' id ≡ some (true, reply))
  unfolding ask_user work_handler set_client_reply
  question-answered s n h id request reply t w v q invoke l waits empty ne hi hq vq hr vr e f a
        net =
      let i : ReplyInfo d = record { id = id; reply = reply } in
      let queued = queue_reply d h.delegator i in
      let asked : EpicsIoClient d c u m = record s {
        av_mgr = t;
        input_handler = some (record h { delegator = queued });
      } in
      let (accepted, waited) = taken q id reply ne vr in
      (
        asked,
        record h { delegator = work d queued queued.worker },
        (RequestServer.set_client_reply d u (init_new_request d u q id) id reply).0,
        question-asked d laws c codec_laws u m s n h id request w l hi hq vq e
            ∙ rw (ask_user, a) refl,
        refl,
        refl,
        calls h.delegator i waits empty,
        rw (l.server, net)
            (sent (init_new_request d u q id) id reply v hi hr f
              ∙ ap
                  (λ b. ok (
                    (RequestServer.set_client_reply d u (init_new_request d u q id) id reply).0,
                    b,
                  ))
                  accepted),
        waited,
      )
