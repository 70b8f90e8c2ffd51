-- ===== src/Epics/IoClient/Forwarded.antt =====
-- epics/epics_io_client.cpp over epics/epics_server.cpp: from the updates of a server to the manager of a client. The
-- transport shows a client each published value once and in order.
use oac_tree_server.Base.{
  ◌≡◌, refl, sym, ap, ◌∙◌, Bool, true, false, ◌&&◌, List, [], ◌∷◌, ◌++◌, Bytes, Option, none, some,
  ok, ◌>>=◌, if◌then◌else◌, >>=-congr, >>=-assoc,
}
use oac_tree_server.External.Scalars.{has_name, is_some}
use oac_tree_server.External.Dto.{Dto}
use oac_tree_server.External.Codec.{Codec, CodecLaws}
use oac_tree_server.External.UserInput.{UserInput}
use oac_tree_server.Protocol.Base64.{base64_encode, encoded_or_throw}
use oac_tree_server.JobInfo.{AnyValueManager}
use oac_tree_server.JobInfo.Updates.{update_all}
use oac_tree_server.Epics.Queue.Loop.{
  EpicsServer, update_loop_round, Event, updates, destroys, rounds, run,
}
use oac_tree_server.Epics.Queue.Publish.{before_exit, pushed, encoded_command, published-run}
use oac_tree_server.Epics.IoClient.{ExtendedValue, construct, add_any_values, receive_all}
use oac_tree_server.Epics.IoClient.Monitors.{monitoring, constructed, shows, received}

module _ (d : Dto) (c : Codec d) (codec_laws : CodecLaws d c) (u : UserInput d) {M : Type 0}
    (m : AnyValueManager d M) where
  open d use {AnyValue}

  -- The updates of monitored values that a server is told in front of its destruction, and can encode.
  pub given : List (Bytes × AnyValue) → List (Event d c) → List (Bytes × AnyValue)
  given vs [] = []
  given vs (updates name value ∷ es) =
      if has_name name vs && is_some (c.encode value)
      then (name, value) ∷ given vs es
      else given vs es
  given vs (destroys ∷ es) = []
  given vs (rounds ∷ es) = given vs es

  abbrev pub shown : List (Bytes × AnyValue) → List (Bytes × ExtendedValue d c u m)
  shown [] = []
  shown ((name, w) ∷ rest) = (name, shows d c codec_laws u m w) ∷ shown rest

  abbrev Forwards :
      List (Bytes × AnyValue) → List (Bytes × AnyValue) → List (Bytes × AnyValue) → Type 0
  Forwards vs published told =
      (t : M)
      → receive_all d c u m (monitoring d c codec_laws u m vs t) (shown published)
        ≡ (update_all d m t told >>= λ q. ok (monitoring d c codec_laws u m vs q))

  forward_update :
      (vs published told : List (Bytes × AnyValue)) (name : Bytes) (v w : AnyValue)
      → c.encode v ≡ some w
      → Forwards vs published told
      → Forwards vs ((name, w) ∷ published) (if has_name name vs then (name, v) ∷ told else told)
  unfolding receive_all update_all
  forward_update vs published told name v w e h t =
      ap (λ q. q >>= λ s. receive_all d c u m s (shown published))
        (received d c codec_laws u m vs t name v w e)
      ∙ by_name (has_name name vs)
    where
      by_name :
          (b : Bool)
          → ((if b
                then (m.update_any_value t name v >>= λ r.
                    ok (monitoring d c codec_laws u m vs r.0))
                else ok (monitoring d c codec_laws u m vs t))
              >>= λ s. receive_all d c u m s (shown published))
            ≡ (update_all d m t (if b then (name, v) ∷ told else told) >>= λ q.
                ok (monitoring d c codec_laws u m vs q))
      by_name true =
          >>=-assoc (m.update_any_value t name v) _ _
          ∙ >>=-congr (m.update_any_value t name v) _ _ (λ r. h r.0)
          ∙ sym (>>=-assoc (m.update_any_value t name v) _ _)
      by_name false = h t

  forward_events :
      (vs : List (Bytes × AnyValue)) (es : List (Event d c))
      → Forwards vs (before_exit d c (pushed d c es)) (given vs es)
  unfolding before_exit pushed given receive_all update_all base64_encode
  forward_events vs [] t = refl
  forward_events vs (destroys ∷ es) t = refl
  forward_events vs (rounds ∷ es) t = forward_events vs es t
  forward_events vs (updates name value ∷ es) t =
      by_encoding (c.encode value) refl (forward_events vs es) (has_name name vs) refl
    where
      by_encoding :
          (o : Option AnyValue)
          → c.encode value ≡ o
          → Forwards vs (before_exit d c (pushed d c es)) (given vs es)
          → (b : Bool) → has_name name vs ≡ b
          → receive_all d c u m (monitoring d c codec_laws u m vs t) (
              shown (
                before_exit d c
                  (encoded_command d c name (encoded_or_throw d c o) ++ pushed d c es)))
            ≡ (update_all d m t
                  (if b && is_some o then (name, value) ∷ given vs es else given vs es)
                >>= λ q. ok (monitoring d c codec_laws u m vs q))
      by_encoding none e h true n = h t
      by_encoding none e h false n = h t
      by_encoding (some w) e h true n = rw n at (forward_update vs _ _ name value w e h t)
      by_encoding (some w) e h false n = rw n at (forward_update vs _ _ name value w e h t)

  -- A client monitors values that its manager has accepted. When the server of the values has published what it was told by any
  -- events, the manager has been told exactly the updates of these values in front of the server's destruction that can be encoded,
  -- each once, in order, as they were before the encoding; and where it throws at one of them, so does the client.
  pub published-forwarded :
      (vs : List (Bytes × AnyValue)) (av_mgr t : M) (s : EpicsServer d c) (es : List (Event d c))
      → m.add_any_values av_mgr vs ≡ ok (t, true)
      → s.update_queue ≡ []
      → s.published ≡ []
      → s.exited ≡ false
      → (add_any_values d c u m (construct d c u m av_mgr) vs >>= λ client.
          receive_all d c u m client.0 (shown (update_loop_round d c (run d c s es)).published))
        ≡ (update_all d m t (given vs es) >>= λ q. ok (monitoring d c codec_laws u m vs q))
  published-forwarded vs av_mgr t s es added q p e =
      rw (constructed d c codec_laws u m vs av_mgr t added, (published-run d c s es q p e).0)
        (forward_events vs es t)
