-- ===== src/Epics/IoClient/Monitors.antt =====
-- epics/epics_io_client.cpp over epics/epics_server.cpp: the values that a server publishes reach the manager of the client.
use oac_tree_server.Base.{
  ◌≡◌, refl, ap, ◌∙◌, Bool, true, false, not, ◌&&◌, List, [], ◌∷◌, ◌++◌, Bytes, none, some, ok,
  ◌>>=◌, if◌then◌else◌, bytes_eq, bytes_eq_refl, >>=-congr, >>=-assoc, bytes_eq_iff, arith,
  Bool-cases, inl, inr, map,
}
use oac_tree_server.External.Scalars.{has_name}
use oac_tree_server.External.Dto.{Dto}
use oac_tree_server.External.Codec.{Codec, CodecLaws}
use oac_tree_server.External.UserInput.{UserInput}
use oac_tree_server.Protocol.Base64.{base64_decode-encode}
use oac_tree_server.JobInfo.{AnyValueManager}
use oac_tree_server.Epics.Manager.{contains, insert_name, add_names, get_names}
use oac_tree_server.Epics.Manager.Adding.{contains-append, contains-get_names}
use oac_tree_server.Epics.IoClient.{
  ExtendedValue, ClientPv, EpicsIoClient, construct, monitor_pv, add_any_values, update_value,
  call_back, call_pvs, receive,
}

-- No name is twice in the list.
once : List Bytes → Bool
once [] = true
once (k ∷ ns) = not (contains k ns) && once ns

once-append :
    (ns : List Bytes) (k : Bytes)
    → once ns ≡ true
    → contains k ns ≡ false
    → once (ns ++ k ∷ []) ≡ true
unfolding once contains
once-append [] k h e = refl
once-append (n ∷ ns) k h e =
    ground (arith, once-append ns k, contains-append n k ns, bytes_eq_iff n k, bytes_eq_iff k n)

module _ {V : Type 0} where
  once-add_names :
      (ns : List Bytes) (vs : List (Bytes × V)) → once ns ≡ true → once (add_names ns vs) ≡ true
  unfolding add_names insert_name
  once-add_names ns [] h = h
  once-add_names ns ((k, v) ∷ vs) h = elim (Bool-cases (contains k ns)) [
    | inl e ↦ rw e (once-add_names ns vs h)
    | inr e ↦ rw e (once-add_names (ns ++ k ∷ []) vs (once-append ns k h e))
  ]

  once-get_names : (vs : List (Bytes × V)) → once (get_names vs) ≡ true
  unfolding get_names once
  once-get_names vs = once-add_names [] vs refl

module _ (d : Dto) (c : Codec d) (codec_laws : CodecLaws d c) (u : UserInput d) {M : Type 0}
    (m : AnyValueManager d M) where
  open d use {AnyValue}

  abbrev Client : Type 0
  Client = EpicsIoClient d c u m

  -- The client PVs of a channel.
  unfoldable pub pvs_of : Bytes → List (ClientPv d c u m) → List (ClientPv d c u m)
  pvs_of channel [] = []
  pvs_of channel (pv ∷ pvs) =
      if bytes_eq pv.channel channel then pv ∷ pvs_of channel pvs else pvs_of channel pvs

  pub pvs_of-append :
      (k : Bytes) (xs ys : List (ClientPv d c u m))
      → pvs_of k (xs ++ ys) ≡ pvs_of k xs ++ pvs_of k ys
  unfolding pvs_of
  pvs_of-append k [] ys = refl
  pvs_of-append k (x ∷ xs) ys = ground (arith, pvs_of-append k xs ys)

  no_pvs :
      (k : Bytes) (ns : List Bytes)
      → contains k ns ≡ false
      → pvs_of k (map (monitor_pv d c u m) ns) ≡ []
  unfolding pvs_of contains
  no_pvs k [] h = refl
  no_pvs k (n ∷ ns) h = ground (arith, no_pvs k ns)

  one_pv :
      (k : Bytes) (ns : List Bytes)
      → once ns ≡ true
      → pvs_of k (map (monitor_pv d c u m) ns)
        ≡ (if contains k ns then monitor_pv d c u m k ∷ [] else [])
  unfolding pvs_of contains once
  one_pv k [] h = refl
  one_pv k (n ∷ ns) h = ground (arith, bytes_eq_iff n k, one_pv k ns, no_pvs k ns)

  -- Each name of the set has one client PV.
  pub pvs_of-monitors :
      (k : Bytes) (vs : List (Bytes × AnyValue))
      → pvs_of k (map (monitor_pv d c u m) (get_names vs))
        ≡ (if has_name k vs then monitor_pv d c u m k ∷ [] else [])
  pvs_of-monitors k vs =
      one_pv k (get_names vs) (once-get_names vs)
      ∙ ap (λ b. if b then monitor_pv d c u m k ∷ [] else []) (contains-get_names k vs)

  -- Only the client PVs of the channel matter.
  pub call_pvs-pvs_of :
      (s : Client) (pvs : List (ClientPv d c u m)) (k : Bytes) (e : ExtendedValue d c u m)
      → call_pvs d c u m s pvs k e ≡ call_pvs d c u m s (pvs_of k pvs) k e
  unfolding call_pvs pvs_of
  call_pvs-pvs_of s [] k e = refl
  call_pvs-pvs_of s (pv ∷ pvs) k e = elim (Bool-cases (bytes_eq pv.channel k)) [
    | inl h ↦
        rw (h, call_pvs, h)
          (>>=-congr (call_back d c u m s pv.callback e) _ _ (λ t. call_pvs-pvs_of t pvs k e))
    | inr h ↦ rw h (call_pvs-pvs_of s pvs k e)
  ]

  -- What a client holds that was constructed over `av_mgr` and monitors the names of the set.
  abbrev pub monitoring : List (Bytes × AnyValue) → M → Client
  monitoring vs av_mgr = record {
    av_mgr = av_mgr;
    input_handler = none;
    client_pvs = map (monitor_pv d c u m) (get_names vs);
  }

  pub constructed :
      (vs : List (Bytes × AnyValue)) (av_mgr t : M)
      → m.add_any_values av_mgr vs ≡ ok (t, true)
      → add_any_values d c u m (construct d c u m av_mgr) vs ≡ ok (monitoring vs t, true)
  unfolding add_any_values construct
  constructed vs av_mgr t e = rw e refl

  abbrev pub shows : AnyValue → ExtendedValue d c u m
  shows w = record { connected = true; value = w }

  -- An encoded value of a channel is given to the manager if the channel is monitored.
  pub received :
      (vs : List (Bytes × AnyValue)) (t : M) (k : Bytes) (v w : AnyValue)
      → c.encode v ≡ some w
      → receive d c u m (monitoring vs t) k (shows w) ≡ (
          if has_name k vs
          then (m.update_any_value t k v >>= λ r. ok (monitoring vs r.0))
          else ok (monitoring vs t))
  unfolding receive call_pvs call_back update_value
  received vs t k v w e =
      call_pvs-pvs_of (monitoring vs t) (monitoring vs t).client_pvs k (shows w)
      ∙ rw (pvs_of-monitors k vs) (by_name (has_name k vs))
    where
      by_name :
          (b : Bool)
          → call_pvs d c u m
              (monitoring vs t)
              (if b then monitor_pv d c u m k ∷ [] else [])
              k
              (shows w)
            ≡ (if b
                then (m.update_any_value t k v >>= λ r. ok (monitoring vs r.0))
                else ok (monitoring vs t))
      by_name true =
          rw (bytes_eq_refl k, call_back, base64_decode-encode d c v w codec_laws e)
            (>>=-assoc (m.update_any_value t k v) _ _)
      by_name false = refl
