-- ===== src/Proto/Server/Accounts.antt =====
-- pkg/proto/protocol.go: the accounts of the replay cache under the operations on the state.
use simple_go_server.Common.{
  ℕ, ◌+◌, ◌≤◌, String, ◌≡◌, refl, ◌≢◌, inl, inr, Bool, false, not, ◌&&◌, Option, none, some, List,
  [], ◌∷◌, arith, ◌==◌, nat_eq, string_eq, Bool-cases, Option-cases, length, length-append,
}
use simple_go_server.Common.Dict.{Dict, lookup, or_empty, delete, remove}
use simple_go_server.Proto.{Frame, publish, Result, ok, err, stuck, max_frame_size, header_size}
use simple_go_server.Proto.Codec.{encode, new_frame, encode_header, put_uint32}
use simple_go_server.Proto.Server.{
  Handler, Session, drop_topic_cache, leave, remove_subscriber, records_topic, default_cache_budget,
}
use simple_go_server.Proto.Server.Sessions.{
  touch_session, attach_session, resume_session, fresh_session, leave_topics, reap, reap_all,
  record_topic, exit_topic, leave_members, expired,
}
use simple_go_server.Proto.Server.Publishing.{deliver, send, publish_to, numbered, next_sequence}
use simple_go_server.Proto.Server.Cache.{ReplayCache, remember_publish}
use simple_go_server.Proto.Server.Cache.Totals.{total}
use simple_go_server.Proto.Server.Cache.Budget.{
  IsAccounted, remember_publish-IsAccounted, forget_topic-IsAccounted,
}

-- The counter of the cache says what it holds, which is within the default budget, and no topic
-- has more publishes than the limit.
abbrev pub Within : ReplayCache → Type 0
Within c = IsAccounted default_cache_budget c × (total c.topic_cache ≤ default_cache_budget)

abbrev pub Sound : Handler → Type 0
Sound h = Within h.cache

pub drop_topic_cache-Sound :
    (h : Handler) (topic : String) → Sound h → Sound (drop_topic_cache h topic)
unfolding drop_topic_cache
drop_topic_cache-Sound h topic (a, w) =
    elim (Bool-cases (length (or_empty (lookup topic h.subs)) == 0)) [
      | inr live ↦ rw live (a, w)
      | inl quiet ↦ elim (Bool-cases (records_topic h.sessions topic)) [
        | inl recorded ↦ rw (quiet, recorded) (a, w)
        | inr free ↦
            rw (quiet, free)
              (forget_topic-IsAccounted default_cache_budget h.cache topic a w (omega arith))
      ]
    ]

leave_topics-Sound :
    (h : Handler) (topics : List String) (conn : ℕ) → Sound h → Sound (leave_topics h topics conn)
unfolding leave_topics
leave_topics-Sound h [] conn s = s
leave_topics-Sound h (topic ∷ topics) conn s =
    leave_topics-Sound (drop_topic_cache (record h { subs = leave h.subs topic conn }) topic) topics
      conn (drop_topic_cache-Sound (record h { subs = leave h.subs topic conn }) topic s)

pub reap_all-Sound :
    (h : Handler) (sessions : Dict String Session) (now : ℕ)
    → Sound h
    → Sound (reap_all h sessions now)
unfolding reap_all reap
reap_all-Sound h [] now s = s
reap_all-Sound h ((token, x) ∷ sessions) now s = elim (Bool-cases (expired h x now)) [
  | inr live ↦ rw (live, reap_all) (reap_all-Sound h sessions now s)
  | inl old ↦
      rw (old, reap_all)
        (reap_all-Sound (reap h token x) sessions now (leave_topics-Sound _ x.topics x.conn s))
]

deliver-Sound :
    (writes : ℕ → Bool) (h : Handler) (topic : String) (members : List ℕ) (count : ℕ)
    → Sound h
    → Sound (deliver writes h topic members count).0
unfolding deliver remove_subscriber
deliver-Sound writes h topic [] count s = s
deliver-Sound writes h topic (conn ∷ members) count s = elim (Bool-cases (writes conn)) [
  | inl good ↦ rw (good, deliver) (deliver-Sound writes h topic members (count + 1) s)
  | inr bad ↦
      rw (bad, deliver)
        (deliver-Sound writes (remove_subscriber h topic conn) topic members count
          (drop_topic_cache-Sound (record h { subs = leave h.subs topic conn }) topic s))
]

length-encode :
    (f : Frame) (buf : List ℕ) → encode f ≡ ok buf → length buf ≤ header_size + max_frame_size
unfolding encode encode_header put_uint32
length-encode f buf e = ground (arith, length-append (encode_header f.header) f.payload)

remember-Sound :
    (c : ReplayCache) (topic : String) (seq : ℕ) (f : Frame) (buf : List ℕ)
    → topic ≢ ""
    → encode f ≡ ok buf
    → Within c
    → Within (remember_publish c topic seq buf)
remember-Sound c topic seq f buf n e (a, w) =
    let (a', w', _) =
      remember_publish-IsAccounted default_cache_budget c topic seq buf a w n
        (omega (arith, length-encode f buf e)) in
    (a', w')

send-Sound :
    (must_json : String → List ℕ → List ℕ) (writes : ℕ → Bool) (h : Handler) (topic : String)
    (body members : List ℕ)
    → topic ≢ ""
    → Sound h
    → Sound (send must_json writes h topic body members).0
unfolding send numbered
send-Sound must_json writes h topic body members n s = go (encode f) refl
  where
    f : Frame
    f = new_frame publish (next_sequence h topic) (must_json topic body)

    go : (r : Result (List ℕ)) → encode f ≡ r → Sound (send must_json writes h topic body members).0
    go (err e) q = rw (q, send) s
    go stuck q = rw (q, send) s
    go (ok buf) q =
        rw (q, send)
          (deliver-Sound writes _ topic members 0
            (remember-Sound h.cache topic (next_sequence h topic) f buf n q s))

pub publish_to-Sound :
    (must_json : String → List ℕ → List ℕ) (writes : ℕ → Bool) (h : Handler) (topic : String)
    (body : Option (List ℕ))
    → topic ≢ ""
    → Sound h
    → Sound (publish_to must_json writes h topic body).0
unfolding publish_to
publish_to-Sound must_json writes h topic none n s = s
publish_to-Sound must_json writes h topic (some body) n s =
    elim (Bool-cases
      (length (or_empty (lookup topic h.subs)) == 0 && not (records_topic h.sessions topic))) [
        | inl nobody ↦ rw (nobody, publish_to) s
        | inr wanted ↦
            rw (wanted, publish_to)
              (send-Sound must_json writes h topic body (or_empty (lookup topic h.subs)) n s)
      ]

pub cache-touch_session : (h : Handler) (conn now : ℕ) → (touch_session h conn now).cache ≡ h.cache
unfolding touch_session
cache-touch_session h conn now = ground arith

pub cache-record_topic :
    (h : Handler) (conn : ℕ) (topic : String) (entering : Bool) (now : ℕ)
    → (record_topic h conn topic entering now).cache ≡ h.cache
unfolding record_topic
cache-record_topic h conn topic entering now = ground arith

pub cache-attach_session :
    (h : Handler) (conn : ℕ) (token : String) (cursors : Dict String ℕ) (now : ℕ) (minted : String)
    → (attach_session h conn token cursors now minted).handler.cache ≡ h.cache
unfolding attach_session resume_session fresh_session
cache-attach_session h conn token cursors now minted = ground arith

leave_members-Sound :
    (h : Handler) (conn : ℕ) (topic : String) → Sound h → Sound (leave_members h conn topic)
unfolding leave_members
leave_members-Sound h conn topic s = elim (Option-cases (lookup topic h.subs)) [
  | inl e ↦ rw (e, leave_members) s
  | inr (members, e) ↦ elim (Bool-cases (length (remove conn members) == 0)) [
    | inl last ↦
        rw (e, leave_members, last)
          (drop_topic_cache-Sound (record h { subs = delete topic h.subs }) topic s)
    | inr more ↦ rw (e, leave_members, more) s
  ]
]

pub exit_topic-Sound :
    (h : Handler) (conn : ℕ) (topic : String) (now : ℕ)
    → Sound h
    → Sound (exit_topic h conn topic now)
unfolding exit_topic
exit_topic-Sound h conn topic now s =
    let h' = leave_members h conn topic in
    drop_topic_cache-Sound (record_topic h' conn topic false now) topic
      (rw (cache-record_topic h' conn topic false now) (leave_members-Sound h conn topic s))
