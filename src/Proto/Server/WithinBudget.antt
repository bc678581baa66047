-- ===== src/Proto/Server/WithinBudget.antt =====
-- pkg/proto/protocol.go: the handlers of frames and the accounts of the replay cache.
use simple_go_server.Common.{
  ℕ, ◌+◌, ◌≤◌, String, ◌≡◌, refl, inl, inr, Bool, true, false, not, ◌&&◌, List, [], ◌∷◌, arith,
  if◌then◌else◌, ◌==◌, nat_eq, string_eq, Bool-cases, Option-cases, length, All,
}
use simple_go_server.Common.Dict.{lookup, or_empty}
use simple_go_server.Common.Int.{pos}
use simple_go_server.Proto.{
  Frame, request, response, subscribe, unsubscribe, ping, pong, close, hello,
}
use simple_go_server.Proto.Server.{Handler, new, default_cache_budget}
use simple_go_server.Proto.Server.Sessions.{touch_session, reap_expired_sessions, enter_topic}
use simple_go_server.Proto.Server.Handling.{
  reply, closed, hung_up, nothing, empty_hello, has_token, Outside, HelloRequest, topic_of,
  handle_subscribe, welcomed, handle_hello, dispatch, handle_read, Output,
}
use simple_go_server.Proto.Server.Cache.{topic_cache_size}
use simple_go_server.Proto.Server.Cache.Totals.{total}
use simple_go_server.Proto.Server.Accounts.{
  Sound, reap_all-Sound, publish_to-Sound, cache-touch_session, cache-record_topic,
  cache-attach_session, exit_topic-Sound,
}
use simple_go_server.Proto.Server.History.{Event, arrives, publishes, sweeps, step, run, HasName}

module _ (o : Outside) where
  cache-welcomed :
      (h : Handler) (conn : ℕ) (frame : Frame) (req : HelloRequest) (now : ℕ) (minted : String)
      → (welcomed o h conn frame req now minted).0.cache ≡ h.cache
  unfolding welcomed
  cache-welcomed h conn frame req now minted =
      ground (arith, cache-attach_session h conn req.resume req.cursors now minted)

  cache-handle_hello :
      (h : Handler) (conn : ℕ) (frame : Frame) (now : ℕ) (minted : String)
      → (handle_hello o h conn frame now minted).0.cache ≡ h.cache
  unfolding handle_hello
  cache-handle_hello h conn frame now minted = elim (Option-cases (lookup conn h.conn_tokens)) [
    | inr (token, e) ↦ rw (e, handle_hello) refl
    | inl e ↦ elim (Option-cases (o.unmarshal frame.payload)) [
      | inl m ↦ rw (e, handle_hello, m) refl
      | inr (msg, m) ↦ elim (Bool-cases (length msg.content == 0)) [
        | inl bare ↦
            rw (e, handle_hello, m, bare) (cache-welcomed h conn frame (empty_hello o) now minted)
        | inr full ↦ elim (Option-cases (o.unmarshal_hello msg.content)) [
          | inl bad ↦ rw (e, handle_hello, m, full, bad) refl
          | inr (req, q) ↦
              rw (e, handle_hello, m, full, q) (cache-welcomed h conn frame req now minted)
        ]
      ]
    ]
  ]

  handle_subscribe-Sound :
      (h : Handler) (conn : ℕ) (frame : Frame) (entering : Bool) (now : ℕ)
      → Sound h
      → Sound (handle_subscribe o h conn frame entering now).0
  unfolding handle_subscribe enter_topic
  handle_subscribe-Sound h conn frame entering now s = elim (Option-cases (topic_of o frame)) [
    | inl e ↦ rw (e, handle_subscribe) s
    | inr (topic, e) ↦ elim (Bool-cases entering) [
      | inl enters ↦ rw (e, handle_subscribe, enters) (rw cache-record_topic s)
      | inr leaves ↦ rw (e, handle_subscribe, leaves) (exit_topic-Sound h conn topic now s)
    ]
  ]

  dispatch-Sound :
      (h : Handler) (conn : ℕ) (frame : Frame) (now : ℕ) (minted : String)
      → Sound h
      → Sound (dispatch o h conn frame now minted).0
  unfolding dispatch
  dispatch-Sound h conn frame now minted s = elim (Bool-cases (frame.header.frame_type == hello)) [
    | inl a ↦ rw (a, dispatch) (rw (cache-handle_hello h conn frame now minted) s)
    | inr a ↦ elim (Bool-cases (frame.header.frame_type == request)) [
      | inl b ↦ rw (a, b, dispatch) s
      | inr b ↦ elim (Bool-cases (frame.header.frame_type == subscribe)) [
        | inl c ↦ rw (a, b, c, dispatch) (handle_subscribe-Sound h conn frame true now s)
        | inr c ↦ elim (Bool-cases (frame.header.frame_type == unsubscribe)) [
          | inl d ↦ rw (a, b, c, d, dispatch) (handle_subscribe-Sound h conn frame false now s)
          | inr d ↦
              rw (a, b, c, d, dispatch)
                (counted (frame.header.frame_type == ping) (frame.header.frame_type == pong)
                  (frame.header.frame_type == close))
        ]
      ]
    ]
  ]
    where
      counted :
          (p q r : Bool)
          → let result : Handler × List Output =
              if p
              then (
                record h { pings = h.pings + 1 },
                reply pong frame.header.stream_id "pong" nothing ∷ [],
              )
              else if q
              then (record h { pongs = h.pongs + 1 }, [])
              else if r
              then (h, reply response frame.header.stream_id "bye" nothing ∷ hung_up ∷ [])
              else (h, closed ∷ []) in
            Sound result.0
      counted true q r = s
      counted false true r = s
      counted false false true = s
      counted false false false = s

  handle_read-Sound :
      (h : Handler) (conn : ℕ) (frame : Frame) (now : ℕ) (minted : String)
      → Sound h
      → Sound (handle_read o h conn frame now minted).0
  unfolding handle_read
  handle_read-Sound h conn frame now minted s =
      let h' = touch_session h conn now in
      let s' : Sound h' = rw (cache-touch_session h conn now) s in
      let strict =
        h'.require_hello
        && not (frame.header.frame_type == hello)
        && not (has_token o (lookup conn h'.conn_tokens)) in
      elim (Bool-cases strict) [
        | inl refused ↦ rw (refused, handle_read) s'
        | inr passes ↦ rw (passes, handle_read) (dispatch-Sound h' conn frame now minted s')
      ]

step-Sound : (o : Outside) (h : Handler) (e : Event) → HasName e → Sound h → Sound (step o h e)
unfolding step reap_expired_sessions
step-Sound o h (arrives conn frame now minted) n s = handle_read-Sound o h conn frame now minted s
step-Sound o h (publishes topic body writes) n s =
    publish_to-Sound o.must_json writes h topic body n s
step-Sound o h (sweeps now) n s = reap_all-Sound h h.sessions now s

run-Sound :
    (o : Outside) (h : Handler) (events : List Event)
    → All HasName events
    → Sound h
    → Sound (run o h events)
unfolding run
run-Sound o h [] n s = s
run-Sound o h (e ∷ events) (n, ns) s = run-Sound o (step o h e) events ns (step-Sound o h e n s)

new-Sound : Sound new
unfolding new total lookup
new-Sound = (
  record { one_each = tt; named = tt; short = λ topic. omega arith; budget = refl; bytes = refl },
  omega arith,
)

-- Over any history of frames, publishes to topics with a name, and sweeps, from a new handler: the
-- counter of the replay cache says what it holds, which is within the default budget, and no topic
-- has more than 64 publishes there.
pub cache_within_budget :
    (o : Outside) (events : List Event)
    → All HasName events
    → let c = (run o new events).cache in
      (c.cache_bytes ≡ pos (total c.topic_cache))
      × (total c.topic_cache ≤ default_cache_budget)
      × ((topic : String) → length (or_empty (lookup topic c.topic_cache)) ≤ topic_cache_size)
cache_within_budget o events n =
    let (a, w) = run-Sound o new events n new-Sound in (a.bytes, w, a.short)
