-- ===== src/Proto/Server/Tests.antt =====
-- The server's publish and subscribe on small inputs.
use simple_go_server.Common.{
  ℕ, ◌≤◌, ◌<◌, String, ◌≡◌, refl, ◌≢◌, true, false, not, ◌&&◌, ◌||◌, none, some, List, [], ◌∷◌,
  ◌++◌, arith, if◌then◌else◌, ◌==◌, nat_eq, string_eq, length, get_elem?,
}
use simple_go_server.Common.Dict.{Dict, lookup, insert, or_empty, or_zero, elem}
use simple_go_server.Common.Int.{pos}
use simple_go_server.Proto.{Frame, subscribe}
use simple_go_server.Proto.Codec.{encode, new_frame}
use simple_go_server.Proto.Server.{Handler, Session, new, default_cache_budget}
use simple_go_server.Proto.Server.Sessions.{attach_session, expired}
use simple_go_server.Proto.Server.Publishing.{publish_to, send, deliver, delivered}
use simple_go_server.Proto.Server.Handling.{Outside, value}
use simple_go_server.Proto.Server.Cache.{
  CachedPublish, ReplayCache, remember_publish, last_publishes, frame_bytes, topic_cache_size,
}
use simple_go_server.Proto.Server.Cache.Totals.{total}
use simple_go_server.Proto.Server.Cache.Budget.{IsAccounted, Evicts, remember_publish-IsAccounted}
use simple_go_server.Proto.Server.History.{Event, arrives, publishes, sweeps, run}
use simple_go_server.Proto.Server.WithinBudget.{cache_within_budget}
use simple_go_server.Proto.Server.Resuming.{is_member, moved, Has, attach_session_resumes}
use simple_go_server.Proto.Server.Delivery.{count_writes, publish_reaches_members}

abbrev greeting : List ℕ
greeting = 104 ∷ 101 ∷ 108 ∷ 108 ∷ 111 ∷ []

abbrev topic_t : String
topic_t = "t"

has_name : topic_t ≢ ""
has_name p = let e = (string_eq.beq_iff topic_t "").1 p in cc e

-- Every payload is a message for the topic "t", every hello offers version 1.
abbrev outside : Outside
outside = record {
  unmarshal = λ payload. some (record { action = "t"; content = payload });
  unmarshal_hello = λ content. some (record { versions = pos 1 ∷ []; resume = ""; cursors = [] });
  must_json = λ topic body. body;
  handle_request = λ action content. value (some content);
}

abbrev subscribe_frame : Frame
subscribe_frame = record {
  header = record { frame_type = subscribe; flags = 0; stream_id = 1; length = pos 5 };
  payload = greeting;
}

abbrev events : List Event
events =
    arrives 1 subscribe_frame 10 "token"
    ∷ publishes "t" (some greeting) (λ conn. true)
    ∷ publishes "t" (some greeting) (λ conn. false)
    ∷ sweeps 700000000000
    ∷ []

cache_within_budget_example :
    let c = (run outside new events).cache in
    (c.cache_bytes ≡ pos (total c.topic_cache))
    × (total c.topic_cache ≤ default_cache_budget)
    × ((topic : String) → length (or_empty (lookup topic c.topic_cache)) ≤ topic_cache_size)
cache_within_budget_example =
    cache_within_budget outside events (tt, (has_name, (has_name, (tt, tt))))

-- Five bytes of another topic, with a budget of eight.
abbrev one_topic : Dict String (List CachedPublish)
one_topic = ("a", record { seq = 1; buf = greeting } ∷ []) ∷ []

abbrev small_cache : ReplayCache
small_cache = record { topic_cache = one_topic; cache_bytes = pos 5; cache_budget = pos 8 }

small_cache-IsAccounted : IsAccounted 8 small_cache
unfolding lookup total frame_bytes
small_cache-IsAccounted = record {
  one_each = (tt, tt);
  named = tt;
  short = λ topic. ground arith;
  budget = refl;
  bytes = refl;
}

total-one_topic : total one_topic ≡ 5
unfolding total frame_bytes
total-one_topic = refl

remember_publish-IsAccounted_example :
    IsAccounted 8 (remember_publish small_cache "t" 1 greeting)
    × (total (remember_publish small_cache "t" 1 greeting).topic_cache ≤ 8)
    × Evicts 8
        (insert "t"
          (last_publishes
            (or_empty (lookup "t" one_topic) ++ (record { seq = 1; buf = greeting } ∷ [])))
          one_topic)
        (remember_publish small_cache "t" 1 greeting).topic_cache
remember_publish-IsAccounted_example =
    remember_publish-IsAccounted 8 small_cache "t" 1 greeting small_cache-IsAccounted
      (omega (arith, total-one_topic)) has_name (omega arith)

-- A session that records "t", on connection 1, and another subscriber of "t" on connection 2.
abbrev old_session : Session
old_session = record { conn = 1; topics = "t" ∷ []; last_seen = 10 }

abbrev two_members : Handler
two_members = record new {
  subs = ("t", 1 ∷ 2 ∷ []) ∷ [];
  sessions = ("t", old_session) ∷ [];
  conn_tokens = (1, "t") ∷ [];
}

known : lookup "t" two_members.sessions ≡ some old_session
unfolding lookup
known = refl

live : expired two_members old_session 20 ≡ false
unfolding expired new
live = refl

attach_session_resumes_example :
    let a = attach_session two_members 3 "t" [] 20 "fresh" in
    ((x : String) (j : ℕ)
      → is_member a.handler.subs x j ≡ (
          if elem x ("t" ∷ [])
          then moved 1 3 j (is_member two_members.subs x j)
          else is_member two_members.subs x j))
    × (lookup "t" a.handler.sessions ≡ some (record old_session { conn = 3; last_seen = 20 }))
    × (lookup 3 a.handler.conn_tokens ≡ some "t")
    × (old_session.conn ≢ 3 → lookup 1 a.handler.conn_tokens ≡ none)
    × ((topic : String) (k : ℕ) (c : CachedPublish)
        → elem topic ("t" ∷ []) ≡ true
        → get_elem? (or_empty (lookup topic two_members.cache.topic_cache)) k ≡ some c
        → or_zero (lookup topic []) < c.seq
        → Has a.replay c.buf)
attach_session_resumes_example =
    attach_session_resumes two_members 3 "t" [] 20 "fresh" old_session has_name known live

published :
    (publish_to (λ topic body. body) (λ conn. conn == 1) two_members "t" (some greeting)).1
    ≡ delivered 1
unfolding publish_to send encode deliver lookup new_frame
published = refl

publish_reaches_members_example :
    (1 ≡ count_writes (λ conn. conn == 1) (or_empty (lookup "t" two_members.subs)))
    × ((x : String) (j : ℕ)
        → is_member
            (publish_to
              (λ topic body. body)
              (λ conn. conn == 1)
              two_members
              "t"
              (some greeting)).0.subs
            x
            j
          ≡ (is_member two_members.subs x j && (not ("t" == x) || (j == 1))))
publish_reaches_members_example =
    publish_reaches_members (λ topic body. body) (λ conn. conn == 1) two_members "t" (some greeting)
      1 published
