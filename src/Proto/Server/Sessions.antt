-- ===== src/Proto/Server/Sessions.antt =====
-- Sessions: touchSession, attachSession, collectReplay, reapExpiredSessions and the change of a
-- subscription. The order in which Go visits a map is that of the list.
use simple_go_server.Common.{
  ℕ, ◌-◌, String, Bool, true, false, none, some, List, [], ◌∷◌, ◌++◌, ltb, if◌then◌else◌, ◌==◌,
  nat_eq, string_eq, length,
}
use simple_go_server.Common.Dict.{Dict, lookup, insert, delete, or_empty, or_zero, add, remove}
use simple_go_server.Proto.Server.{Handler, Session, drop_topic_cache, leave}
use simple_go_server.Proto.Server.Cache.{CachedPublish}

unfoldable pub expired : Handler → Session → ℕ → Bool
expired h s now = ltb h.session_ttl (now - s.last_seen)

unfoldable pub touch_session : Handler → ℕ → ℕ → Handler
touch_session h conn now = elim (lookup conn h.conn_tokens) [
  | none ↦ h
  | some token ↦ elim (lookup token h.sessions) [
    | none ↦ h
    | some s ↦ record h { sessions = insert token (record s { last_seen = now }) h.sessions }
  ]
]

-- The frames of one topic that a cursor has not reached.
unfoldable pub newer : ℕ → List CachedPublish → List (List ℕ)
newer cursor [] = []
newer cursor (c ∷ cache) =
    if ltb cursor c.seq then c.buf ∷ newer cursor cache else newer cursor cache

unfoldable pub collect_replay :
    Dict String (List CachedPublish) → List String → Dict String ℕ → List (List ℕ)
collect_replay topic_cache [] cursors = []
collect_replay topic_cache (topic ∷ topics) cursors =
    newer (or_zero (lookup topic cursors)) (or_empty (lookup topic topic_cache))
    ++ collect_replay topic_cache topics cursors

-- The recorded topics move from the dead connection to the new one.
unfoldable pub move_topics : Dict String (List ℕ) → List String → ℕ → ℕ → Dict String (List ℕ)
move_topics subs [] dead conn = subs
move_topics subs (topic ∷ topics) dead conn =
    move_topics (insert topic (add conn (remove dead (or_empty (lookup topic subs)))) subs) topics
      dead conn

unfoldable pub resume_session : Handler → Session → String → ℕ → ℕ → Handler
resume_session h s token conn now = record h {
  subs = move_topics h.subs s.topics s.conn conn;
  sessions = insert token (record s { conn = conn; last_seen = now }) h.sessions;
  conn_tokens = insert conn token (delete s.conn h.conn_tokens);
}

unfoldable pub fresh_session : Handler → String → ℕ → ℕ → Handler
fresh_session h token conn now = record h {
  sessions = insert token (record { conn = conn; topics = []; last_seen = now }) h.sessions;
  conn_tokens = insert conn token h.conn_tokens;
}

pub record Attached : Type 0 where
  pub handler : Handler
  pub token : String
  pub resumed : Bool
  pub replay : List (List ℕ)

-- `attachSession`. `minted` is what `newSessionToken` answers.
unfoldable pub attach_session : Handler → ℕ → String → Dict String ℕ → ℕ → String → Attached
attach_session h conn token cursors now minted =
    let fresh : Attached = record {
      handler = fresh_session h minted conn now;
      token = minted;
      resumed = false;
      replay = [];
    } in
    if token == "" then fresh else elim (lookup token h.sessions) [
      | none ↦ fresh
      | some s ↦ if expired h s now then fresh else record {
        handler = resume_session h s token conn now;
        token = token;
        resumed = true;
        replay = collect_replay h.cache.topic_cache s.topics cursors;
      }
    ]

-- The loop of `reapExpiredSessions` over the topics of one session.
unfoldable pub leave_topics : Handler → List String → ℕ → Handler
leave_topics h [] conn = h
leave_topics h (topic ∷ topics) conn =
    leave_topics (drop_topic_cache (record h { subs = leave h.subs topic conn }) topic) topics conn

unfoldable pub reap : Handler → String → Session → Handler
reap h token s =
    leave_topics
      (record h { sessions = delete token h.sessions; conn_tokens = delete s.conn h.conn_tokens })
      s.topics s.conn

unfoldable pub reap_all : Handler → Dict String Session → ℕ → Handler
reap_all h [] now = h
reap_all h ((token, s) ∷ sessions) now =
    reap_all (if expired h s now then reap h token s else h) sessions now

unfoldable pub reap_expired_sessions : Handler → ℕ → Handler
reap_expired_sessions h now = reap_all h h.sessions now

-- What `handleSubscribe` records in the connection's session.
unfoldable pub record_topic : Handler → ℕ → String → Bool → ℕ → Handler
record_topic h conn topic subscribe now = elim (lookup conn h.conn_tokens) [
  | none ↦ h
  | some token ↦ elim (lookup token h.sessions) [
    | none ↦ h
    | some s ↦
        let topics = if subscribe then add topic s.topics else remove topic s.topics in
        record h {
          sessions = insert token (record s { topics = topics; last_seen = now }) h.sessions;
        }
  ]
]

-- `handleSubscribe` under the mutex.
unfoldable pub enter_topic : Handler → ℕ → String → ℕ → Handler
enter_topic h conn topic now =
    record_topic
      (record h { subs = insert topic (add conn (or_empty (lookup topic h.subs))) h.subs }) conn
      topic true now

unfoldable pub leave_members : Handler → ℕ → String → Handler
leave_members h conn topic = elim (lookup topic h.subs) [
  | none ↦ h
  | some members ↦
      let left = remove conn members in
      if length left == 0
      then drop_topic_cache (record h { subs = delete topic h.subs }) topic
      else record h { subs = insert topic left h.subs }
]

unfoldable pub exit_topic : Handler → ℕ → String → ℕ → Handler
exit_topic h conn topic now =
    drop_topic_cache (record_topic (leave_members h conn topic) conn topic false now) topic
