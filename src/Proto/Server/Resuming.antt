-- ===== src/Proto/Server/Resuming.antt =====
-- pkg/proto/protocol.go: attachSession with the token of a session, and its replay.
use simple_go_server.Common.{
  ℕ, zero, suc, ◌<◌, String, ◌≡◌, refl, ◌∙◌, ◌≢◌, inl, inr, Bool, true, false, none, some, List, [],
  ◌∷◌, ◌++◌, arith, ltb, if◌then◌else◌, ◌==◌, nat_eq, string_eq, beq_refl, Bool-cases, get_elem?,
}
use simple_go_server.Common.Dict.{
  Dict, or_zero, lookup, insert, or_empty, elem, add, remove, elem-add, elem-remove, lookup-insert,
  delete, lookup-delete,
}
use simple_go_server.Proto.Server.{Handler, Session}
use simple_go_server.Proto.Server.Sessions.{
  move_topics, resume_session, attach_session, collect_replay, newer, expired,
}
use simple_go_server.Proto.Server.Cache.{CachedPublish}

-- Whether a connection is a member of a topic.
abbrev pub is_member : Dict String (List ℕ) → String → ℕ → Bool
is_member subs topic conn = elem conn (or_empty (lookup topic subs))

-- What moving a topic from one connection to another does to the answer for a third.
abbrev pub moved : ℕ → ℕ → ℕ → Bool → Bool
moved dead conn j now = if conn == j then true else if dead == j then false else now

is_member-insert :
    (subs : Dict String (List ℕ)) (topic x : String) (members : List ℕ) (j : ℕ)
    → is_member (insert topic members subs) x j
      ≡ (if topic == x then elem j members else is_member subs x j)
is_member-insert subs topic x members j =
    rw (lookup-insert topic x members subs)
      (elim (Bool-cases (topic == x)) [ inl hit ↦ rw hit refl | inr miss ↦ rw miss refl ])

pub is_member-move_topics :
    (subs : Dict String (List ℕ)) (topics : List String) (dead conn : ℕ) (x : String) (j : ℕ)
    → is_member (move_topics subs topics dead conn) x j
      ≡ (if elem x topics then moved dead conn j (is_member subs x j) else is_member subs x j)
unfolding move_topics elem
is_member-move_topics subs [] dead conn x j = refl
is_member-move_topics subs (topic ∷ topics) dead conn x j =
    let members = add conn (remove dead (or_empty (lookup topic subs))) in
    is_member-move_topics (insert topic members subs) topics dead conn x j
    ∙ rw (is_member-insert subs topic x members j) (elim (Bool-cases (topic == x)) [
      | inr miss ↦ rw miss refl
      | inl hit ↦
          let same = (string_eq.beq_iff topic x).0 hit in
          rw
            (
              hit,
              elem-add conn j (remove dead (or_empty (lookup topic subs))),
              elem-remove dead j (or_empty (lookup topic subs)),
              same,
            )
            (ground arith)
    ])

-- A list of frames has a frame at some place.
abbrev pub Has : List (List ℕ) → List ℕ → Type 0
Has bufs buf = (k : ℕ) × (get_elem? bufs k ≡ some buf)

Has-left : (xs ys : List (List ℕ)) (buf : List ℕ) → Has xs buf → Has (xs ++ ys) buf
Has-left [] ys buf (k, e) = absurd (cc e)
Has-left (x ∷ xs) ys buf (zero, e) = (0, e)
Has-left (x ∷ xs) ys buf (suc k, e) = let (i, q) = Has-left xs ys buf (k, e) in (suc i, q)

Has-right : (xs ys : List (List ℕ)) (buf : List ℕ) → Has ys buf → Has (xs ++ ys) buf
Has-right [] ys buf p = p
Has-right (x ∷ xs) ys buf p = let (i, q) = Has-right xs ys buf p in (suc i, q)

newer-Has :
    (cursor : ℕ) (cache : List CachedPublish) (k : ℕ) (c : CachedPublish)
    → get_elem? cache k ≡ some c
    → cursor < c.seq
    → Has (newer cursor cache) c.buf
unfolding newer
newer-Has cursor [] k c e h = absurd (cc e)
newer-Has cursor (x ∷ xs) zero c e h =
    let same : x ≡ c = ground arith in
    let beyond : ltb cursor x.seq ≡ true = rw same (ground arith) in
    rw (beyond, newer) (0, rw same refl)
newer-Has cursor (x ∷ xs) (suc k) c e h = elim (Bool-cases (ltb cursor x.seq)) [
  | inl beyond ↦ let (i, q) = newer-Has cursor xs k c e h in rw (beyond, newer) (suc i, q)
  | inr seen ↦ rw (seen, newer) (newer-Has cursor xs k c e h)
]

collect_replay-Has :
    (topic_cache : Dict String (List CachedPublish)) (topics : List String)
    (cursors : Dict String ℕ) (topic : String) (k : ℕ) (c : CachedPublish)
    → elem topic topics ≡ true
    → get_elem? (or_empty (lookup topic topic_cache)) k ≡ some c
    → or_zero (lookup topic cursors) < c.seq
    → Has (collect_replay topic_cache topics cursors) c.buf
unfolding collect_replay elem
collect_replay-Has topic_cache [] cursors topic k c m e h = absurd (cc m)
collect_replay-Has topic_cache (t ∷ topics) cursors topic k c m e h =
    elim (Bool-cases (t == topic)) [
      | inl hit ↦
          let same = (string_eq.beq_iff t topic).0 hit in
          Has-left _ _ c.buf (
            newer-Has (or_zero (lookup t cursors)) (or_empty (lookup t topic_cache)) k c (rw same e)
              (rw same h))
      | inr miss ↦
          Has-right _ _ c.buf
            (collect_replay-Has topic_cache topics cursors topic k c (rw miss at m) e h)
    ]

attach_session-resume_session :
    (h : Handler) (conn : ℕ) (token : String) (cursors : Dict String ℕ) (now : ℕ) (minted : String)
    (s : Session)
    → token ≢ ""
    → lookup token h.sessions ≡ some s
    → expired h s now ≡ false
    → attach_session h conn token cursors now minted ≡ record {
      handler = resume_session h s token conn now;
      token = token;
      resumed = true;
      replay = collect_replay h.cache.topic_cache s.topics cursors;
    }
unfolding attach_session
attach_session-resume_session h conn token cursors now minted s n e live =
    let named : (token == "") ≡ false = ground (arith, string_eq.beq_iff token "") in
    rw (named, e, live, attach_session) refl

-- A handshake with the token of a session that has not expired resumes it: in each topic that the
-- session records the new connection takes the place of the old one, and no other membership
-- changes; the token leads to the new connection, and the old one, if it is another, has no session;
-- and every cached publish of a recorded topic that lies beyond the client's cursor is replayed.
pub attach_session_resumes :
    (h : Handler) (conn : ℕ) (token : String) (cursors : Dict String ℕ) (now : ℕ) (minted : String)
    (s : Session)
    → token ≢ ""
    → lookup token h.sessions ≡ some s
    → expired h s now ≡ false
    → let a = attach_session h conn token cursors now minted in
      ((x : String) (j : ℕ)
        → is_member a.handler.subs x j ≡ (
            if elem x s.topics
            then moved s.conn conn j (is_member h.subs x j)
            else is_member h.subs x j))
      × (lookup token a.handler.sessions ≡ some (record s { conn = conn; last_seen = now }))
      × (lookup conn a.handler.conn_tokens ≡ some token)
      × (s.conn ≢ conn → lookup s.conn a.handler.conn_tokens ≡ none)
      × ((topic : String) (k : ℕ) (c : CachedPublish)
          → elem topic s.topics ≡ true
          → get_elem? (or_empty (lookup topic h.cache.topic_cache)) k ≡ some c
          → or_zero (lookup topic cursors) < c.seq
          → Has a.replay c.buf)
unfolding resume_session
attach_session_resumes h conn token cursors now minted s n e live =
    rw (attach_session-resume_session h conn token cursors now minted s n e live) (
      λ x j. is_member-move_topics h.subs s.topics s.conn conn x j,
      rw
          (
            lookup-insert token token (record s { conn = conn; last_seen = now }) h.sessions,
            beq_refl token,
          )
          refl,
      rw (lookup-insert conn conn token (delete s.conn h.conn_tokens), beq_refl conn) refl,
      λ m.
          rw
            (
              lookup-insert conn s.conn token (delete s.conn h.conn_tokens),
              lookup-delete s.conn s.conn h.conn_tokens,
            )
            (ground arith),
      λ topic k c r g b. collect_replay-Has h.cache.topic_cache s.topics cursors topic k c r g b,
    )
