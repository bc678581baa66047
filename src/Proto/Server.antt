-- ===== src/Proto/Server.antt =====
-- pkg/proto/protocol.go: the server's side of publish and subscribe. A connection is a number, times
-- and durations are numbers of nanoseconds. What a method does under the mutex, and the whole of
-- `Publish`, is one step.
mod Tests
pub mod Cache
pub mod Sessions
pub mod Publishing
pub mod Handling
pub mod Accounts
pub mod History
pub mod WithinBudget
pub mod Resuming
pub mod Delivery
use simple_go_server.Common.{
  ℕ, zero, suc, ◌+◌, ◌-◌, ◌*◌, ◌/◌, ◌%◌, ◌^◌, ◌≤◌, ◌<◌, min, String, ◌≡◌, refl, sym, ap, ◌∙◌, subst,
  ◌≢◌, ◌↔◌, ◌⊎◌, inl, inr, Bool, true, false, not, ◌&&◌, ◌||◌, Option, none, some, List, [], ◌∷◌,
  ◌++◌, map, append-nil, append_assoc, arith, ltb, leb, if◌then◌else◌, Eq, ◌==◌, nat_eq, string_eq,
  nat_beq_iff, beq_refl, Bool-cases, Option-cases, length, get_elem?, get_or, take, drop, All,
  length-append, length-take, length-drop, take-append-drop, take-length-append, drop-length-append,
  get_elem?-lt, lt_of_get_elem?, All-append, All-get, take_all, drop_all,
}
use simple_go_server.Common.Dict.{
  Dict, lookup, insert, delete, or_empty, or_zero, elem, add, remove,
}
use simple_go_server.Common.Int.{pos}
use simple_go_server.Proto.Server.Cache.{ReplayCache, forget_topic}

pub record Session : Type 0 where
  pub conn : ℕ
  pub topics : List String
  pub last_seen : ℕ

pub record Handler : Type 0 where
  pub subs : Dict String (List ℕ)
  pub pings : ℕ
  pub pongs : ℕ
  pub topic_seqs : Dict String ℕ
  pub sessions : Dict String Session
  pub conn_tokens : Dict ℕ String
  pub cache : ReplayCache
  pub require_hello : Bool
  pub session_ttl : ℕ

abbrev pub default_cache_budget : ℕ
default_cache_budget = 64 * 2 ^ 20

-- Ten minutes.
abbrev pub default_session_ttl : ℕ
default_session_ttl = 600 * 1000000000

unfoldable pub new : Handler
new = record {
  subs = [];
  pings = 0;
  pongs = 0;
  topic_seqs = [];
  sessions = [];
  conn_tokens = [];
  cache = record { topic_cache = []; cache_bytes = pos 0; cache_budget = pos default_cache_budget };
  require_hello = false;
  session_ttl = default_session_ttl;
}

unfoldable pub records_topic : Dict String Session → String → Bool
records_topic [] topic = false
records_topic ((token, s) ∷ sessions) topic =
    if elem topic s.topics then true else records_topic sessions topic

-- `dropTopicCacheLocked`.
unfoldable pub drop_topic_cache : Handler → String → Handler
drop_topic_cache h topic =
    if not (length (or_empty (lookup topic h.subs)) == 0)
    then h
    else if records_topic h.sessions topic
    then h
    else record h { cache = forget_topic h.cache topic; topic_seqs = delete topic h.topic_seqs }

-- `topicSequenceLocked` and `Subscribers`.
unfoldable pub topic_sequence : Handler → String → ℕ
topic_sequence h topic = or_zero (lookup topic h.topic_seqs)

unfoldable pub subscribers : Handler → String → ℕ
subscribers h topic = length (or_empty (lookup topic h.subs))

-- A connection leaves a topic's members, and a topic without members leaves the table.
unfoldable pub leave : Dict String (List ℕ) → String → ℕ → Dict String (List ℕ)
leave subs topic conn = elim (lookup topic subs) [
  | none ↦ subs
  | some members ↦
      let left = remove conn members in
      if length left == 0 then delete topic subs else insert topic left subs
]

unfoldable pub remove_subscriber : Handler → String → ℕ → Handler
remove_subscriber h topic conn =
    drop_topic_cache (record h { subs = leave h.subs topic conn }) topic
