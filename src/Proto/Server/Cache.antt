-- ===== src/Proto/Server/Cache.antt =====
-- The replay cache of `ProtocolHandler`: the fields topicCache, cacheBytes and cacheBudget, and what
-- rememberPublish, enforceCacheBudgetLocked and dropTopicCacheLocked do to them. Lengths of slices
-- are in memory, so their sums over one topic fit an int; `cache_bytes` is computed as an int.
pub mod Totals
pub mod Budget
use simple_go_server.Common.{
  ℕ, zero, suc, ◌+◌, ◌-◌, ◌*◌, ◌/◌, ◌%◌, ◌^◌, ◌≤◌, ◌<◌, min, String, ◌≡◌, refl, sym, ap, ◌∙◌, subst,
  ◌≢◌, ◌↔◌, ◌⊎◌, inl, inr, Bool, true, false, not, ◌&&◌, ◌||◌, Option, none, some, List, [], ◌∷◌,
  ◌++◌, map, append-nil, append_assoc, arith, ltb, leb, if◌then◌else◌, Eq, ◌==◌, nat_eq, string_eq,
  nat_beq_iff, beq_refl, Bool-cases, Option-cases, length, get_elem?, get_or, take, drop, All,
  length-append, length-take, length-drop, take-append-drop, take-length-append, drop-length-append,
  get_elem?-lt, lt_of_get_elem?, All-append, All-get, take_all, drop_all,
}
use simple_go_server.Common.Dict.{Dict, lookup, insert, delete, or_empty}
use simple_go_server.Common.Int.{ℤ, pos, ltb_ℤ, add_int, sub_int}

pub record CachedPublish : Type 0 where
  pub seq : ℕ
  pub buf : List ℕ

pub record ReplayCache : Type 0 where
  pub topic_cache : Dict String (List CachedPublish)
  pub cache_bytes : ℤ
  pub cache_budget : ℤ

abbrev pub topic_cache_size : ℕ
topic_cache_size = 64

unfoldable pub frame_bytes : List CachedPublish → ℕ
frame_bytes [] = 0
frame_bytes (c ∷ cache) = length c.buf + frame_bytes cache

-- The loop of `enforceCacheBudgetLocked` over the topics: the largest one, the first met on a tie.
unfoldable pub largest : Dict String (List CachedPublish) → String → ℕ → String × ℕ
largest [] victim size = (victim, size)
largest ((topic, cache) ∷ topics) victim size =
    if ltb size (frame_bytes cache)
    then largest topics topic (frame_bytes cache)
    else largest topics victim size

-- `enforceCacheBudgetLocked`. A round deletes a topic, so as many rounds as there are topics, and
-- one more for the last test, are enough.
unfoldable pub enforce_cache_budget : ℕ → ReplayCache → ReplayCache
enforce_cache_budget zero c = c
enforce_cache_budget (suc fuel) c =
    let (victim, size) = largest c.topic_cache "" 0 in
    let rest = enforce_cache_budget fuel (record c {
      topic_cache = delete victim c.topic_cache;
      cache_bytes = sub_int c.cache_bytes (pos size);
    }) in
    if not (ltb_ℤ c.cache_budget c.cache_bytes)
    then c
    else if victim == ""
    then record c { cache_bytes = pos 0 }
    else rest

-- `cache[len(cache)-topicCacheSize:]`, or all of it.
abbrev pub last_publishes : List CachedPublish → List CachedPublish
last_publishes cache = drop (length cache - topic_cache_size) cache

abbrev pub first_bytes : List CachedPublish → ℕ
first_bytes [] = 0
first_bytes (c ∷ cache) = length c.buf

-- `rememberPublish` up to the trimming to the budget.
unfoldable pub append_publish : ReplayCache → String → ℕ → List ℕ → ReplayCache
append_publish c topic seq buf =
    let cache = or_empty (lookup topic c.topic_cache) ++ (record { seq = seq; buf = buf } ∷ []) in
    let bytes =
      if ltb topic_cache_size (length cache)
      then sub_int c.cache_bytes (pos (first_bytes cache))
      else c.cache_bytes in
    record c {
      topic_cache = insert topic (last_publishes cache) c.topic_cache;
      cache_bytes = add_int bytes (pos (length buf));
    }

unfoldable pub remember_publish : ReplayCache → String → ℕ → List ℕ → ReplayCache
remember_publish c topic seq buf =
    let c' = append_publish c topic seq buf in enforce_cache_budget (suc (length c'.topic_cache)) c'

-- What `dropTopicCacheLocked` does to the cache of a topic that nothing needs any more.
unfoldable pub forget_topic : ReplayCache → String → ReplayCache
forget_topic c topic = record c {
  topic_cache = delete topic c.topic_cache;
  cache_bytes = sub_int c.cache_bytes (pos (frame_bytes (or_empty (lookup topic c.topic_cache))));
}
