-- ===== src/Proto/Server/Cache/Budget.antt =====
-- pkg/proto/protocol.go: rememberPublish and the accounts of the replay cache.
use simple_go_server.Common.{
  ℕ, zero, suc, ◌+◌, ◌-◌, ◌≤◌, ◌<◌, String, ◌≡◌, refl, sym, ap, ◌∙◌, subst, ◌≢◌, inl, inr, Bool,
  true, false, Option, none, some, List, [], ◌∷◌, ◌++◌, arith, ltb, if◌then◌else◌, ◌==◌, nat_eq,
  string_eq, Bool-cases, length, length-append,
}
use simple_go_server.Common.Dict.{
  Dict, lookup, insert, delete, or_empty, IsMap, IsAbsent, insert-IsMap, delete-IsMap,
  lookup-insert, lookup-delete, length-delete-lt,
}
use simple_go_server.Common.Int.{pos, ltb_ℤ, add_int, sub_int, int_max, add_int-pos, sub_int-pos}
use simple_go_server.Proto.Server.Cache.{
  CachedPublish, ReplayCache, frame_bytes, largest, enforce_cache_budget, last_publishes,
  first_bytes, append_publish, remember_publish, forget_topic, topic_cache_size,
}
use simple_go_server.Proto.Server.Cache.Totals.{
  total, bytes_of, total-insert, total-delete, frame_bytes-append, largest-Found,
}

-- Topics have names, no topic has more publishes than the limit, the budget is `b`, and the counter
-- says how many bytes are held.
pub record IsAccounted (b : ℕ) (c : ReplayCache) : Type 0 where
  pub one_each : IsMap c.topic_cache
  pub named : IsAbsent (lookup "" c.topic_cache)
  pub short : (topic : String) → length (or_empty (lookup topic c.topic_cache)) ≤ topic_cache_size
  pub budget : c.cache_budget ≡ pos b
  pub bytes : c.cache_bytes ≡ pos (total c.topic_cache)

-- Whole topics go, a largest one at a time, as long as the total is over the budget and no longer.
pub data Evicts (b : ℕ)
    : Dict String (List CachedPublish) → Dict String (List CachedPublish) → Type 0 where
  stop : {topics : Dict String (List CachedPublish)} → total topics ≤ b → Evicts b topics topics
  evict :
      {topics after : Dict String (List CachedPublish)} (victim : String)
      (cache : List CachedPublish)
      → b < total topics
      → lookup victim topics ≡ some cache
      → ((topic : String) (other : List CachedPublish)
          → lookup topic topics ≡ some other
          → frame_bytes other ≤ frame_bytes cache)
      → Evicts b (delete victim topics) after
      → Evicts b topics after

within :
    (b : ℕ) {topics after : Dict String (List CachedPublish)}
    → Evicts b topics after
    → total after ≤ b
within b (stop h) = h
within b (evict victim cache over at most e) = within b e

-- What is left over for a topic is nothing or what it had.
delete-IsAccounted :
    (b : ℕ) (c : ReplayCache) (victim : String)
    → IsAccounted b c
    → total c.topic_cache < int_max
    → IsAccounted b (record c {
      topic_cache = delete victim c.topic_cache;
      cache_bytes = sub_int c.cache_bytes (pos (bytes_of victim c.topic_cache));
    })
delete-IsAccounted b c victim a h = record {
  one_each = delete-IsMap victim c.topic_cache a.one_each;
  named = rw (lookup-delete victim "" c.topic_cache) (absent-if _ (victim == "") a.named);
  short = λ topic.
      rw (lookup-delete victim topic c.topic_cache) (short-if _ (victim == topic) (a.short topic));
  budget = a.budget;
  bytes = rw a.bytes (
      sub_int-pos (total c.topic_cache) (bytes_of victim c.topic_cache)
        (omega (arith, total-delete victim c.topic_cache a.one_each)) h
      ∙ ap pos (omega (arith, total-delete victim c.topic_cache a.one_each)));
}
  where
    absent-if :
        (o : Option (List CachedPublish)) (t : Bool) → IsAbsent o → IsAbsent (if t then none else o)
    absent-if o true p = tt
    absent-if o false p = p

    short-if :
        (o : Option (List CachedPublish)) (t : Bool)
        → length (or_empty o) ≤ topic_cache_size
        → length (or_empty (if t then none else o)) ≤ topic_cache_size
    short-if o true p = omega arith
    short-if o false p = p

enforce_lem :
    (b fuel : ℕ) (c : ReplayCache)
    → IsAccounted b c
    → total c.topic_cache < int_max
    → length c.topic_cache < fuel
    → IsAccounted b (enforce_cache_budget fuel c)
      × Evicts b c.topic_cache (enforce_cache_budget fuel c).topic_cache
unfolding enforce_cache_budget
enforce_lem b zero c a h f = absurd (omega arith)
enforce_lem b (suc fuel) c a h f = elim (Bool-cases (ltb_ℤ c.cache_budget c.cache_bytes)) [
  | inr fits ↦
      let le : total c.topic_cache ≤ b = ground (arith, a.budget, a.bytes) in rw fits (a, stop le)
  | inl over ↦
      let lt : b < total c.topic_cache = ground (arith, a.budget, a.bytes) in
      let r = largest c.topic_cache "" 0 in
      let found = largest-Found c.topic_cache "" 0 a.one_each in
      elim found.where_from [
        | inl (v, s) ↦ absurd (omega (arith, found.empty s))
        | inr (cache, l, s) ↦ elim (Bool-cases (r.0 == "")) [
          | inl nameless ↦
              let e = (string_eq.beq_iff r.0 "").0 nameless in absurd (rw (sym e, l) at a.named)
          | inr named ↦
              let same : bytes_of r.0 c.topic_cache ≡ r.1 = rw l s in
              let smaller = length-delete-lt r.0 c.topic_cache cache l in
              let less = total-delete r.0 c.topic_cache a.one_each in
              let next : ℕ → ReplayCache = λ n. record c {
                topic_cache = delete r.0 c.topic_cache;
                cache_bytes = sub_int c.cache_bytes (pos n);
              } in
              let (a', e') =
                enforce_lem b fuel (next (bytes_of r.0 c.topic_cache))
                  (delete-IsAccounted b c r.0 a h) (omega arith) (omega arith) in
              let most : (topic : String) (other : List CachedPublish)
                  → lookup topic c.topic_cache ≡ some other
                  → frame_bytes other ≤ frame_bytes cache =
                λ topic other e.
                  subst (λ n. frame_bytes other ≤ n) (sym s) (found.all topic other e) in
              rw (over, named)
                (subst
                  (λ n.
                    IsAccounted b (enforce_cache_budget fuel (next n))
                    × Evicts b c.topic_cache (enforce_cache_budget fuel (next n)).topic_cache)
                  same (a', evict r.0 cache lt l most e'))
        ]
      ]
]

-- The trimming of one topic drops its first publish if there is one too many, and no other.
trimmed :
    (ys : List CachedPublish)
    → length ys ≤ topic_cache_size + 1
    → (length (last_publishes ys) ≤ topic_cache_size)
      × (frame_bytes (last_publishes ys)
            + (if ltb topic_cache_size (length ys) then first_bytes ys else 0)
          ≡ frame_bytes ys)
unfolding frame_bytes
trimmed [] h = (omega arith, refl)
trimmed (y ∷ ys) h = elim (Bool-cases (ltb topic_cache_size (length (y ∷ ys)))) [
  | inl full ↦
      let one : length (y ∷ ys) - topic_cache_size ≡ 1 = ground arith in
      rw (full, one) (omega arith, omega arith)
  | inr room ↦
      let all : length (y ∷ ys) - topic_cache_size ≡ 0 = ground arith in
      rw (room, all) (ground arith, omega arith)
]

first_bytes-append :
    (xs : List CachedPublish) (c : CachedPublish)
    → 0 < length xs
    → first_bytes (xs ++ (c ∷ [])) ≤ frame_bytes xs
unfolding frame_bytes
first_bytes-append [] c h = absurd (omega arith)
first_bytes-append (x ∷ xs) c h = omega arith

append_publish-IsAccounted :
    (b : ℕ) (c : ReplayCache) (topic : String) (seq : ℕ) (buf : List ℕ)
    → IsAccounted b c
    → topic ≢ ""
    → total c.topic_cache + length buf < int_max
    → IsAccounted b (append_publish c topic seq buf)
      × (total (append_publish c topic seq buf).topic_cache ≤ total c.topic_cache + length buf)
unfolding append_publish
append_publish-IsAccounted b c topic seq buf a n h =
    let old = or_empty (lookup topic c.topic_cache) in
    let new : CachedPublish = record { seq = seq; buf = buf } in
    let size = length-append old (new ∷ []) in
    let (fits, sum) = trimmed (old ++ (new ∷ [])) (omega (arith, a.short topic)) in
    let plus = frame_bytes-append old new in
    let whole = total-insert topic (last_publishes (old ++ (new ∷ []))) c.topic_cache in
    (
      record {
        one_each = insert-IsMap topic (last_publishes (old ++ (new ∷ []))) c.topic_cache a.one_each;
        named =
            rw (lookup-insert topic "" (last_publishes (old ++ (new ∷ []))) c.topic_cache)
              (elim (Bool-cases (topic == "")) [
                | inl hit ↦ absurd (n ((string_eq.beq_iff topic "").0 hit))
                | inr miss ↦ rw miss a.named
              ]);
        short = λ t.
            rw (lookup-insert topic t (last_publishes (old ++ (new ∷ []))) c.topic_cache)
              (elim (Bool-cases (topic == t)) [
                | inl hit ↦ rw hit fits
                | inr miss ↦ rw miss (a.short t)
              ]);
        budget = a.budget;
        bytes = elim (Bool-cases (ltb topic_cache_size (length (old ++ (new ∷ []))))) [
          | inl full ↦
              let sum' = rw full at sum in
              let first = first_bytes-append old new (ground arith) in
              let held = total-delete topic c.topic_cache a.one_each in
              rw (full, a.bytes)
                (ap (λ z. add_int z (pos (length buf)))
                    (sub_int-pos (total c.topic_cache) (first_bytes (old ++ (new ∷ [])))
                      (omega arith) (omega arith))
                  ∙ add_int-pos (total c.topic_cache - first_bytes (old ++ (new ∷ []))) (length buf)
                      (omega arith)
                  ∙ ap pos (omega arith))
          | inr room ↦
              let sum' = rw room at sum in
              rw (room, a.bytes)
                (add_int-pos (total c.topic_cache) (length buf) (omega arith)
                  ∙ ap pos (omega arith))
        ];
      },
      omega arith,
    )

-- On a cache whose counter says what it holds, which is within the budget, and with room in an int:
-- a publish of a named topic leaves such a cache again, within the budget; and what it leaves comes
-- from the cache with the topic's last publishes, the new one behind them, by evicting whole topics,
-- a largest one at a time, for as long as the total is over the budget and no longer.
pub remember_publish-IsAccounted :
    (b : ℕ) (c : ReplayCache) (topic : String) (seq : ℕ) (buf : List ℕ)
    → IsAccounted b c
    → total c.topic_cache ≤ b
    → topic ≢ ""
    → b + length buf < int_max
    → let cache = or_empty (lookup topic c.topic_cache) ++ (record { seq = seq; buf = buf } ∷ []) in
      IsAccounted b (remember_publish c topic seq buf)
      × (total (remember_publish c topic seq buf).topic_cache ≤ b)
      × Evicts b
          (insert topic (last_publishes cache) c.topic_cache)
          (remember_publish c topic seq buf).topic_cache
unfolding remember_publish append_publish
remember_publish-IsAccounted b c topic seq buf a w n h =
    let c' = append_publish c topic seq buf in
    let (a', le) = append_publish-IsAccounted b c topic seq buf a n (omega arith) in
    let (a'', e) = enforce_lem b (suc (length c'.topic_cache)) c' a' (omega arith) (omega arith) in
    (a'', within b e, e)

-- Forgetting a topic keeps the accounts.
pub forget_topic-IsAccounted :
    (b : ℕ) (c : ReplayCache) (topic : String)
    → IsAccounted b c
    → total c.topic_cache ≤ b
    → b < int_max
    → IsAccounted b (forget_topic c topic) × (total (forget_topic c topic).topic_cache ≤ b)
unfolding forget_topic
forget_topic-IsAccounted b c topic a w h = (
  delete-IsAccounted b c topic a (omega arith),
  omega (arith, total-delete topic c.topic_cache a.one_each),
)
