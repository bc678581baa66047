-- ===== src/Proto/Server/Cache/Totals.antt =====
-- pkg/proto/protocol.go: the bytes of the replay cache, topic by topic.
use simple_go_server.Common.{
  ℕ, ◌+◌, ◌≤◌, ◌<◌, String, ◌≡◌, refl, sym, ap, ◌⊎◌, inl, inr, some, List, [], ◌∷◌, ◌++◌, arith,
  ltb, ◌==◌, nat_eq, string_eq, beq_refl, Bool-cases, length,
}
use simple_go_server.Common.Dict.{
  Dict, lookup, insert, delete, or_empty, IsMap, IsAbsent, delete-absent,
}
use simple_go_server.Proto.Server.Cache.{CachedPublish, frame_bytes, largest}

abbrev Topics : Type 0
Topics = Dict String (List CachedPublish)

unfoldable pub total : Topics → ℕ
total [] = 0
total ((topic, cache) ∷ topics) = frame_bytes cache + total topics

abbrev pub bytes_of : String → Topics → ℕ
bytes_of topic topics = frame_bytes (or_empty (lookup topic topics))

pub total-insert :
    (topic : String) (cache : List CachedPublish) (topics : Topics)
    → total (insert topic cache topics) + bytes_of topic topics ≡ total topics + frame_bytes cache
unfolding total insert lookup frame_bytes
total-insert topic cache [] = omega arith
total-insert topic cache ((t, c) ∷ topics) = elim (Bool-cases (t == topic)) [
  | inl hit ↦ rw hit (omega arith)
  | inr miss ↦ rw miss (omega (arith, total-insert topic cache topics))
]

pub total-delete :
    (topic : String) (topics : Topics)
    → IsMap topics
    → total (delete topic topics) + bytes_of topic topics ≡ total topics
unfolding total delete lookup frame_bytes
total-delete topic [] u = refl
total-delete topic ((t, c) ∷ topics) (fresh, u) = elim (Bool-cases (t == topic)) [
  | inl hit ↦
      let absent : IsAbsent (lookup topic topics) =
        rw (sym ((string_eq.beq_iff t topic).0 hit)) fresh in
      rw (hit, delete-absent topic topics absent) (omega arith)
  | inr miss ↦ rw miss (omega (arith, total-delete topic topics u))
]

pub frame_bytes-append :
    (xs : List CachedPublish) (c : CachedPublish)
    → frame_bytes (xs ++ (c ∷ [])) ≡ frame_bytes xs + length c.buf
unfolding frame_bytes
frame_bytes-append [] c = omega arith
frame_bytes-append (x ∷ xs) c = omega (arith, frame_bytes-append xs c)

-- The largest topic, as the loop finds it from a start that is no topic.
pub record Found (topics : Topics) (victim : String) (size : ℕ) (result : String × ℕ) : Type 0 where
  pub no_less : size ≤ result.1
  pub all :
      (topic : String) (cache : List CachedPublish)
      → lookup topic topics ≡ some cache
      → frame_bytes cache ≤ result.1
  pub empty : result.1 ≡ 0 → total topics ≡ 0
  pub where_from :
      ((result.0 ≡ victim) × (result.1 ≡ size))
      ⊎ ((cache : List CachedPublish) × (lookup result.0 topics ≡ some cache)
          × (frame_bytes cache ≡ result.1))

-- A topic that is in the rest is found behind the first one.
lookup-there :
    (t topic : String) (c cache : List CachedPublish) (topics : Topics)
    → IsAbsent (lookup t topics)
    → lookup topic topics ≡ some cache
    → lookup topic ((t, c) ∷ topics) ≡ some cache
unfolding lookup
lookup-there t topic c cache topics fresh e = elim (Bool-cases (t == topic)) [
  | inl hit ↦ let same = (string_eq.beq_iff t topic).0 hit in absurd (rw (same, e) at fresh)
  | inr miss ↦ rw miss e
]

-- What is found in a list is the first or in the rest.
lookup-cons :
    (t topic : String) (c cache : List CachedPublish) (topics : Topics)
    → lookup topic ((t, c) ∷ topics) ≡ some cache
    → (c ≡ cache) ⊎ (lookup topic topics ≡ some cache)
unfolding lookup
lookup-cons t topic c cache topics e = ground arith

Found-above :
    (t : String) (c : List CachedPublish) (topics : Topics) (victim : String) (size : ℕ)
    (r : String × ℕ)
    → size < frame_bytes c
    → IsAbsent (lookup t topics)
    → Found topics t (frame_bytes c) r
    → Found ((t, c) ∷ topics) victim size r
Found-above t c topics victim size r h fresh f = record {
  no_less = omega (arith, f.no_less);
  all = λ topic cache e. elim (lookup-cons t topic c cache topics e) [
    | inl same ↦ omega (arith, f.no_less, ap frame_bytes same)
    | inr later ↦ f.all topic cache later
  ];
  empty = λ e. absurd (omega (arith, f.no_less));
  where_from = inr (elim f.where_from [
    | inl (v, s) ↦ (c, rw v (unfold lookup in rw (beq_refl t) refl), sym s)
    | inr (cache, l, s) ↦ (cache, lookup-there t r.0 c cache topics fresh l, s)
  ]);
}

Found-below :
    (t : String) (c : List CachedPublish) (topics : Topics) (victim : String) (size : ℕ)
    (r : String × ℕ)
    → frame_bytes c ≤ size
    → IsAbsent (lookup t topics)
    → Found topics victim size r
    → Found ((t, c) ∷ topics) victim size r
Found-below t c topics victim size r h fresh f = record {
  no_less = f.no_less;
  all = λ topic cache e. elim (lookup-cons t topic c cache topics e) [
    | inl same ↦ omega (arith, f.no_less, ap frame_bytes same)
    | inr later ↦ f.all topic cache later
  ];
  empty = λ e. unfold total in omega (arith, f.no_less, f.empty e);
  where_from = elim f.where_from [
    | inl start ↦ inl start
    | inr (cache, l, s) ↦ inr (cache, lookup-there t r.0 c cache topics fresh l, s)
  ];
}

pub largest-Found :
    (topics : Topics) (victim : String) (size : ℕ)
    → IsMap topics
    → Found topics victim size (largest topics victim size)
unfolding largest
largest-Found [] victim size u = record {
  no_less = omega arith;
  all = λ topic cache e. absurd (unfold lookup in cc e);
  empty = λ e. unfold total in refl;
  where_from = inl (refl, refl);
}
largest-Found ((t, c) ∷ topics) victim size (fresh, u) =
    elim (Bool-cases (ltb size (frame_bytes c))) [
      | inl above ↦ rw above (
          Found-above t c topics victim size _ (ground arith) fresh
            (largest-Found topics t (frame_bytes c) u))
      | inr below ↦ rw below (
          Found-below t c topics victim size _ (ground arith) fresh
            (largest-Found topics victim size u))
    ]
