-- ===== src/Proto/Server/Delivery.antt =====
-- pkg/proto/protocol.go: the deliveries of Publish and the subscriptions behind them.
use simple_go_server.Common.{
  ℕ, suc, ◌+◌, String, ◌≡◌, refl, sym, ap, ◌∙◌, subst, inl, inr, Bool, true, false, not, ◌&&◌, ◌||◌,
  Option, none, some, List, [], ◌∷◌, arith, if◌then◌else◌, ◌==◌, nat_eq, string_eq, beq_refl,
  Bool-cases, Option-cases, length,
}
use simple_go_server.Common.Dict.{
  Dict, lookup, or_empty, elem, remove, elem-remove, lookup-insert, lookup-delete,
}
use simple_go_server.Proto.{Frame, Result, ok, err, stuck, publish}
use simple_go_server.Proto.Codec.{encode, new_frame}
use simple_go_server.Proto.Server.{
  Handler, leave, drop_topic_cache, remove_subscriber, records_topic,
}
use simple_go_server.Proto.Server.Cache.{remember_publish}
use simple_go_server.Proto.Server.Publishing.{
  deliver, send, publish_to, numbered, next_sequence, Published, delivered, refused, marshal_failed,
}
use simple_go_server.Proto.Server.Resuming.{is_member}

-- How many of the members' writes succeed.
unfoldable pub count_writes : (ℕ → Bool) → List ℕ → ℕ
count_writes writes [] = 0
count_writes writes (conn ∷ members) =
    if writes conn then suc (count_writes writes members) else count_writes writes members

subs-drop_topic_cache : (h : Handler) (topic : String) → (drop_topic_cache h topic).subs ≡ h.subs
unfolding drop_topic_cache
subs-drop_topic_cache h topic = ground arith

empty-no_member : (members : List ℕ) (j : ℕ) → length members ≡ 0 → elem j members ≡ false
unfolding elem
empty-no_member [] j h = refl
empty-no_member (x ∷ xs) j h = absurd (omega arith)

is_member-leave_here :
    (subs : Dict String (List ℕ)) (topic : String) (conn j : ℕ)
    → is_member (leave subs topic conn) topic j
      ≡ (if conn == j then false else is_member subs topic j)
unfolding leave elem
is_member-leave_here subs topic conn j = elim (Option-cases (lookup topic subs)) [
  | inl e ↦ rw (e, leave) (ground arith)
  | inr (members, e) ↦ elim (Bool-cases (length (remove conn members) == 0)) [
    | inl last ↦
        rw (e, leave, last, lookup-delete topic topic subs, beq_refl topic)
          (sym (empty-no_member (remove conn members) j (ground arith))
            ∙ elem-remove conn j members)
    | inr more ↦
        rw (e, leave, more, lookup-insert topic topic (remove conn members) subs, beq_refl topic)
          (elem-remove conn j members)
  ]
]

-- Leaving a topic takes one connection out of it, and changes no other membership.
is_member-leave :
    (subs : Dict String (List ℕ)) (topic : String) (conn : ℕ) (x : String) (j : ℕ)
    → is_member (leave subs topic conn) x j ≡ (
        if topic == x
        then (if conn == j then false else is_member subs x j)
        else is_member subs x j)
unfolding leave
is_member-leave subs topic conn x j = elim (Bool-cases (topic == x)) [
  | inl hit ↦
      subst
        (λ z. is_member (leave subs topic conn) z j ≡ (
          if topic == z
          then (if conn == j then false else is_member subs z j)
          else is_member subs z j))
        ((string_eq.beq_iff topic x).0 hit)
        (rw (beq_refl topic) (is_member-leave_here subs topic conn j))
  | inr miss ↦ rw miss (elim (Option-cases (lookup topic subs)) [
    | inl e ↦ rw (e, leave) refl
    | inr (members, e) ↦ elim (Bool-cases (length (remove conn members) == 0)) [
      | inl last ↦ rw (e, leave, last, lookup-delete topic x subs, miss) refl
      | inr more ↦ rw (e, leave, more, lookup-insert topic x (remove conn members) subs, miss) refl
    ]
  ])
]

deliver-count :
    (writes : ℕ → Bool) (h : Handler) (topic : String) (members : List ℕ) (count : ℕ)
    → (deliver writes h topic members count).1 ≡ count + count_writes writes members
unfolding deliver count_writes
deliver-count writes h topic [] count = omega arith
deliver-count writes h topic (conn ∷ members) count = elim (Bool-cases (writes conn)) [
  | inl good ↦ rw (good, deliver) (omega (arith, deliver-count writes h topic members (count + 1)))
  | inr bad ↦
      rw (bad, deliver) (deliver-count writes (remove_subscriber h topic conn) topic members count)
]

subs-remove_subscriber :
    (h : Handler) (topic : String) (conn : ℕ)
    → (remove_subscriber h topic conn).subs ≡ leave h.subs topic conn
unfolding remove_subscriber
subs-remove_subscriber h topic conn =
    subs-drop_topic_cache (record h { subs = leave h.subs topic conn }) topic

deliver-is_member :
    (writes : ℕ → Bool) (h : Handler) (topic : String) (members : List ℕ) (count : ℕ) (x : String)
    (j : ℕ)
    → is_member (deliver writes h topic members count).0.subs x j
      ≡ (is_member h.subs x j && (not (topic == x) || writes j || not (elem j members)))
unfolding deliver elem
deliver-is_member writes h topic [] count x j = ground arith
deliver-is_member writes h topic (conn ∷ members) count x j = elim (Bool-cases (writes conn)) [
  | inl good ↦
      rw (good, deliver)
        (deliver-is_member writes h topic members (count + 1) x j ∙ elim (Bool-cases (conn == j)) [
          | inl same ↦
              let q : conn ≡ j = ground arith in
              let w : writes j ≡ true = rw q at good in rw (same, w) (ground arith)
          | inr other ↦ rw other refl
        ])
  | inr bad ↦
      rw (bad, deliver)
        (deliver-is_member writes (remove_subscriber h topic conn) topic members count x j
          ∙ rw (subs-remove_subscriber h topic conn, is_member-leave h.subs topic conn x j)
              (elim (Bool-cases (conn == j)) [
                | inl same ↦
                    let q : conn ≡ j = ground arith in
                    let w : writes j ≡ false = rw q at bad in rw (same, w) (ground arith)
                | inr other ↦ rw other (ground arith)
              ]))
]

-- What the theorem says of a publish that ended in a number of deliveries.
Reached : (ℕ → Bool) → Handler → String → Handler × Published → ℕ → Type 0
Reached writes h topic result n =
    (n ≡ count_writes writes (or_empty (lookup topic h.subs)))
    × ((x : String) (j : ℕ)
        → is_member result.0.subs x j ≡ (is_member h.subs x j && (not (topic == x) || writes j)))

abbrev count_of : Published → ℕ
count_of (delivered n) = n
count_of (refused e) = 0
count_of marshal_failed = 0

-- Among the members themselves, those stay whose writes succeed.
own_members :
    (writes : ℕ → Bool) (subs : Dict String (List ℕ)) (topic x : String) (j : ℕ)
    → (is_member subs x j && (not (topic == x) || writes j || not (is_member subs topic j)))
      ≡ (is_member subs x j && (not (topic == x) || writes j))
own_members writes subs topic x j = elim (Bool-cases (topic == x)) [
  | inl hit ↦ let same = (string_eq.beq_iff topic x).0 hit in rw (hit, same) (ground arith)
  | inr miss ↦ rw miss (ground arith)
]

send-Reached :
    (must_json : String → List ℕ → List ℕ) (writes : ℕ → Bool) (h : Handler) (topic : String)
    (body : List ℕ) (n : ℕ)
    → (send must_json writes h topic body (or_empty (lookup topic h.subs))).1 ≡ delivered n
    → Reached writes h topic (send must_json writes h topic body (or_empty (lookup topic h.subs))) n
unfolding send numbered Reached
send-Reached must_json writes h topic body n d = go (encode f) refl
  where
    f : Frame
    f = new_frame publish (next_sequence h topic) (must_json topic body)

    members : List ℕ
    members = or_empty (lookup topic h.subs)

    go :
        (r : Result (List ℕ))
        → encode f ≡ r
        → Reached writes h topic (send must_json writes h topic body members) n
    go (err e) q = absurd (let d' = rw (q, send) at d in cc d')
    go stuck q = absurd (let d' = rw (q, send) at d in cc d')
    go (ok buf) q =
        let h' : Handler = record (numbered h topic) {
          cache = remember_publish h.cache topic (next_sequence h topic) buf;
        } in
        let d' : delivered (deliver writes h' topic members 0).1 ≡ delivered n =
          rw (q, send) at d in
        rw (q, send)
          (
            omega (arith, ap count_of d', deliver-count writes h' topic members 0),
            λ x j.
                deliver-is_member writes h' topic members 0 x j
                ∙ own_members writes h.subs topic x j,
          )

-- A publish that ends in a number of deliveries: the number is that of the topic's members whose
-- writes succeed; afterwards the members of the topic are those of them that were members before and
-- whose writes succeed; and no membership of another topic changes.
pub publish_reaches_members :
    (must_json : String → List ℕ → List ℕ) (writes : ℕ → Bool) (h : Handler) (topic : String)
    (body : Option (List ℕ)) (n : ℕ)
    → (publish_to must_json writes h topic body).1 ≡ delivered n
    → (n ≡ count_writes writes (or_empty (lookup topic h.subs)))
      × ((x : String) (j : ℕ)
          → is_member (publish_to must_json writes h topic body).0.subs x j
            ≡ (is_member h.subs x j && (not (topic == x) || writes j)))
unfolding publish_to Reached
publish_reaches_members must_json writes h topic none n d = absurd (cc d)
publish_reaches_members must_json writes h topic (some body) n d =
    elim (Bool-cases
      (length (or_empty (lookup topic h.subs)) == 0 && not (records_topic h.sessions topic))) [
        | inl nobody ↦
            let d' : delivered 0 ≡ delivered n = rw (nobody, publish_to) at d in
            let none_there : length (or_empty (lookup topic h.subs)) ≡ 0 = ground arith in
            rw (nobody, publish_to)
              (
                sym (ap count_of d')
                    ∙ sym (no_writes writes (or_empty (lookup topic h.subs)) none_there),
                λ x j. nobody_there x j none_there,
              )
        | inr wanted ↦
            let d' = rw (wanted, publish_to) at d in
            rw (wanted, publish_to) (send-Reached must_json writes h topic body n d')
      ]
  where
    no_writes :
        (writes : ℕ → Bool) (members : List ℕ)
        → length members ≡ 0
        → count_writes writes members ≡ 0
    no_writes writes [] e = unfold count_writes in refl
    no_writes writes (m ∷ ms) e = absurd (omega arith)

    nobody_there :
        (x : String) (j : ℕ)
        → length (or_empty (lookup topic h.subs)) ≡ 0
        → is_member h.subs x j ≡ (is_member h.subs x j && (not (topic == x) || writes j))
    nobody_there x j e = elim (Bool-cases (topic == x)) [
      | inl hit ↦
          let same = (string_eq.beq_iff topic x).0 hit in
          let out : is_member h.subs x j ≡ false =
            subst (λ z. is_member h.subs z j ≡ false) same
              (empty-no_member (or_empty (lookup topic h.subs)) j e) in
          rw (hit, out) refl
      | inr miss ↦ rw miss (ground arith)
    ]
