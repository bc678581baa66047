-- ===== src/Proto/Resilient/ExactlyOnce.antt =====
-- pkg/proto/resilient.go: histories of frames at an acknowledging client.
use simple_go_server.Common.{
  ℕ, ◌^◌, ◌≤◌, ◌<◌, String, ◌≡◌, refl, sym, ap, ◌∙◌, inl, inr, Bool, true, false, not, ◌&&◌, ◌||◌,
  Option, none, some, List, [], ◌∷◌, arith, leb, if◌then◌else◌, ◌==◌, nat_eq, string_eq, Bool-cases,
  Option-cases, length, All,
}
use simple_go_server.Common.Dict.{
  Dict, lookup, insert, delete, elem, add, lookup-insert, lookup-delete, or_zero, or_empty,
}
use simple_go_server.Proto.{Frame}
use simple_go_server.Proto.Message.{Unmarshal}
use simple_go_server.Proto.Resilient.{
  is_empty, advance, Replay, new, cursor, beyond, next_seq, acknowledge_window, acknowledge_publish,
  should_deliver_publish, decode_publish, handle_acknowledged, on_publish, snapshot_cursors,
}
use simple_go_server.Proto.Resilient.Window.{
  window, seen, IsTight, acknowledge_window-seen, acknowledge_window-IsTight,
}

-- A case split at a key that changes nothing.
same_key :
    {A : Type 0} (f : String → A) (topic j : String) → (if topic == j then f topic else f j) ≡ f j
same_key f topic j = elim (Bool-cases (topic == j)) [
  | inl same ↦ rw same (ap f ((string_eq.beq_iff topic j).0 same))
  | inr other ↦ rw other refl
]

zero-insert :
    (k j : String) (v : ℕ) (m : Dict String ℕ)
    → or_zero (lookup j (insert k v m)) ≡ (if k == j then v else or_zero (lookup j m))
zero-insert k j v m = rw (lookup-insert k j v m) (ground arith)

empty-insert :
    (k j : String) (v : List ℕ) (m : Dict String (List ℕ))
    → or_empty (lookup j (insert k v m)) ≡ (if k == j then v else or_empty (lookup j m))
empty-insert k j v m =
    rw (lookup-insert k j v m)
      (elim (Bool-cases (k == j)) [ inl same ↦ rw same refl | inr other ↦ rw other refl ])

empty-delete :
    (k j : String) (m : Dict String (List ℕ))
    → or_empty (lookup j (delete k m)) ≡ (if k == j then [] else or_empty (lookup j m))
empty-delete k j m =
    rw (lookup-delete k j m)
      (elim (Bool-cases (k == j)) [ inl same ↦ rw same refl | inr other ↦ rw other refl ])

-- What is stored of an accepted set, the entry of an empty one being deleted.
stored :
    (k j : String) (v : List ℕ) (m : Dict String (List ℕ))
    → or_empty (lookup j (if is_empty v then delete k m else insert k v m))
      ≡ (if k == j then v else or_empty (lookup j m))
stored k j [] m = empty-delete k j m
stored k j (x ∷ xs) m = empty-insert k j (x ∷ xs) m

-- An acknowledgement acts on the window of its own topic and leaves the others.
window-acknowledge_publish :
    (rc : Replay) (topic j : String) (seq : ℕ)
    → window (acknowledge_publish rc topic seq) j
      ≡ (if topic == j then acknowledge_window (window rc topic) seq else window rc j)
unfolding acknowledge_publish cursor beyond acknowledge_window
window-acknowledge_publish rc topic j seq = elim (Bool-cases (leb seq (cursor rc topic))) [
  | inl old ↦ rw old (sym (same_key (window rc) topic j))
  | inr new ↦ elim (Bool-cases (seq == next_seq (cursor rc topic))) [
    | inl next ↦
        rw
          (
            new,
            next,
            zero-insert topic j (advance (length (beyond rc topic)) seq (beyond rc topic)).0
                rc.cursors,
            stored topic j (advance (length (beyond rc topic)) seq (beyond rc topic)).1 rc.accepted,
          )
          (elim (Bool-cases (topic == j)) [ inl same ↦ rw same refl | inr other ↦ rw other refl ])
    | inr ahead ↦
        rw (new, ahead, empty-insert topic j (add seq (beyond rc topic)) rc.accepted)
          (elim (Bool-cases (topic == j)) [
            | inl same ↦ rw same (
                ap (λ z. (cursor rc z, add seq (beyond rc topic)))
                  (sym ((string_eq.beq_iff topic j).0 same)))
            | inr other ↦ rw other refl
          ])
  ]
]

should_deliver-seen :
    (rc : Replay) (topic : String) (seq : ℕ)
    → should_deliver_publish rc topic seq ≡ not (seen (window rc topic) seq)
unfolding should_deliver_publish
should_deliver-seen rc topic seq = ground arith

-- The numbers of one topic in a log of deliveries.
unfoldable pub numbers : String → List (String × ℕ) → List ℕ
numbers topic [] = []
numbers topic ((t, seq) ∷ log) = if t == topic then seq ∷ numbers topic log else numbers topic log

abbrev pub NoRepeat : List ℕ → Type 0
NoRepeat [] = Unit {0}
NoRepeat (x ∷ xs) = (elem x xs ≡ false) × NoRepeat xs

abbrev pub log_of : Option (String × ℕ) → Bool → List (String × ℕ) → List (String × ℕ)
log_of none taken log = log
log_of (some p) taken log = if taken then p ∷ log else log

-- The frames of a history in order, each with the callback's answer. The log holds what the
-- callback was given and accepted, latest first.
unfoldable pub run :
    Unmarshal → Replay → List (String × ℕ) → List (Frame × Bool) → Replay × List (String × ℕ)
run unmarshal rc log [] = (rc, log)
run unmarshal rc log ((frame, accepts) ∷ frames) =
    let (rc', asked) = handle_acknowledged unmarshal rc frame accepts in
    run unmarshal rc' (log_of (decode_publish unmarshal frame) (asked && accepts) log) frames

record Agree (rc : Replay) (log : List (String × ℕ)) : Type 0 where
  tight : (topic : String) → IsTight (window rc topic)
  same :
      (topic : String) (x : ℕ) → seen (window rc topic) x ≡ (x == 0 || elem x (numbers topic log))
  once : (topic : String) → NoRepeat (numbers topic log)

new-Agree : Agree new []
unfolding new cursor beyond numbers lookup elem
new-Agree = record {
  tight = λ topic. record { cursor_fits = omega arith; gap = λ x e. absurd (cc e) };
  same = λ topic x. ground arith;
  once = λ topic. tt;
}

-- An accepted publish that was not received before keeps the agreement.
acknowledge_publish-Agree :
    (rc : Replay) (log : List (String × ℕ)) (topic : String) (seq : ℕ)
    → seq < 2 ^ 32
    → seen (window rc topic) seq ≡ false
    → Agree rc log
    → Agree (acknowledge_publish rc topic seq) ((topic, seq) ∷ log)
unfolding numbers elem
acknowledge_publish-Agree rc log topic seq s fresh a = record {
  tight = λ j. rw (window-acknowledge_publish rc topic j seq) (elim (Bool-cases (topic == j)) [
    | inl same ↦ rw same (acknowledge_window-IsTight (window rc topic) seq s (a.tight topic))
    | inr other ↦ rw other (a.tight j)
  ]);
  same = λ j x.
      ap (λ w. seen w x) (window-acknowledge_publish rc topic j seq)
      ∙ elim (Bool-cases (topic == j)) [
        | inl same ↦
            let here = (string_eq.beq_iff topic j).0 same in
            let known : seen (window rc topic) x ≡ (x == 0 || elem x (numbers j log)) =
              rw here (a.same j x) in
            rw same (
              acknowledge_window-seen (window rc topic) seq x s (a.tight topic)
              ∙ rw known (ground arith))
        | inr other ↦ rw other (a.same j x)
      ];
  once = λ j. elim (Bool-cases (topic == j)) [
    | inl same ↦
        let here = (string_eq.beq_iff topic j).0 same in
        let old : (seq == 0 || elem seq (numbers j log)) ≡ false =
          sym (a.same j seq) ∙ rw (sym here) fresh in
        rw same (ground arith, a.once j)
    | inr other ↦ rw other (a.once j)
  ];
}

-- The stream id of a decoded frame is a uint32.
abbrev pub Fits : Frame × Bool → Type 0
Fits (frame, accepts) = frame.header.stream_id < 2 ^ 32

decode_publish-fits :
    (unmarshal : Unmarshal) (frame : Frame) (topic : String) (seq : ℕ)
    → decode_publish unmarshal frame ≡ some (topic, seq)
    → frame.header.stream_id < 2 ^ 32
    → seq < 2 ^ 32
unfolding decode_publish
decode_publish-fits unmarshal frame topic seq e h = ground (arith, e, h)

handle_acknowledged-Agree :
    (unmarshal : Unmarshal) (rc : Replay) (log : List (String × ℕ)) (frame : Frame) (accepts : Bool)
    → frame.header.stream_id < 2 ^ 32
    → Agree rc log
    → Agree (handle_acknowledged unmarshal rc frame accepts).0 (
        log_of
          (decode_publish unmarshal frame)
          ((handle_acknowledged unmarshal rc frame accepts).1 && accepts)
          log)
unfolding on_publish
handle_acknowledged-Agree unmarshal rc log frame accepts h a =
    elim (Option-cases (decode_publish unmarshal frame)) [
      | inl e ↦ rw e a
      | inr ((topic, seq), e) ↦ rw e (elim (Bool-cases (should_deliver_publish rc topic seq)) [
        | inr skip ↦ rw skip a
        | inl deliver ↦ rw deliver (elim (Bool-cases accepts) [
          | inr refused ↦ rw refused a
          | inl taken ↦ rw taken (
              acknowledge_publish-Agree rc log topic seq
                (decode_publish-fits unmarshal frame topic seq e h)
                (ground (arith, should_deliver-seen rc topic seq)) a)
        ])
      ])
    ]

run-Agree :
    (unmarshal : Unmarshal) (rc : Replay) (log : List (String × ℕ)) (frames : List (Frame × Bool))
    → All Fits frames
    → Agree rc log
    → Agree (run unmarshal rc log frames).0 (run unmarshal rc log frames).1
unfolding run
run-Agree unmarshal rc log [] fits a = a
run-Agree unmarshal rc log ((frame, accepts) ∷ frames) (fit, fits) a =
    let step = handle_acknowledged unmarshal rc frame accepts in
    run-Agree unmarshal step.0 (log_of (decode_publish unmarshal frame) (step.1 && accepts) log)
      frames fits (handle_acknowledged-Agree unmarshal rc log frame accepts fit a)

history-Agree :
    (unmarshal : Unmarshal) (frames : List (Frame × Bool))
    → All Fits frames
    → Agree (run unmarshal new [] frames).0 (run unmarshal new [] frames).1
history-Agree unmarshal frames fits = run-Agree unmarshal new [] frames fits new-Agree

-- Over any history of frames whose stream ids are uint32, from a new client: the callback accepts
-- no publish of a topic twice, a publish is delivered exactly if its number is not zero and the
-- callback has not accepted it, and every number from 1 to the topic's cursor was accepted.
pub accepted_exactly_once :
    (unmarshal : Unmarshal) (frames : List (Frame × Bool))
    → All Fits frames
    → (topic : String)
    → let (rc, log) = run unmarshal new [] frames in
      NoRepeat (numbers topic log)
      × ((seq : ℕ)
          → should_deliver_publish rc topic seq ≡ not (seq == 0 || elem seq (numbers topic log)))
      × ((seq : ℕ)
          → 0 < seq
          → seq ≤ or_zero (lookup topic (snapshot_cursors rc))
          → elem seq (numbers topic log) ≡ true)
unfolding snapshot_cursors
accepted_exactly_once unmarshal frames fits topic =
    let (rc, log) = run unmarshal new [] frames in
    let a : Agree rc log = history-Agree unmarshal frames fits in
    (
      a.once topic,
      λ seq. should_deliver-seen rc topic seq ∙ ap not (a.same topic seq),
      λ seq pos le. unfold cursor in ground (arith, a.same topic seq),
    )
