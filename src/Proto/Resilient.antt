-- ===== src/Proto/Resilient.antt =====
-- pkg/proto/resilient.go: the replay bookkeeping of the client. Each method holds the mutex for its
-- body. Sequence numbers are uint64, and come from stream ids, which are uint32.
pub mod Window
pub mod ExactlyOnce
use simple_go_server.Common.{
  ℕ, zero, suc, ◌+◌, ◌-◌, ◌*◌, ◌/◌, ◌%◌, ◌^◌, ◌≤◌, ◌<◌, min, String, ◌≡◌, refl, sym, ap, ◌∙◌, subst,
  ◌≢◌, ◌↔◌, ◌⊎◌, inl, inr, Bool, true, false, not, ◌&&◌, ◌||◌, Option, none, some, List, [], ◌∷◌,
  ◌++◌, map, append-nil, append_assoc, arith, ltb, leb, if◌then◌else◌, Eq, ◌==◌, nat_eq, string_eq,
  nat_beq_iff, beq_refl, Bool-cases, Option-cases, length, get_elem?, get_or, take, drop, All,
  length-append, length-take, length-drop, take-append-drop, take-length-append, drop-length-append,
  get_elem?-lt, lt_of_get_elem?, All-append, All-get, take_all, drop_all,
}
use simple_go_server.Common.Dict.{
  Dict, lookup, insert, delete, or_zero, or_empty, elem, add, remove,
}
use simple_go_server.Proto.{Frame, publish}
use simple_go_server.Proto.Message.{JsonMessage, Unmarshal, decode_json_message}

pub record Replay : Type 0 where
  pub subscribed : List String
  pub cursors : Dict String ℕ
  pub accepted : Dict String (List ℕ)

unfoldable pub new : Replay
new = record { subscribed = []; cursors = []; accepted = [] }

unfoldable pub cursor : Replay → String → ℕ
cursor rc topic = or_zero (lookup topic rc.cursors)

unfoldable pub beyond : Replay → String → List ℕ
beyond rc topic = or_empty (lookup topic rc.accepted)

abbrev pub next_seq : ℕ → ℕ
next_seq seq = (seq + 1) % 2 ^ 64

unfoldable pub set_publish_cursor : Replay → String → ℕ → Replay
set_publish_cursor rc topic seq =
    if ltb (cursor rc topic) seq then record rc { cursors = insert topic seq rc.cursors } else rc

unfoldable pub should_deliver_publish : Replay → String → ℕ → Bool
should_deliver_publish rc topic seq =
    if leb seq (cursor rc topic) then false else not (elem seq (beyond rc topic))

-- The loop of `acknowledgePublish`. A round takes a number out of the set, so as many rounds as
-- the set has are enough.
unfoldable pub advance : ℕ → ℕ → List ℕ → ℕ × List ℕ
advance zero seq pending = (seq, pending)
advance (suc fuel) seq pending =
    let rest = advance fuel (next_seq seq) (remove (next_seq seq) pending) in
    if elem (next_seq seq) pending then rest else (seq, pending)

-- What `acknowledgePublish` does to the cursor and the accepted set of one topic.
unfoldable pub acknowledge_window : ℕ × List ℕ → ℕ → ℕ × List ℕ
acknowledge_window (cursor, pending) seq =
    if leb seq cursor
    then (cursor, pending)
    else if not (seq == next_seq cursor)
    then (cursor, add seq pending)
    else advance (length pending) seq pending

abbrev pub is_empty : List ℕ → Bool
is_empty [] = true
is_empty (x ∷ xs) = false

unfoldable pub acknowledge_publish : Replay → String → ℕ → Replay
acknowledge_publish rc topic seq =
    let (seq', pending) = acknowledge_window (cursor rc topic, beyond rc topic) seq in
    if leb seq (cursor rc topic)
    then rc
    else if not (seq == next_seq (cursor rc topic))
    then record rc { accepted = insert topic pending rc.accepted }
    else record rc {
      cursors = insert topic seq' rc.cursors;
      accepted =
          if is_empty pending then delete topic rc.accepted else insert topic pending rc.accepted;
    }

-- `snapshotCursors`: the table itself, since a copy of a value is that value.
unfoldable pub snapshot_cursors : Replay → Dict String ℕ
snapshot_cursors rc = rc.cursors

-- What `Subscribe` records once the server has answered with its last sequence number.
unfoldable pub align_replay_state : Replay → String → ℕ → Replay
align_replay_state rc topic last_seq =
    if ltb last_seq (cursor rc topic)
    then record rc {
      cursors = insert topic last_seq rc.cursors;
      accepted = delete topic rc.accepted;
    }
    else rc

unfoldable pub subscribed_to : Replay → String → ℕ → Replay
subscribed_to rc topic last_seq =
    align_replay_state (record rc { subscribed = add topic rc.subscribed }) topic last_seq

-- What `Unsubscribe` forgets once the server has answered.
unfoldable pub unsubscribed_from : Replay → String → Replay
unsubscribed_from rc topic = record rc {
  subscribed = remove topic rc.subscribed;
  cursors = delete topic rc.cursors;
  accepted = delete topic rc.accepted;
}

-- The topic and sequence number of a publish frame.
unfoldable pub decode_publish : Unmarshal → Frame → Option (String × ℕ)
decode_publish unmarshal frame =
    if not (frame.header.frame_type == publish)
    then none
    else elim (decode_json_message unmarshal frame) [
      | none ↦ none
      | some msg ↦ some (msg.action, frame.header.stream_id)
    ]

-- The handler of `NewAcknowledgedResilientClient` on what `decodePublish` made of the frame.
-- `accepts` is the answer of the application's callback; the flag tells whether it was asked.
-- One step here: the code releases the mutex while it asks, so that two frames of one number, off an
-- old connection and a new one, could both be asked for.
unfoldable pub on_publish : Replay → Option (String × ℕ) → Bool → Replay × Bool
on_publish rc none accepts = (rc, false)
on_publish rc (some (topic, seq)) accepts =
    if should_deliver_publish rc topic seq
    then (if accepts then acknowledge_publish rc topic seq else rc, true)
    else (rc, false)

abbrev pub handle_acknowledged : Unmarshal → Replay → Frame → Bool → Replay × Bool
handle_acknowledged unmarshal rc frame accepts =
    on_publish rc (decode_publish unmarshal frame) accepts

-- The handler of `NewResilientClient`, which passes every frame on.
unfoldable pub handle_plain : Unmarshal → Replay → Frame → Replay
handle_plain unmarshal rc frame = elim (decode_publish unmarshal frame) [
  | none ↦ rc
  | some (topic, seq) ↦ set_publish_cursor rc topic seq
]
