-- ===== src/Proto/Client.antt =====
-- pkg/proto/client.go: the calls that wait for responses on one connection. Each action is a piece of
-- a method that other goroutines see as one step: a critical section, a write, a send or a receive.
-- Calls are numbered as they enter the critical section of roundTrip; the local variables `id` and
-- `ch` of a call are its `ids` and its channel of the same number. A frame comes from DecodeStreamed.
pub mod Runs
pub mod Own
pub mod Steps
pub mod Replies
pub mod Stranded
pub mod Waiting
pub mod Table
pub mod Releasing
pub mod Ending
pub mod Tests
use simple_go_server.Common.{
  ℕ, zero, suc, ◌+◌, ◌-◌, ◌*◌, ◌/◌, ◌%◌, ◌^◌, ◌≤◌, ◌<◌, min, String, ◌≡◌, refl, sym, ap, ◌∙◌, subst,
  ◌≢◌, ◌↔◌, ◌⊎◌, inl, inr, Bool, true, false, not, ◌&&◌, ◌||◌, Option, none, some, List, [], ◌∷◌,
  ◌++◌, map, append-nil, append_assoc, arith, ltb, leb, if◌then◌else◌, Eq, ◌==◌, nat_eq, string_eq,
  nat_beq_iff, beq_refl, Bool-cases, Option-cases, length, get_elem?, get_or, take, drop, All,
  length-append, length-take, length-drop, take-append-drop, take-length-append, drop-length-append,
  get_elem?-lt, lt_of_get_elem?, All-append, All-get, take_all, drop_all,
}
use simple_go_server.Common.Dict.{Dict, lookup, insert, delete}
use simple_go_server.Proto.{Frame, response, pong}
use simple_go_server.Proto.Message.{Unmarshal, decode_json_message}

-- What encoding/json does for a client: the envelope of a message, the field `error` of an
-- ErrorMessage (none if the bytes are no such object), and the text of a failure.
pub record Json : Type 0 where
  pub unmarshal : Unmarshal
  pub probe : List ℕ → Option String
  pub failure : String

pub record Response : Type 0 where
  pub action : String
  pub content : List ℕ
  pub error : Option String

abbrev pub is_ok : Response → Bool
is_ok r = elim r.error [ none ↦ true | some text ↦ false ]

-- What a call makes of the bytes of a response that are not empty.
abbrev pub with_content : Json → String → List ℕ → Response
with_content json action content = elim (json.probe content) [
  | none ↦ record { action = action; content = content; error = none }
  | some text ↦
      if text == ""
      then record { action = action; content = content; error = none }
      else record { action = action; content = []; error = some text }
]

unfoldable pub response_of : Json → Frame → Response
response_of json frame = elim (decode_json_message json.unmarshal frame) [
  | none ↦ record { action = ""; content = []; error = some json.failure }
  | some msg ↦
      if length msg.content == 0
      then record { action = msg.action; content = []; error = none }
      else with_content json msg.action msg.content
]

-- `chan *Response` of capacity one, with one send or one close at most.
pub data Channel : Type 0 where
  empty shut : Channel
  filled : Response → Channel

pub data CallError : Type 0 where
  encode_failed write_failed timed_out pending_closed : CallError

-- Where a call is in roundTrip. The flag says whether its timeout is over zero.
pub data Phase : Type 0 where
  writing waiting : Bool → Phase
  dropping : CallError → Phase
  answered : Response → Phase
  failed : CallError → Phase

-- Where the read loop is: at DecodeStreamed, before the send of resolvePending, between failPending
-- and Close, or at its end.
pub data Reader : Type 0 where
  reading : Reader
  delivering : ℕ → Response → Reader
  failing : Reader
  ended : Reader

-- `entered` goroutines have passed the first test of roundTrip and wait for the lock.
pub record Client : Type 0 where
  pub next_id : ℕ
  pub pending : Dict ℕ ℕ
  pub closed : Bool
  pub entered : ℕ
  pub calls : ℕ
  pub ids : ℕ → ℕ
  pub phases : ℕ → Phase
  pub channels : ℕ → Channel
  pub reader : Reader

abbrev pub new_client : Client
new_client = record {
  next_id = 0;
  pending = [];
  closed = false;
  entered = 0;
  calls = 0;
  ids = λ k. 0;
  phases = λ k. failed pending_closed;
  channels = λ k. empty;
  reader = reading;
}

abbrev pub set {ℓ} : {A : Type ℓ} → (ℕ → A) → ℕ → A → ℕ → A
set f k value j = if j == k then value else f j

-- failPending: `close(ch)` for each entry.
unfoldable pub close_all : Dict ℕ ℕ → (ℕ → Channel) → ℕ → Channel
close_all [] channels = channels
close_all ((id, ch) ∷ rest) channels = close_all rest (set channels ch shut)

pub data Action : Type 0 where
  enter : Action
  -- The flags: whether the timeout is over zero, and whether the request encodes.
  register : Bool → Bool → Action
  -- The flag: whether the write succeeds.
  write : ℕ → Bool → Action
  drop_pending receive time_out : ℕ → Action
  take_frame : Frame → Action
  deliver fail_pending end_loop close_client : Action

abbrev pub is_reply : Frame → Bool
is_reply frame = (frame.header.frame_type == response) || (frame.header.frame_type == pong)

module _ (s : Client) where
  abbrev pub with_phase : ℕ → Phase → Client
  with_phase k phase = record s { phases = set s.phases k phase }

  -- The critical section of roundTrip.
  abbrev pub registered : Bool → Bool → Client
  registered timed encodes =
      let id = (s.next_id + 1) % 2 ^ 32 in
      record s {
        next_id = id;
        entered = s.entered - 1;
        calls = s.calls + 1;
        ids = set s.ids s.calls id;
        channels = set s.channels s.calls empty;
        pending = insert id s.calls s.pending;
        phases = set s.phases s.calls (if encodes then writing timed else dropping encode_failed);
      }

  unfoldable pub write_step : ℕ → Bool → Phase → Option Client
  write_step k sent (writing timed) =
      some (with_phase k (if sent then waiting timed else dropping write_failed))
  write_step k sent phase = none

  unfoldable pub drop_step : ℕ → Phase → Option Client
  drop_step k (dropping e) =
      some record s { pending = delete (s.ids k) s.pending; phases = set s.phases k (failed e) }
  drop_step k phase = none

  unfoldable pub receive_step : ℕ → Phase → Channel → Option Client
  receive_step k (waiting timed) (filled r) = some (with_phase k (answered r))
  receive_step k (waiting timed) shut = some (with_phase k (failed pending_closed))
  receive_step k phase channel = none

  unfoldable pub time_out_step : ℕ → Phase → Option Client
  time_out_step k (waiting true) = some (with_phase k (dropping timed_out))
  time_out_step k phase = none

  -- resolvePending up to its send.
  unfoldable pub resolve_pending : Json → Frame → Client
  resolve_pending json frame = elim (lookup frame.header.stream_id s.pending) [
    | none ↦ s
    | some ch ↦ record s {
      pending = delete frame.header.stream_id s.pending;
      reader = delivering ch (response_of json frame);
    }
  ]

  -- The read loop. A frame that is no reply goes to the event handler.
  unfoldable pub take_step : Json → Frame → Reader → Option Client
  take_step json frame reading = some (if is_reply frame then resolve_pending json frame else s)
  take_step json frame reader = none

  unfoldable pub deliver_step : Reader → Option Client
  deliver_step (delivering ch r) =
      some record s { channels = set s.channels ch (filled r); reader = reading }
  deliver_step reader = none

  unfoldable pub fail_step : Reader → Option Client
  fail_step reading =
      some record s { channels = close_all s.pending s.channels; pending = []; reader = failing }
  fail_step reader = none

  unfoldable pub end_step : Reader → Option Client
  end_step failing = some record s { closed = true; reader = ended }
  end_step reader = none

-- `none`: the action is not the next of its goroutine.
unfoldable pub act : Json → Action → Client → Option Client
act json enter s = some (if s.closed then s else record s { entered = s.entered + 1 })
act json (register timed encodes) s =
    if s.entered == 0 then none else some (registered s timed encodes)
act json (write k sent) s = write_step s k sent (s.phases k)
act json (drop_pending k) s = drop_step s k (s.phases k)
act json (receive k) s = receive_step s k (s.phases k) (s.channels k)
act json (time_out k) s = time_out_step s k (s.phases k)
act json (take_frame frame) s = take_step s json frame s.reader
act json deliver s = deliver_step s s.reader
act json fail_pending s = fail_step s s.reader
act json end_loop s = end_step s s.reader
act json close_client s = some record s { closed = true }

unfoldable pub run : Json → List Action → Client → Option Client
run json [] s = some s
run json (a ∷ rest) s = elim (act json a s) [ none ↦ none | some t ↦ run json rest t ]
