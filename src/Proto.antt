-- ===== src/Proto.antt =====
-- pkg/proto: what its parts share, the frames of frame.go and the errors that the package returns.
mod Tests
pub mod Reader
pub mod Codec
pub mod Stream
pub mod Message
pub mod Client
pub mod Pool
pub mod Reconnect
pub mod Resilient
pub mod Server
use simple_go_server.Common.{
  ℕ, zero, suc, ◌+◌, ◌-◌, ◌*◌, ◌/◌, ◌%◌, ◌^◌, ◌≤◌, ◌<◌, min, String, ◌≡◌, refl, sym, ap, ◌∙◌, subst,
  ◌≢◌, ◌↔◌, ◌⊎◌, inl, inr, Bool, true, false, not, ◌&&◌, ◌||◌, Option, none, some, List, [], ◌∷◌,
  ◌++◌, map, append-nil, append_assoc, arith, ltb, leb, if◌then◌else◌, Eq, ◌==◌, nat_eq, string_eq,
  nat_beq_iff, beq_refl, Bool-cases, Option-cases, get_elem?, get_or, take, drop, All,
  length-append, length-take, length-drop, take-append-drop, take-length-append, drop-length-append,
  get_elem?-lt, lt_of_get_elem?, All-append, All-get,
}
use simple_go_server.Common.Int.{ℤ}

-- `FrameType` is a uint8, and a peer may send any of the 256.
abbrev pub FrameType : Type 0
FrameType = ℕ

abbrev pub request : FrameType
request = 0

abbrev pub response : FrameType
response = 1

abbrev pub publish : FrameType
publish = 2

abbrev pub subscribe : FrameType
subscribe = 3

abbrev pub unsubscribe : FrameType
unsubscribe = 4

abbrev pub ping : FrameType
ping = 5

abbrev pub pong : FrameType
pong = 6

abbrev pub close : FrameType
close = 7

abbrev pub hello : FrameType
hello = 8

abbrev pub header_size : ℕ
header_size = 10

abbrev pub max_frame_size : ℕ
max_frame_size = 2 ^ 20

-- `flags` is a uint8, `stream_id` a uint32, `length` an int32.
pub record FrameHeader : Type 0 where
  pub frame_type : FrameType
  pub flags : ℕ
  pub stream_id : ℕ
  pub length : ℤ

-- The fields that serve the buffer pools are left out.
pub record Frame : Type 0 where
  pub header : FrameHeader
  pub payload : List ℕ

-- How a read ends that did not get all it asked for.
pub data ReadError : Type 0 where
  eof unexpected_eof deadline_exceeded failed : ReadError

pub data Error : Type 0 where
  frame_empty stream_too_large : Error
  frame_too_large : ℤ → Error
  short_header : ℕ → Error
  read : ReadError → Error
  truncated : ℕ → ℤ → ReadError → Error
  fragment_stream_id fragment_type : ℕ → ℕ → Error

-- Go's (value, error) pair. `stuck` is no Go value: the model of a loop ran out of fuel.
pub data Result {ℓ} (A : Type ℓ) : Type ℓ where
  ok : A → Result A
  err : Error → Result A
  stuck : Result A
