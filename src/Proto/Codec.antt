-- ===== src/Proto/Codec.antt =====
-- pkg/proto/codec.go, on the path that uses no buffer pool. A byte slice is a list of numbers.
pub mod Bytes
pub mod RoundTrip
pub mod Bounds
pub mod Truncation
use simple_go_server.Common.{
  ℕ, zero, suc, ◌+◌, ◌-◌, ◌*◌, ◌/◌, ◌%◌, ◌^◌, ◌≤◌, ◌<◌, min, String, ◌≡◌, refl, sym, ap, ◌∙◌, subst,
  ◌≢◌, ◌↔◌, ◌⊎◌, inl, inr, Bool, true, false, not, ◌&&◌, ◌||◌, Option, none, some, List, [], ◌∷◌,
  ◌++◌, map, append-nil, append_assoc, arith, ltb, leb, if◌then◌else◌, Eq, ◌==◌, nat_eq, string_eq,
  nat_beq_iff, beq_refl, Bool-cases, Option-cases, length, get_elem?, get_or, take, drop, All,
  length-append, length-take, length-drop, take-append-drop, take-length-append, drop-length-append,
  get_elem?-lt, lt_of_get_elem?, All-append, All-get,
}
use simple_go_server.Common.Int.{ℤ, pos, negsuc, ltb_ℤ}
use simple_go_server.Proto.{
  FrameType, FrameHeader, Frame, ReadError, eof, unexpected_eof, deadline_exceeded, failed, Error,
  Result, ok, err, stuck, frame_empty, frame_too_large, short_header, read, truncated, header_size,
  max_frame_size,
}
use simple_go_server.Proto.Reader.{Reader, full, short, read_full}

-- Go's conversions between uint32 and int32.
unfoldable pub to_int32 : ℕ → ℤ
to_int32 w = if ltb w (2 ^ 31) then pos w else negsuc (2 ^ 32 - 1 - w)

unfoldable pub to_uint32 : ℤ → ℕ
to_uint32 (pos n) = n % 2 ^ 32
to_uint32 (negsuc n) = 2 ^ 32 - 1 - n % 2 ^ 32

-- `binary.BigEndian`.
unfoldable pub put_uint32 : ℕ → List ℕ
put_uint32 v = v / 2 ^ 24 % 256 ∷ v / 2 ^ 16 % 256 ∷ v / 2 ^ 8 % 256 ∷ v % 256 ∷ []

unfoldable pub uint32_at : List ℕ → ℕ → ℕ
uint32_at src i =
    get_or src i 0 * 2 ^ 24
    + get_or src (i + 1) 0 * 2 ^ 16
    + get_or src (i + 2) 0 * 2 ^ 8
    + get_or src (i + 3) 0

-- `EncodeHeaderTo`: the bytes that it writes.
unfoldable pub encode_header : FrameHeader → List ℕ
encode_header h =
    h.frame_type ∷ h.flags ∷ (put_uint32 h.stream_id ++ put_uint32 (to_uint32 h.length))

unfoldable pub new_frame : FrameType → ℕ → List ℕ → Frame
new_frame t stream_id payload = record {
  header = record {
    frame_type = t;
    flags = 0;
    stream_id = stream_id;
    length = to_int32 (length payload % 2 ^ 32);
  };
  payload = payload;
}

unfoldable pub encode : Frame → Result (List ℕ)
encode frame =
    if length frame.payload == 0
    then err frame_empty
    else if ltb max_frame_size (length frame.payload)
    then err (frame_too_large (pos (length frame.payload)))
    else ok (encode_header frame.header ++ frame.payload)

-- `parseHeaderInto` and `DecodeHeader`.
unfoldable pub decode_header : List ℕ → Result FrameHeader
decode_header src =
    let announced = to_int32 (uint32_at src 6) in
    if ltb (length src) header_size
    then err (short_header (length src))
    else if ltb_ℤ announced (pos 0) || ltb_ℤ (pos max_frame_size) announced
    then err (frame_too_large announced)
    else ok (record {
      frame_type = get_or src 0 0;
      flags = get_or src 1 0;
      stream_id = uint32_at src 2;
      length = announced;
    })

-- An end of the stream inside the header is reported like one before it.
abbrev pub header_error : ReadError → ReadError
header_error eof = eof
header_error unexpected_eof = eof
header_error deadline_exceeded = deadline_exceeded
header_error failed = failed

abbrev pub payload_error : ReadError → ReadError
payload_error eof = unexpected_eof
payload_error unexpected_eof = unexpected_eof
payload_error deadline_exceeded = deadline_exceeded
payload_error failed = failed

abbrev pub size_of : ℤ → ℕ
size_of (pos n) = n
size_of (negsuc n) = 0

-- The second half of `decodeFrame`: the payload of the announced length, which is not negative.
unfoldable pub decode_payload : FrameHeader → Reader → Result Frame × Reader
decode_payload h r =
    let (reading, r') = read_full (size_of h.length) r in
    (
      elim reading [
        | full payload ↦ ok (record { header = h; payload = payload })
        | short n e ↦ err (truncated n h.length (payload_error e))
      ],
      r',
    )

unfoldable pub decode_frame : Reader → Result Frame × Reader
decode_frame r =
    let (reading, r') = read_full header_size r in
    elim reading [
      | short n e ↦ (err (read (header_error e)), r')
      | full scratch ↦ elim (decode_header scratch) [
        | ok h ↦ decode_payload h r'
        | err e ↦ (err e, r')
        | stuck ↦ (stuck, r')
      ]
    ]
