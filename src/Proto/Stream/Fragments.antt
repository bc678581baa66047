-- ===== src/Proto/Stream/Fragments.antt =====
-- One fragment, and one round of the loop that reads it.
use simple_go_server.Common.{
  ℕ, zero, suc, ◌+◌, ◌%◌, ◌^◌, ◌≤◌, ◌<◌, ◌≡◌, List, [], ◌∷◌, ◌++◌, append_assoc, arith, ltb,
  if◌then◌else◌, nat_eq, string_eq, length, take, drop, length-append, length-take, length-drop,
}
use simple_go_server.Common.Int.{pos}
use simple_go_server.Proto.{FrameType, Frame, ReadError, ok, max_frame_size}
use simple_go_server.Proto.Reader.{Reader}
use simple_go_server.Proto.Codec.{to_int32, encode_header, decode_frame}
use simple_go_server.Proto.Codec.Bytes.{IsUint32, length-encode_header}
use simple_go_server.Proto.Codec.RoundTrip.{IsFrame, decode_frame-append}
use simple_go_server.Proto.Stream.{
  flag_more, max_stream_size, more_follow, assemble, decode_streamed, encode_frame_into, fragments,
  concat,
}

pub to_int32-small : (n : ℕ) → n ≤ max_stream_size → to_int32 (n % 2 ^ 32) ≡ pos n
unfolding to_int32
to_int32-small n h = ground arith

abbrev pub fragment : FrameType → ℕ → List ℕ → ℕ → Frame
fragment t stream_id payload flags = record {
  header = record {
    frame_type = t;
    flags = flags;
    stream_id = stream_id;
    length = to_int32 (length payload % 2 ^ 32);
  };
  payload = payload;
}

pub fragment-IsFrame :
    (t : FrameType) (stream_id : ℕ) (payload : List ℕ) (flags : ℕ)
    → IsUint32 stream_id
    → length payload ≤ max_frame_size
    → IsFrame (fragment t stream_id payload flags)
fragment-IsFrame t stream_id payload flags s h =
    let n = to_int32-small (length payload) (omega arith) in
    record {
      header = record { stream_id = s; size = length payload; length = n; fits = h };
      announced = n;
    }

-- An encoded fragment is read back as that fragment.
pub decode_frame-fragment :
    (t : FrameType) (stream_id : ℕ) (payload : List ℕ) (flags : ℕ) (rest : List ℕ) (e : ReadError)
    → IsUint32 stream_id
    → length payload ≤ max_frame_size
    → decode_frame
        (record { bytes = encode_frame_into t stream_id payload flags ++ rest; ending = e })
      ≡ (ok (fragment t stream_id payload flags), record { bytes = rest; ending = e })
unfolding encode_frame_into
decode_frame-fragment t stream_id payload flags rest e s h =
    let f = fragment t stream_id payload flags in
    rw (append_assoc (encode_header f.header) payload rest)
      (decode_frame-append f rest e (fragment-IsFrame t stream_id payload flags s h))

-- A round that reads a frame of the same message, within the limit.
pub assemble-suc :
    (fuel : ℕ) (buf : List ℕ) (r : Reader) (f : Frame) (r' : Reader)
    → decode_frame r ≡ (ok f, r')
    → length (buf ++ f.payload) ≤ max_stream_size
    → assemble (suc fuel) f.header.stream_id f.header.frame_type buf r ≡ (
        if more_follow f
        then assemble fuel f.header.stream_id f.header.frame_type (buf ++ f.payload) r'
        else (ok (fragment f.header.frame_type f.header.stream_id (buf ++ f.payload) 0), r'))
unfolding assemble
assemble-suc fuel buf r f r' e h = ground arith

-- The first frame of a message.
pub decode_streamed-first :
    (r : Reader) (f : Frame) (r' : Reader)
    → decode_frame r ≡ (ok f, r')
    → decode_streamed r ≡ (
        if more_follow f
        then assemble (length r.bytes) f.header.stream_id f.header.frame_type f.payload r'
        else (ok f, r'))
unfolding decode_streamed
decode_streamed-first r f r' e = ground arith

pub length-encode_frame_into :
    (t : FrameType) (stream_id : ℕ) (payload : List ℕ) (flags : ℕ)
    → length (encode_frame_into t stream_id payload flags) ≡ 10 + length payload
unfolding encode_frame_into
length-encode_frame_into t stream_id payload flags =
    let f = fragment t stream_id payload flags in
    rw length-append (omega (arith, length-encode_header f.header))

-- The fragments carry all of the payload.
pub length-concat-fragments :
    (fuel : ℕ) (t : FrameType) (stream_id threshold : ℕ) (payload : List ℕ)
    → 0 < threshold
    → length payload ≤ fuel
    → length payload ≤ length (concat (fragments fuel t stream_id threshold payload))
unfolding fragments concat
length-concat-fragments fuel t stream_id threshold [] h k = omega arith
length-concat-fragments zero t stream_id threshold (b ∷ bs) h k = absurd (omega arith)
length-concat-fragments (suc fuel) t stream_id threshold (b ∷ bs) h k =
    let flags = if ltb threshold (length (b ∷ bs)) then flag_more else 0 in
    let front = take threshold (b ∷ bs) in
    rw length-append (
      omega (
        arith,
        length-encode_frame_into t stream_id front flags,
        length-take threshold (b ∷ bs),
        length-drop threshold (b ∷ bs),
        length-concat-fragments fuel t stream_id threshold (drop threshold (b ∷ bs)) h
            (omega (arith, length-drop threshold (b ∷ bs))),
      ))
