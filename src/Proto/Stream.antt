-- ===== src/Proto/Stream.antt =====
-- pkg/proto/stream.go, on the path that uses no buffer pool.
pub mod Fragments
pub mod RoundTrip
pub mod Bounds
pub mod Endless
pub mod Oversize
use Prim.Native.Nat.{bit_and}
use simple_go_server.Common.{
  ℕ, zero, suc, ◌+◌, ◌-◌, ◌*◌, ◌/◌, ◌%◌, ◌^◌, ◌≤◌, ◌<◌, min, String, ◌≡◌, refl, sym, ap, ◌∙◌, subst,
  ◌≢◌, ◌↔◌, ◌⊎◌, inl, inr, Bool, true, false, not, ◌&&◌, ◌||◌, Option, none, some, List, [], ◌∷◌,
  ◌++◌, map, append-nil, append_assoc, arith, ltb, leb, if◌then◌else◌, Eq, ◌==◌, nat_eq, string_eq,
  nat_beq_iff, beq_refl, Bool-cases, Option-cases, length, get_elem?, get_or, take, drop, All,
  length-append, length-take, length-drop, take-append-drop, take-length-append, drop-length-append,
  get_elem?-lt, lt_of_get_elem?, All-append, All-get,
}
use simple_go_server.Common.Int.{ℤ, pos, negsuc, pos_part, ltb_ℤ, leb_ℤ}
use simple_go_server.Proto.{
  FrameType, FrameHeader, Frame, Error, Result, ok, err, stuck, stream_too_large,
  fragment_stream_id, fragment_type, max_frame_size,
}
use simple_go_server.Proto.Reader.{Reader}
use simple_go_server.Proto.Codec.{to_int32, encode_header, encode, new_frame, decode_frame}

abbrev pub flag_more : ℕ
flag_more = 0x01

abbrev pub max_stream_size : ℕ
max_stream_size = 8 * 2 ^ 20

abbrev pub default_stream_threshold : ℤ
default_stream_threshold = pos (2 ^ 20 - 64 * 1024)

-- Whether a frame is followed by more fragments: `Flags&FlagMore` is not 0.
abbrev pub more_follow : Frame → Bool
more_follow f = not (bit_and f.header.flags flag_more == 0)

-- The loop of `decodeStreamed`: `buf` is what the fragments so far add up to.
unfoldable pub assemble : ℕ → ℕ → FrameType → List ℕ → Reader → Result Frame × Reader
assemble zero stream_id t buf r = (stuck, r)
assemble (suc fuel) stream_id t buf r =
    let (res, r') = decode_frame r in
    elim res [
      | err e ↦ (err e, r')
      | stuck ↦ (stuck, r')
      | ok next ↦
          let buf' = buf ++ next.payload in
          let rest = assemble fuel stream_id t buf' r' in
          if not (next.header.stream_id == stream_id)
          then (err (fragment_stream_id next.header.stream_id stream_id), r')
          else if not (next.header.frame_type == t)
          then (err (fragment_type next.header.frame_type t), r')
          else if ltb max_stream_size (length buf')
          then (err stream_too_large, r')
          else if more_follow next
          then rest
          else (
            ok (record {
              header = record {
                frame_type = t;
                flags = 0;
                stream_id = stream_id;
                length = to_int32 (length buf' % 2 ^ 32);
              };
              payload = buf';
            }),
            r',
          )
    ]

-- Each round reads a header at least, so as many rounds as there are bytes are enough.
unfoldable pub decode_streamed : Reader → Result Frame × Reader
decode_streamed r =
    let (res, r') = decode_frame r in
    elim res [
      | err e ↦ (err e, r')
      | stuck ↦ (stuck, r')
      | ok frame ↦
          let rest =
            assemble (length r.bytes) frame.header.stream_id frame.header.frame_type frame.payload
              r' in
          if more_follow frame then rest else (ok frame, r')
    ]

-- `encodeFrameInto` with no pool.
unfoldable pub encode_frame_into : FrameType → ℕ → List ℕ → ℕ → List ℕ
encode_frame_into t stream_id payload flags =
    encode_header (record {
      frame_type = t;
      flags = flags;
      stream_id = stream_id;
      length = to_int32 (length payload % 2 ^ 32);
    })
    ++ payload

-- The loop of `encodeMessage` over `payload[offset:]`. A round takes a byte at least.
unfoldable pub fragments : ℕ → FrameType → ℕ → ℕ → List ℕ → List (List ℕ)
fragments fuel t stream_id threshold [] = []
fragments zero t stream_id threshold (b ∷ bs) = []
fragments (suc fuel) t stream_id threshold (b ∷ bs) =
    encode_frame_into t stream_id (take threshold (b ∷ bs))
      (if ltb threshold (length (b ∷ bs)) then flag_more else 0)
    ∷ fragments fuel t stream_id threshold (drop threshold (b ∷ bs))

unfoldable pub clamp : ℤ → ℕ
clamp threshold =
    if leb_ℤ threshold (pos 0) || ltb_ℤ (pos max_frame_size) threshold
    then max_frame_size
    else pos_part threshold

-- `encodeMessage` with no pool, and `encodeStreamFrames`: the encoded buffers.
unfoldable pub encode_message : FrameType → ℕ → List ℕ → ℤ → Result (List (List ℕ))
encode_message t stream_id payload threshold =
    let limit = clamp threshold in
    if leb (length payload) limit
    then elim (encode (new_frame t stream_id payload)) [
      | ok buf ↦ ok (buf ∷ [])
      | err e ↦ err e
      | stuck ↦ stuck
    ]
    else ok (fragments (length payload) t stream_id limit payload)

-- The bytes of several buffers, back to back: the loop of `FrameCodec.HandleWrite` that joins them.
unfoldable pub concat : List (List ℕ) → List ℕ
concat [] = []
concat (buf ∷ bufs) = buf ++ concat bufs
