-- ===== src/Proto/Stream/Endless.antt =====
-- pkg/proto/stream.go: fragments without a byte.
use simple_go_server.Common.{
  ℕ, zero, suc, ◌+◌, ◌-◌, ◌≤◌, ◌≡◌, refl, ap, ◌∙◌, List, [], ◌∷◌, ◌++◌, append-nil, append_assoc,
  arith, nat_eq, string_eq, length, length-append,
}
use simple_go_server.Proto.{FrameType, ReadError, ok, max_frame_size}
use simple_go_server.Proto.Codec.Bytes.{IsUint32}
use simple_go_server.Proto.Stream.{
  flag_more, max_stream_size, assemble, decode_streamed, encode_frame_into, concat,
}
use simple_go_server.Proto.Stream.Fragments.{
  fragment, decode_frame-fragment, assemble-suc, decode_streamed-first, length-encode_frame_into,
}

-- The bytes of `n` fragments without a payload, each followed by more.
unfoldable pub empty_fragments : ℕ → FrameType → ℕ → List (List ℕ)
empty_fragments zero t stream_id = []
empty_fragments (suc n) t stream_id =
    encode_frame_into t stream_id [] flag_more ∷ empty_fragments n t stream_id

-- The loop stands behind them as it stood before.
assemble-empty_fragments :
    (n fuel stream_id : ℕ) (t : FrameType) (buf rest : List ℕ) (e : ReadError)
    → IsUint32 stream_id
    → length buf ≤ max_stream_size
    → assemble
        (n + fuel)
        stream_id
        t
        buf
        (record { bytes = concat (empty_fragments n t stream_id) ++ rest; ending = e })
      ≡ assemble fuel stream_id t buf (record { bytes = rest; ending = e })
unfolding empty_fragments concat
assemble-empty_fragments zero fuel stream_id t buf rest e s h =
    let none_read : 0 + fuel ≡ fuel = omega arith in rw none_read refl
assemble-empty_fragments (suc n) fuel stream_id t buf rest e s h =
    let more = concat (empty_fragments n t stream_id) in
    let first = encode_frame_into t stream_id [] flag_more in
    let read = decode_frame-fragment t stream_id [] flag_more (more ++ rest) e s (omega arith) in
    let one_round : suc n + fuel ≡ suc (n + fuel) = omega arith in
    rw (append_assoc first more rest, one_round)
      (assemble-suc (n + fuel) buf _ (fragment t stream_id [] flag_more) _ read
          (rw (append-nil buf) h)
        ∙ rw (append-nil buf) (assemble-empty_fragments n fuel stream_id t buf rest e s h))

length-empty_fragments :
    (n : ℕ) (t : FrameType) (stream_id : ℕ) → n ≤ length (concat (empty_fragments n t stream_id))
unfolding empty_fragments concat
length-empty_fragments zero t stream_id = omega arith
length-empty_fragments (suc n) t stream_id = omega (
  arith,
  length-append (encode_frame_into t stream_id [] flag_more)
      (concat (empty_fragments n t stream_id)),
  length-encode_frame_into t stream_id [] flag_more,
  length-empty_fragments n t stream_id,
)

-- A message of two fragments that fit a frame each, with any number of fragments without a payload
-- between them, which are marked as followed by more: the receiver reads all of them in one message,
-- without an error, and returns the two payloads, however many empty fragments came.
pub empty_fragments_pass :
    (n : ℕ) (t : FrameType) (stream_id : ℕ) (front back after : List ℕ) (e : ReadError)
    → IsUint32 stream_id
    → length front ≤ max_frame_size
    → length back ≤ max_frame_size
    → decode_streamed (record {
      bytes =
          encode_frame_into t stream_id front flag_more
          ++ (concat (empty_fragments n t stream_id)
              ++ (encode_frame_into t stream_id back 0 ++ after));
      ending = e;
    })
      ≡ (ok (fragment t stream_id (front ++ back) 0), record { bytes = after; ending = e })
empty_fragments_pass n t stream_id front back after e s h k =
    let first = encode_frame_into t stream_id front flag_more in
    let empties = concat (empty_fragments n t stream_id) in
    let last = encode_frame_into t stream_id back 0 in
    let read =
      decode_frame-fragment t stream_id front flag_more (empties ++ (last ++ after)) e s h in
    let ended = decode_frame-fragment t stream_id back 0 after e s k in
    let all = first ++ (empties ++ (last ++ after)) in
    let fuel = length all - (n + 1) in
    let enough : length all ≡ n + suc fuel = omega (
      arith,
      length-append first (empties ++ (last ++ after)),
      length-append empties (last ++ after),
      length-encode_frame_into t stream_id front flag_more,
      length-empty_fragments n t stream_id,
    ) in
    let fits : length (front ++ back) ≤ max_stream_size =
      omega (arith, length-append front back, h, k) in
    decode_streamed-first _ (fragment t stream_id front flag_more) _ read
    ∙ ap
        (λ f.
          assemble f stream_id t front (record { bytes = empties ++ (last ++ after); ending = e }))
        enough
    ∙ assemble-empty_fragments n (suc fuel) stream_id t front (last ++ after) e s (omega (arith, h))
    ∙ assemble-suc fuel front _ (fragment t stream_id back 0) _ ended fits
