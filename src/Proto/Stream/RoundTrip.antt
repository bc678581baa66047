-- ===== src/Proto/Stream/RoundTrip.antt =====
-- pkg/proto/stream.go: encodeMessage followed by decodeStreamed.
use simple_go_server.Common.{
  ℕ, zero, suc, ◌+◌, ◌≤◌, ◌<◌, ◌≡◌, refl, ap, ◌∙◌, inl, inr, true, false, List, [], ◌∷◌, ◌++◌,
  append-nil, append_assoc, arith, ltb, leb, nat_eq, string_eq, Bool-cases, length, take, drop,
  length-append, length-take, length-drop, take-append-drop, take_all, drop_all,
}
use simple_go_server.Common.Int.{ℤ, pos, negsuc}
use simple_go_server.Proto.{FrameType, Frame, ReadError, Result, ok, max_frame_size}
use native.Mathlib.Decide.{dec_lt}
use simple_go_server.Proto.Reader.{Reader}
use simple_go_server.Proto.Codec.{encode, new_frame, decode_frame}
use simple_go_server.Proto.Codec.Bytes.{IsUint32}
use simple_go_server.Proto.Stream.{
  flag_more, max_stream_size, assemble, encode_frame_into, fragments, concat, clamp, encode_message,
  decode_streamed,
}
use simple_go_server.Proto.Stream.Fragments.{
  fragment, decode_frame-fragment, assemble-suc, to_int32-small, length-concat-fragments,
  decode_streamed-first,
}

pub clamp_bounds : (threshold : ℤ) → (0 < clamp threshold) × (clamp threshold ≤ max_frame_size)
unfolding clamp
clamp_bounds (pos n) = ground arith
clamp_bounds (negsuc n) = ground arith

module _ (t : FrameType) (stream_id threshold : ℕ) (s : IsUint32 stream_id)
    (positive : 0 < threshold) (fits : threshold ≤ max_frame_size) (rest : List ℕ)
    (e : ReadError) where
  after : List ℕ → Result Frame × Reader
  after buf = (ok (fragment t stream_id buf 0), record { bytes = rest; ending = e })

  unfoldable pub wire : ℕ → List ℕ → Reader
  wire fuel payload = record {
    bytes = concat (fragments fuel t stream_id threshold payload) ++ rest;
    ending = e;
  }

  -- The first fragment of a payload that needs several, and the last one of any.
  pub decode_frame-more :
      (fuel : ℕ) (b : ℕ) (bs : List ℕ)
      → threshold < length (b ∷ bs)
      → decode_frame (wire (suc fuel) (b ∷ bs)) ≡ (
        ok (fragment t stream_id (take threshold (b ∷ bs)) flag_more),
        wire fuel (drop threshold (b ∷ bs)),
      )
  unfolding wire fragments concat
  decode_frame-more fuel b bs h =
      let front = take threshold (b ∷ bs) in
      let more : ltb threshold (length (b ∷ bs)) ≡ true = ground arith in
      rw
        (
          more,
          append_assoc (encode_frame_into t stream_id front flag_more)
              (concat (fragments fuel t stream_id threshold (drop threshold (b ∷ bs)))) rest,
        )
        (decode_frame-fragment t stream_id front flag_more
          (concat (fragments fuel t stream_id threshold (drop threshold (b ∷ bs))) ++ rest) e s
          (rw length-take (omega arith)))

  pub decode_frame-last :
      (fuel : ℕ) (b : ℕ) (bs : List ℕ)
      → length (b ∷ bs) ≤ threshold
      → decode_frame (wire (suc fuel) (b ∷ bs))
        ≡ (ok (fragment t stream_id (b ∷ bs) 0), record { bytes = rest; ending = e })
  unfolding wire fragments concat
  decode_frame-last fuel b bs h =
      let last : ltb threshold (length (b ∷ bs)) ≡ false = ground arith in
      rw
        (
          last,
          take_all threshold (b ∷ bs) h,
          drop_all threshold (b ∷ bs) h,
          append-nil (encode_frame_into t stream_id (b ∷ bs) 0),
        )
        (decode_frame-fragment t stream_id (b ∷ bs) 0 rest e s (omega arith))

  -- The loop, over what is left of the payload.
  assemble-fragments :
      (fuel rounds : ℕ) (payload buf : List ℕ)
      → 0 < length payload
      → length payload ≤ fuel
      → length payload ≤ rounds
      → length buf + length payload ≤ max_stream_size
      → assemble rounds stream_id t buf (wire fuel payload) ≡ after (buf ++ payload)
  unfolding after
  assemble-fragments fuel rounds [] buf h k l m = absurd (omega arith)
  assemble-fragments zero rounds (b ∷ bs) buf h k l m = absurd (omega arith)
  assemble-fragments (suc fuel) zero (b ∷ bs) buf h k l m = absurd (omega arith)
  assemble-fragments (suc fuel) (suc rounds) (b ∷ bs) buf h k l m =
      elim (dec_lt threshold (length (b ∷ bs))) [
        | yes p ↦
            let front = take threshold (b ∷ bs) in
            let back = drop threshold (b ∷ bs) in
            let size = length-drop threshold (b ∷ bs) in
            assemble-suc rounds buf (wire (suc fuel) (b ∷ bs))
              (fragment t stream_id front flag_more) (wire fuel back)
              (decode_frame-more fuel b bs p) (rw (length-append, length-take) (omega arith))
            ∙ assemble-fragments fuel rounds back (buf ++ front) (omega (arith, size))
                (omega (arith, size)) (omega (arith, size))
                (rw (length-append, size, length-take) (omega arith))
            ∙ ap after
                (append_assoc buf front back ∙ ap (◌++◌ buf) (take-append-drop threshold (b ∷ bs)))
        | no p ↦
            assemble-suc rounds buf (wire (suc fuel) (b ∷ bs)) (fragment t stream_id (b ∷ bs) 0)
              (record { bytes = rest; ending = e }) (decode_frame-last fuel b bs (omega arith))
              (rw length-append (omega arith))
      ]

pub fuel_enough :
    (t : FrameType) (stream_id threshold : ℕ) (payload rest : List ℕ)
    → 0 < threshold
    → length payload
      ≤ length (concat (fragments (length payload) t stream_id threshold payload) ++ rest)
fuel_enough t stream_id threshold payload rest h =
    rw length-append
      (omega (arith, length-concat-fragments (length payload) t stream_id threshold payload h))

-- What a receiver makes of a message of one frame.
single_round_trip :
    (t : FrameType) (stream_id : ℕ) (payload rest : List ℕ) (e : ReadError)
    → IsUint32 stream_id
    → length payload ≤ max_frame_size
    → decode_streamed
        (record { bytes = encode_frame_into t stream_id payload 0 ++ rest; ending = e })
      ≡ (ok (fragment t stream_id payload 0), record { bytes = rest; ending = e })
single_round_trip t stream_id payload rest e s h =
    decode_streamed-first _ (fragment t stream_id payload 0) _
      (decode_frame-fragment t stream_id payload 0 rest e s h)

-- And of one of several.
many_round_trip :
    (t : FrameType) (stream_id threshold : ℕ) (payload rest : List ℕ) (e : ReadError)
    → IsUint32 stream_id
    → 0 < threshold
    → threshold ≤ max_frame_size
    → threshold < length payload
    → length payload ≤ max_stream_size
    → decode_streamed (record {
      bytes = concat (fragments (length payload) t stream_id threshold payload) ++ rest;
      ending = e;
    })
      ≡ (ok (fragment t stream_id payload 0), record { bytes = rest; ending = e })
unfolding wire after
many_round_trip t stream_id threshold [] rest e s p f h m = absurd (omega arith)
many_round_trip t stream_id threshold (b ∷ bs) rest e s p f h m =
    let front = take threshold (b ∷ bs) in
    let back = drop threshold (b ∷ bs) in
    let size = length-drop threshold (b ∷ bs) in
    let enough = fuel_enough t stream_id threshold (b ∷ bs) rest p in
    decode_streamed-first (wire t stream_id threshold s p f rest e (length (b ∷ bs)) (b ∷ bs))
      (fragment t stream_id front flag_more)
      (wire t stream_id threshold s p f rest e (length bs) back)
      (decode_frame-more t stream_id threshold s p f rest e (length bs) b bs h)
    ∙ assemble-fragments t stream_id threshold s p f rest e (length bs)
        (length (concat (fragments (length (b ∷ bs)) t stream_id threshold (b ∷ bs)) ++ rest)) back
        front (omega (arith, size)) (omega (arith, size)) (omega (arith, size, enough))
        (rw (size, length-take) (omega arith))
    ∙ ap (after t stream_id threshold s p f rest e) (take-append-drop threshold (b ∷ bs))

-- The bytes of the single frame are those of a frame without flags.
encode-single :
    (t : FrameType) (stream_id : ℕ) (payload : List ℕ)
    → 0 < length payload
    → length payload ≤ max_frame_size
    → encode (new_frame t stream_id payload) ≡ ok (encode_frame_into t stream_id payload 0)
unfolding encode new_frame encode_frame_into
encode-single t stream_id payload h k = ground arith

-- Whatever the threshold: a message that is not empty, and not over the limit for streamed messages,
-- is encoded, and the receiver reads back its type, stream id and payload in one frame without
-- flags, and stands at what follows the message.
pub decode_streamed-encode_message :
    (t : FrameType) (stream_id : ℕ) (payload : List ℕ) (threshold : ℤ) (rest : List ℕ)
    (e : ReadError)
    → IsUint32 stream_id
    → 0 < length payload
    → length payload ≤ max_stream_size
    → (bufs : List (List ℕ)) × (encode_message t stream_id payload threshold ≡ ok bufs)
      × (decode_streamed (record { bytes = concat bufs ++ rest; ending = e }) ≡ (
        ok (record {
          header = record {
            frame_type = t;
            flags = 0;
            stream_id = stream_id;
            length = pos (length payload);
          };
          payload = payload;
        }),
        record { bytes = rest; ending = e },
      ))
unfolding encode_message concat
decode_streamed-encode_message t stream_id payload threshold rest e s h m =
    let limit = clamp threshold in
    let (lo, hi) = clamp_bounds threshold in
    let n = to_int32-small (length payload) m in
    elim (Bool-cases (leb (length payload) limit)) [
      | inl small ↦
          let le : length payload ≤ limit = ground arith in
          (
            encode_frame_into t stream_id payload 0 ∷ [],
            rw (small, encode-single t stream_id payload h (omega arith)) refl,
            rw (append-nil (encode_frame_into t stream_id payload 0), ← n)
                (single_round_trip t stream_id payload rest e s (omega arith)),
          )
      | inr large ↦
          let lt : limit < length payload = ground arith in
          (
            fragments (length payload) t stream_id limit payload,
            rw large refl,
            rw (← n) (many_round_trip t stream_id limit payload rest e s lo hi lt m),
          )
    ]
