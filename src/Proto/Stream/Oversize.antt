-- ===== src/Proto/Stream/Oversize.antt =====
-- pkg/proto/stream.go: messages over the limit of the receiver.
use simple_go_server.Common.{
  ℕ, zero, suc, ◌+◌, ◌≤◌, ◌<◌, ◌≡◌, refl, ap, ◌∙◌, false, List, [], ◌∷◌, ◌++◌, arith, leb, nat_eq,
  string_eq, length, take, drop, length-append, length-take, length-drop,
}
use simple_go_server.Common.Int.{ℤ}
use simple_go_server.Proto.{FrameType, Frame, ReadError, ok, err, max_frame_size, stream_too_large}
use simple_go_server.Proto.Reader.{Reader}
use simple_go_server.Proto.Codec.{decode_frame}
use simple_go_server.Proto.Codec.Bytes.{IsUint32}
use simple_go_server.Proto.Stream.{
  flag_more, max_stream_size, assemble, fragments, concat, clamp, encode_message, decode_streamed,
}
use simple_go_server.Proto.Stream.Fragments.{fragment, assemble-suc, decode_streamed-first}
use simple_go_server.Proto.Stream.RoundTrip.{
  clamp_bounds, wire, decode_frame-more, decode_frame-last, fuel_enough,
}
use native.Mathlib.Decide.{dec_lt}

assemble-large :
    (fuel : ℕ) (buf : List ℕ) (r : Reader) (f : Frame) (r' : Reader)
    → decode_frame r ≡ (ok f, r')
    → max_stream_size < length (buf ++ f.payload)
    → (assemble (suc fuel) f.header.stream_id f.header.frame_type buf r).0 ≡ err stream_too_large
unfolding assemble
assemble-large fuel buf r f r' e h = ground arith

module _ (t : FrameType) (stream_id threshold : ℕ) (s : IsUint32 stream_id)
    (positive : 0 < threshold) (fits : threshold ≤ max_frame_size) (rest : List ℕ)
    (e : ReadError) where
  assemble-fragments_large :
      (fuel rounds : ℕ) (payload buf : List ℕ)
      → 0 < length payload
      → length payload ≤ fuel
      → length payload ≤ rounds
      → length buf ≤ max_stream_size
      → max_stream_size < length buf + length payload
      → (assemble rounds stream_id t buf
          (wire t stream_id threshold s positive fits rest e fuel payload)).0
        ≡ err stream_too_large
  assemble-fragments_large fuel rounds [] buf h k l m n = absurd (omega arith)
  assemble-fragments_large zero rounds (b ∷ bs) buf h k l m n = absurd (omega arith)
  assemble-fragments_large (suc fuel) zero (b ∷ bs) buf h k l m n = absurd (omega arith)
  assemble-fragments_large (suc fuel) (suc rounds) (b ∷ bs) buf h k l m n =
      let r = wire t stream_id threshold s positive fits rest e (suc fuel) (b ∷ bs) in
      let front = take threshold (b ∷ bs) in
      let back = drop threshold (b ∷ bs) in
      let size = length-drop threshold (b ∷ bs) in
      elim (dec_lt threshold (length (b ∷ bs))) [
        | yes p ↦
            let f = fragment t stream_id front flag_more in
            let r' = wire t stream_id threshold s positive fits rest e fuel back in
            let d = decode_frame-more t stream_id threshold s positive fits rest e fuel b bs p in
            elim (dec_lt max_stream_size (length (buf ++ front))) [
              | yes large ↦ assemble-large rounds buf r f r' d large
              | no small ↦
                  ap (λ x. x.0) (assemble-suc rounds buf r f r' d (omega arith))
                  ∙ assemble-fragments_large fuel rounds back (buf ++ front) (omega (arith, size))
                      (omega (arith, size)) (omega (arith, size)) (omega arith)
                      (rw (length-append, size, length-take) (omega arith))
            ]
        | no p ↦
            assemble-large rounds buf r (fragment t stream_id (b ∷ bs) 0)
              (record { bytes = rest; ending = e })
              (decode_frame-last t stream_id threshold s positive fits rest e fuel b bs
                (omega arith))
              (rw length-append (omega arith))
      ]

many_large :
    (t : FrameType) (stream_id threshold : ℕ) (payload rest : List ℕ) (e : ReadError)
    → IsUint32 stream_id
    → 0 < threshold
    → threshold ≤ max_frame_size
    → max_stream_size < length payload
    → (decode_streamed (record {
      bytes = concat (fragments (length payload) t stream_id threshold payload) ++ rest;
      ending = e;
    })).0
      ≡ err stream_too_large
unfolding wire
many_large t stream_id threshold [] rest e s p f h = absurd (omega arith)
many_large t stream_id threshold (b ∷ bs) rest e s p f h =
    let front = take threshold (b ∷ bs) in
    let back = drop threshold (b ∷ bs) in
    let size = length-drop threshold (b ∷ bs) in
    let enough = fuel_enough t stream_id threshold (b ∷ bs) rest p in
    ap (λ x. x.0)
      (decode_streamed-first (wire t stream_id threshold s p f rest e (length (b ∷ bs)) (b ∷ bs))
        (fragment t stream_id front flag_more)
        (wire t stream_id threshold s p f rest e (length bs) back)
        (decode_frame-more t stream_id threshold s p f rest e (length bs) b bs (omega arith)))
    ∙ assemble-fragments_large t stream_id threshold s p f rest e (length bs)
        (length (concat (fragments (length (b ∷ bs)) t stream_id threshold (b ∷ bs)) ++ rest)) back
        front (omega (arith, size)) (omega (arith, size)) (omega (arith, size, enough))
        (rw length-take (omega arith)) (rw (size, length-take) (omega arith))

-- A payload over the limit for streamed messages is encoded without an error, whatever the
-- threshold, and every receiver of these bytes reports a message that is too large.
pub oversize_is_sent :
    (t : FrameType) (stream_id : ℕ) (payload : List ℕ) (threshold : ℤ) (rest : List ℕ)
    (e : ReadError)
    → IsUint32 stream_id
    → max_stream_size < length payload
    → (bufs : List (List ℕ)) × (encode_message t stream_id payload threshold ≡ ok bufs)
      × ((decode_streamed (record { bytes = concat bufs ++ rest; ending = e })).0
          ≡ err stream_too_large)
unfolding encode_message
oversize_is_sent t stream_id payload threshold rest e s h =
    let limit = clamp threshold in
    let (lo, hi) = clamp_bounds threshold in
    let large : leb (length payload) limit ≡ false = ground arith in
    (
      fragments (length payload) t stream_id limit payload,
      rw large refl,
      many_large t stream_id limit payload rest e s lo hi h,
    )
