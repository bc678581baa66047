-- ===== src/Proto/Stream/Bounds.antt =====
-- pkg/proto/stream.go: messages that decodeStreamed returns, and its rounds on a stream that ends.
use Prim.Native.Nat.{bit_and}
use simple_go_server.Common.{
  ℕ, zero, suc, ◌≤◌, ◌<◌, ◌≡◌, refl, sym, ap, ◌∙◌, subst, ◌≢◌, ◌⊎◌, inl, inr, true, false, not,
  List, ◌++◌, append_assoc, arith, ltb, ◌==◌, nat_eq, string_eq, Bool-cases, length,
}
use simple_go_server.Common.Int.{pos}
use simple_go_server.Proto.{
  FrameType, Frame, Error, Result, ok, err, stuck, stream_too_large, fragment_stream_id,
  fragment_type,
}
use simple_go_server.Proto.Reader.{Reader}
use simple_go_server.Proto.Codec.{decode_frame}
use simple_go_server.Proto.Codec.Bounds.{decode_frame-Decoded, decode_frame-ne-stuck}
use simple_go_server.Proto.Stream.{
  flag_more, max_stream_size, more_follow, assemble, decode_streamed,
}
use simple_go_server.Proto.Stream.Fragments.{fragment, to_int32-small, decode_streamed-first}

-- A sequence of frames on the stream, all of one stream id and one type, all but the last marked as
-- followed by more, with their payloads back to back; and where the reader stands behind them.
pub data Message (stream_id : ℕ) (t : FrameType) (end : Reader) : Reader → List ℕ → Type 0 where
  last :
      {r : Reader} {payload : List ℕ} (f : Frame)
      → decode_frame r ≡ (ok f, end)
      → f.header.stream_id ≡ stream_id
      → f.header.frame_type ≡ t
      → more_follow f ≡ false
      → payload ≡ f.payload
      → Message stream_id t end r payload
  more :
      {r : Reader} {payload : List ℕ} (f : Frame) (r' : Reader) (rest : List ℕ)
      → decode_frame r ≡ (ok f, r')
      → f.header.stream_id ≡ stream_id
      → f.header.frame_type ≡ t
      → more_follow f ≡ true
      → payload ≡ f.payload ++ rest
      → Message stream_id t end r' rest
      → Message stream_id t end r payload

-- What one round of the loop can do.
pub data Round (fuel stream_id : ℕ) (t : FrameType) (buf : List ℕ) (r : Reader) : Type 0 where
  fails :
      (e : Error) (r' : Reader)
      → assemble (suc fuel) stream_id t buf r ≡ (err e, r')
      → Round fuel stream_id t buf r
  ends :
      (f : Frame) (r' : Reader)
      → decode_frame r ≡ (ok f, r')
      → f.header.stream_id ≡ stream_id
      → f.header.frame_type ≡ t
      → more_follow f ≡ false
      → length (buf ++ f.payload) ≤ max_stream_size
      → assemble (suc fuel) stream_id t buf r ≡ (ok (fragment t stream_id (buf ++ f.payload) 0), r')
      → Round fuel stream_id t buf r
  goes_on :
      (f : Frame) (r' : Reader)
      → decode_frame r ≡ (ok f, r')
      → f.header.stream_id ≡ stream_id
      → f.header.frame_type ≡ t
      → more_follow f ≡ true
      → length (buf ++ f.payload) ≤ max_stream_size
      → assemble (suc fuel) stream_id t buf r ≡ assemble fuel stream_id t (buf ++ f.payload) r'
      → Round fuel stream_id t buf r

frame-Round :
    (fuel stream_id : ℕ) (t : FrameType) (buf : List ℕ) (r : Reader) (f : Frame) (r' : Reader)
    → decode_frame r ≡ (ok f, r')
    → Round fuel stream_id t buf r
unfolding assemble
frame-Round fuel stream_id t buf r f r' e = elim (Bool-cases (f.header.stream_id == stream_id)) [
  | inr other ↦ fails (fragment_stream_id f.header.stream_id stream_id) r' (ground arith)
  | inl same ↦ elim (Bool-cases (f.header.frame_type == t)) [
    | inr other ↦ fails (fragment_type f.header.frame_type t) r' (ground arith)
    | inl kind ↦ elim (Bool-cases (ltb max_stream_size (length (buf ++ f.payload)))) [
      | inl large ↦ fails stream_too_large r' (ground arith)
      | inr fits ↦ elim (Bool-cases (more_follow f)) [
        | inl m ↦ goes_on f r' e (ground arith) (ground arith) m (ground arith) (ground arith)
        | inr m ↦ ends f r' e (ground arith) (ground arith) m (ground arith) (ground arith)
      ]
    ]
  ]
]

Result-cases {ℓ} :
    {A : Type ℓ} (x : Result A) → x ≢ stuck → ((a : A) × (x ≡ ok a)) ⊎ ((e : Error) × (x ≡ err e))
Result-cases (ok a) h = inl (a, refl)
Result-cases stuck h = absurd (h refl)
Result-cases (err e) h = inr (e, refl)

pub round :
    (fuel stream_id : ℕ) (t : FrameType) (buf : List ℕ) (r : Reader) → Round fuel stream_id t buf r
unfolding assemble
round fuel stream_id t buf r = elim (Result-cases (decode_frame r).0 (decode_frame-ne-stuck r)) [
  | inl (f, e) ↦
      frame-Round fuel stream_id t buf r f (decode_frame r).1 (λ i. (e i, (decode_frame r).1))
  | inr (x, e) ↦ fails x (decode_frame r).1 (rw (e, assemble) refl)
]

-- What the loop returns, begun with `buf`: the rest of the message came off the stream.
record Assembled (stream_id : ℕ) (t : FrameType) (buf : List ℕ) (r : Reader) (g : Frame)
    (end : Reader) : Type 0 where
  rest : List ℕ
  whole : g.payload ≡ buf ++ rest
  sent : Message stream_id t end r rest
  plain :
      g.header
      ≡ record { frame_type = t; flags = 0; stream_id = stream_id; length = pos (length g.payload) }
  fits : length g.payload ≤ max_stream_size

abbrev value : Frame → Result Frame → Frame
value default (ok f) = f
value default (err e) = default
value default stuck = default

assemble-Assembled :
    (fuel stream_id : ℕ) (t : FrameType) (buf : List ℕ) (r : Reader) (g : Frame) (end : Reader)
    → assemble fuel stream_id t buf r ≡ (ok g, end)
    → Assembled stream_id t buf r g end
assemble-Assembled zero stream_id t buf r g end e = absurd (unfold assemble in cc e)
assemble-Assembled (suc fuel) stream_id t buf r g end e = elim (round fuel stream_id t buf r) [
  | fails x r' q ↦ cc (e, q)
  | ends f r' d s k m n q ↦
      let path = sym q ∙ e in
      subst (λ h. Assembled stream_id t buf r h end) (ap (λ x. value g x.0) path)
        (record {
          rest = f.payload;
          whole = refl;
          sent = last f (d ∙ ap (λ x. (ok f, x.1)) path) s k m refl;
          plain =
              ap (λ z. record { frame_type = t; flags = 0; stream_id = stream_id; length = z })
                (to_int32-small (length (buf ++ f.payload)) n);
          fits = n;
        })
  | goes_on f r' d s k m n q ↦
      let a = assemble-Assembled fuel stream_id t (buf ++ f.payload) r' g end (sym q ∙ e) in
      record {
        rest = f.payload ++ a.rest;
        whole = a.whole ∙ append_assoc buf f.payload a.rest;
        sent = more f r' a.rest d s k m refl a.sent;
        plain = a.plain;
        fits = a.fits;
      }
]

decode_streamed-err :
    (r : Reader) (x : Error) → (decode_frame r).0 ≡ err x → (decode_streamed r).0 ≡ err x
unfolding decode_streamed
decode_streamed-err r x e = rw (e, decode_streamed) refl

-- Whatever arrives: a message that `DecodeStreamed` returns is what one whole sequence of frames
-- adds up to, all of its stream id and type, all but the last marked as followed by more; the
-- reader stands behind them; the header tells the length, which is within the limit for streamed
-- messages; and the message is not marked as followed by more.
pub decode_streamed-Message :
    (r : Reader) (f : Frame) (end : Reader)
    → decode_streamed r ≡ (ok f, end)
    → Message f.header.stream_id f.header.frame_type end r f.payload
      × (f.header.length ≡ pos (length f.payload))
      × (length f.payload ≤ max_stream_size)
      × (more_follow f ≡ false)
decode_streamed-Message r f end e =
    let r₁ = (decode_frame r).1 in
    elim (Result-cases (decode_frame r).0 (decode_frame-ne-stuck r)) [
      | inr (x, q) ↦ absurd (cc (e, decode_streamed-err r x q))
      | inl (g, q) ↦
          let d : decode_frame r ≡ (ok g, r₁) = λ i. (q i, r₁) in
          let first = sym (decode_streamed-first r g r₁ d) ∙ e in
          elim (Bool-cases (more_follow g)) [
            | inr plain ↦
                let path : (ok g, r₁) ≡ (ok f, end) = rw plain at first in
                let whole = decode_frame-Decoded r g q in
                subst
                  (λ h.
                    Message h.header.stream_id h.header.frame_type end r h.payload
                    × (h.header.length ≡ pos (length h.payload))
                    × (length h.payload ≤ max_stream_size)
                    × (more_follow h ≡ false))
                  (ap (λ x. value f x.0) path)
                  (
                    last g (d ∙ ap (λ x. (ok g, x.1)) path) refl refl plain refl,
                    whole.announced,
                    omega (arith, whole.fits),
                    plain,
                  )
            | inl m ↦
                let a =
                  assemble-Assembled _ g.header.stream_id g.header.frame_type g.payload r₁ f end
                    (rw m at first) in
                subst
                  (λ h.
                    Message h.stream_id h.frame_type end r f.payload
                    × (h.length ≡ pos (length f.payload))
                    × (length f.payload ≤ max_stream_size)
                    × (not (bit_and h.flags flag_more == 0) ≡ false))
                  (sym a.plain) (more g r₁ a.rest d refl refl m a.whole a.sent, refl, a.fits, refl)
          ]
    ]

-- On a stream that ends, the loop never runs out of the rounds that the model gives it.
assemble-ne-stuck :
    (fuel stream_id : ℕ) (t : FrameType) (buf : List ℕ) (r : Reader)
    → length r.bytes < fuel
    → (assemble fuel stream_id t buf r).0 ≢ stuck
assemble-ne-stuck zero stream_id t buf r h e = absurd (omega arith)
assemble-ne-stuck (suc fuel) stream_id t buf r h e = elim (round fuel stream_id t buf r) [
  | fails x r' q ↦ cc (e, q)
  | ends f r' d s k m n q ↦ cc (e, q)
  | goes_on f r' d s k m n q ↦
      let taken = (decode_frame-Decoded r f (ap (λ x. x.0) d)).consumed in
      let r'-eq = ap (λ x. length x.1.bytes) d in
      assemble-ne-stuck fuel stream_id t (buf ++ f.payload) r' (omega arith) (rw q at e)
]

-- Nor does decodeStreamed.
pub decode_streamed-ne-stuck : (r : Reader) → (decode_streamed r).0 ≢ stuck
decode_streamed-ne-stuck r e =
    let r₁ = (decode_frame r).1 in
    elim (Result-cases (decode_frame r).0 (decode_frame-ne-stuck r)) [
      | inr (x, q) ↦ cc (e, decode_streamed-err r x q)
      | inl (g, q) ↦
          let taken = (decode_frame-Decoded r g q).consumed in
          let first = sym (ap (λ x. x.0) (decode_streamed-first r g r₁ (λ i. (q i, r₁)))) ∙ e in
          elim (Bool-cases (more_follow g)) [
            | inr plain ↦ let no_frame = rw plain at first in cc no_frame
            | inl m ↦
                assemble-ne-stuck (length r.bytes) g.header.stream_id g.header.frame_type g.payload
                  r₁ (omega arith) (rw m at first)
          ]
    ]
