-- ===== src/Proto/Codec/Bounds.antt =====
-- pkg/proto/codec.go: frames that decodeFrame returns.
use simple_go_server.Common.{
  ℕ, ◌+◌, ◌≤◌, ◌≡◌, refl, sym, ap, ◌∙◌, subst, ◌≢◌, ◌⊎◌, inl, inr, false, ◌||◌, List, arith, nat_eq,
  string_eq, length, length-append,
}
use simple_go_server.Common.Int.{ℤ, pos, negsuc, ltb_ℤ}
use simple_go_server.Proto.{
  FrameHeader, Frame, Error, ReadError, Result, ok, err, stuck, read, max_frame_size, header_size,
}
use simple_go_server.Proto.Reader.{Reader, Reading, full, short, read_full, read_full-full}
use simple_go_server.Proto.Codec.{
  decode_header, decode_payload, decode_frame, size_of, header_error,
}

in_range :
    (z : ℤ)
    → (ltb_ℤ z (pos 0) || ltb_ℤ (pos max_frame_size) z) ≡ false
    → (n : ℕ) × (z ≡ pos n) × (n ≤ max_frame_size)
in_range (pos n) h = (n, refl, ground arith)
in_range (negsuc n) h = absurd (ground arith)

decode_header-ok :
    (src : List ℕ) (h : FrameHeader)
    → decode_header src ≡ ok h
    → (n : ℕ) × (h.length ≡ pos n) × (n ≤ max_frame_size)
unfolding decode_header
decode_header-ok src h e = in_range h.length (ground arith)

-- A frame that came off a stream: its header tells the length of its payload, which is within
-- the limit, and exactly the header and the payload were taken.
pub record Decoded (r : Reader) (f : Frame) (r' : Reader) : Type 0 where
  pub announced : f.header.length ≡ pos (length f.payload)
  pub fits : length f.payload ≤ max_frame_size
  pub consumed : length r.bytes ≡ header_size + length f.payload + length r'.bytes
  pub ending : r'.ending ≡ r.ending

decode_payload-ok :
    (h : FrameHeader) (r : Reader) (f : Frame)
    → (decode_payload h r).0 ≡ ok f
    → (f.header ≡ h)
      × (length f.payload ≡ size_of h.length)
      × (length r.bytes ≡ length f.payload + length (decode_payload h r).1.bytes)
      × ((decode_payload h r).1.ending ≡ r.ending)
unfolding decode_payload
decode_payload-ok h r f e = ground (
  arith,
  read_full-full (size_of h.length) r f.payload,
  length-append f.payload (read_full (size_of h.length) r).1.bytes,
)

-- What `decode_frame` does with the bytes of a header.
abbrev pub after_header : List ℕ → Reader → Result Frame × Reader
after_header scratch r' = elim (decode_header scratch) [
  | ok h ↦ decode_payload h r'
  | err e ↦ (err e, r')
  | stuck ↦ (stuck, r')
]

Result-cases {ℓ} :
    {A : Type ℓ} (x : Result A)
    → ((a : A) × (x ≡ ok a)) ⊎ ((x ≡ stuck) ⊎ ((e : Error) × (x ≡ err e)))
Result-cases (ok a) = inl (a, refl)
Result-cases stuck = inr (inl refl)
Result-cases (err e) = inr (inr (e, refl))

after_header-ok :
    (scratch : List ℕ) (r' : Reader) (f : Frame)
    → (after_header scratch r').0 ≡ ok f
    → (decode_header scratch ≡ ok f.header) × (after_header scratch r' ≡ decode_payload f.header r')
after_header-ok scratch r' f e = elim (Result-cases (decode_header scratch)) [
  | inl (h, p) ↦ ground (arith, decode_payload-ok h r' f)
  | inr (inl p) ↦ ground arith
  | inr (inr (x, p)) ↦ ground arith
]

pub decode_frame-after_header :
    (r : Reader) (scratch : List ℕ)
    → (read_full header_size r).0 ≡ full scratch
    → decode_frame r ≡ after_header scratch (read_full header_size r).1
unfolding decode_frame
decode_frame-after_header r scratch p = rw (p, decode_frame) refl

pub decode_frame-short :
    (r : Reader) (n : ℕ) (x : ReadError)
    → (read_full header_size r).0 ≡ short n x
    → (decode_frame r).0 ≡ err (read (header_error x))
unfolding decode_frame
decode_frame-short r n x p = rw (p, decode_frame) refl

Decoded-frame :
    (r : Reader) (f : Frame) (scratch : List ℕ)
    → (read_full header_size r).0 ≡ full scratch
    → (decode_frame r).0 ≡ ok f
    → Decoded r f (decode_frame r).1
Decoded-frame r f scratch p e =
    let r₁ = (read_full header_size r).1 in
    let q = decode_frame-after_header r scratch p in
    let (hd, q') = after_header-ok scratch r₁ f (rw q at e) in
    let path = q ∙ q' in
    let d = decode_payload-ok f.header r₁ f (rw path at e) in
    let (n, hn, le) = decode_header-ok scratch f.header hd in
    let whole = read_full-full header_size r scratch p in
    let size : size_of f.header.length ≡ n = ap size_of hn in
    subst (λ x. Decoded r f x.1) (sym path)
      (record {
        announced = hn ∙ ap pos (sym (d.1 ∙ size));
        fits = omega arith;
        consumed = omega (arith, ap length whole.1, length-append scratch r₁.bytes);
        ending = d.3 ∙ whole.2;
      })

-- Every frame that `decode_frame` returns, from any bytes, is one that tells its length, fits the
-- limit and took exactly its own bytes off the stream.
pub decode_frame-Decoded :
    (r : Reader) (f : Frame) → (decode_frame r).0 ≡ ok f → Decoded r f (decode_frame r).1
decode_frame-Decoded r f e = cases (read_full header_size r).0 refl
  where
    cases : (x : Reading) → (read_full header_size r).0 ≡ x → Decoded r f (decode_frame r).1
    cases (full scratch) p = Decoded-frame r f scratch p e
    cases (short n x) p = cc (e, decode_frame-short r n x p)

decode_header-ne-stuck : (src : List ℕ) → decode_header src ≢ stuck
unfolding decode_header
decode_header-ne-stuck src = ground arith

decode_payload-ne-stuck : (h : FrameHeader) (r : Reader) → (decode_payload h r).0 ≢ stuck
unfolding decode_payload
decode_payload-ne-stuck h r = ground arith

-- The model of `decodeFrame` has no loop that could run out of fuel.
pub decode_frame-ne-stuck : (r : Reader) → (decode_frame r).0 ≢ stuck
unfolding decode_frame
decode_frame-ne-stuck r e = cases (read_full header_size r).0 refl
  where
    cases : (x : Reading) → (read_full header_size r).0 ≡ x → ⊥
    cases (short n x) p = cc (e, decode_frame-short r n x p)
    cases (full scratch) p =
        let q = decode_frame-after_header r scratch p in
        let r₁ = (read_full header_size r).1 in
        let e' = rw q at e in
        elim (Result-cases (decode_header scratch)) [
          | inl (h, d) ↦ decode_payload-ne-stuck h r₁ (rw (d, after_header) at e')
          | inr (inl d) ↦ decode_header-ne-stuck scratch d
          | inr (inr (x, d)) ↦ let z = rw (d, after_header) at e' in cc z
        ]
