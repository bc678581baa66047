-- ===== src/Proto/Codec/Truncation.antt =====
-- pkg/proto/codec.go: streams that break off, and whole encodings.
use simple_go_server.Common.{
  ℕ, ◌<◌, ◌≡◌, ap, List, ◌++◌, append_assoc, arith, if◌then◌else◌, ◌==◌, nat_eq, string_eq, length,
}
use simple_go_server.Proto.{
  Frame, ReadError, eof, unexpected_eof, ok, err, read, truncated, header_size,
}
use simple_go_server.Proto.Reader.{Reader, partial, read_full-append, read_full-short}
use simple_go_server.Proto.Codec.{encode_header, decode_payload, decode_frame, encode, size_of}
use simple_go_server.Proto.Codec.Bytes.{length-encode_header, decode_header-encode_header}
use simple_go_server.Proto.Codec.RoundTrip.{IsFrame, decode_frame-append}
use simple_go_server.Proto.Codec.Bounds.{decode_frame-short, decode_frame-after_header}

-- A stream that ends inside a header, or at its start, is reported as a clean end of the stream.
pub header_cut :
    (cut : List ℕ)
    → length cut < header_size
    → (decode_frame (record { bytes = cut; ending = eof })).0 ≡ err (read eof)
header_cut cut h =
    let r : Reader = record { bytes = cut; ending = eof } in
    let s = read_full-short header_size r h in
    ground
      (arith, s, decode_frame-short r (length cut) (if length cut == 0 then eof else partial eof))

-- A stream that ends inside the payload of a well-formed frame is reported as truncated, with the
-- number of payload bytes that came.
pub payload_cut :
    (f : Frame) (cut : List ℕ)
    → IsFrame f
    → length cut < length f.payload
    → (decode_frame (record { bytes = encode_header f.header ++ cut; ending = eof })).0
      ≡ err (truncated (length cut) f.header.length unexpected_eof)
unfolding decode_payload
payload_cut f cut v h =
    let r : Reader = record { bytes = encode_header f.header ++ cut; ending = eof } in
    let reading =
      rw (length-encode_header f.header) at (read_full-append (encode_header f.header) cut eof) in
    let size : size_of f.header.length ≡ length f.payload = ap size_of v.announced in
    let s =
      read_full-short (size_of f.header.length) (record { bytes = cut; ending = eof })
        (omega arith) in
    ground (
      arith,
      reading,
      s,
      decode_frame-after_header r (encode_header f.header) (ap (λ x. x.0) reading),
      decode_header-encode_header f.header v.header,
    )

-- What `Encode` accepts, `Decode` returns.
pub decode_frame-encode :
    (f : Frame) (bytes rest : List ℕ) (e : ReadError)
    → IsFrame f
    → encode f ≡ ok bytes
    → decode_frame (record { bytes = bytes ++ rest; ending = e })
      ≡ (ok f, record { bytes = rest; ending = e })
unfolding encode
decode_frame-encode f bytes rest e v h =
    let b : encode_header f.header ++ f.payload ≡ bytes = ground arith in
    rw (← b, append_assoc (encode_header f.header) f.payload rest) (decode_frame-append f rest e v)
