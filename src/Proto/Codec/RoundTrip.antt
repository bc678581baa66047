-- ===== src/Proto/Codec/RoundTrip.antt =====
-- pkg/proto/codec.go: encoding followed by decoding, for a frame.
use simple_go_server.Common.{ℕ, ◌≡◌, refl, ap, List, ◌++◌, arith, nat_eq, string_eq, length}
use simple_go_server.Common.Int.{pos}
use simple_go_server.Proto.{FrameHeader, Frame, ReadError, ok}
use simple_go_server.Proto.Reader.{read_full-append}
use simple_go_server.Proto.Codec.{encode_header, decode_payload, decode_frame, size_of}
use simple_go_server.Proto.Codec.Bytes.{IsHeader, length-encode_header, decode_header-encode_header}

-- A frame whose header tells the truth about its payload.
pub record IsFrame (f : Frame) : Type 0 where
  pub header : IsHeader f.header
  pub announced : f.header.length ≡ pos (length f.payload)

decode_payload-append :
    (h : FrameHeader) (payload rest : List ℕ) (e : ReadError)
    → size_of h.length ≡ length payload
    → decode_payload h (record { bytes = payload ++ rest; ending = e })
      ≡ (ok (record { header = h; payload = payload }), record { bytes = rest; ending = e })
unfolding decode_payload
decode_payload-append h payload rest e p =
    rw (p, decode_payload, read_full-append payload rest e) refl

-- The bytes of a well-formed frame, with anything behind them, decode to that frame, and the reader
-- stands at what follows.
pub decode_frame-append :
    (f : Frame) (rest : List ℕ) (e : ReadError)
    → IsFrame f
    → decode_frame (record { bytes = encode_header f.header ++ (f.payload ++ rest); ending = e })
      ≡ (ok f, record { bytes = rest; ending = e })
unfolding decode_frame
decode_frame-append f rest e v =
    let reading = read_full-append (encode_header f.header) (f.payload ++ rest) e in
    let reading' = rw (length-encode_header f.header) at reading in
    ground (
      arith,
      reading',
      decode_header-encode_header f.header v.header,
      decode_payload-append f.header f.payload rest e (ap size_of v.announced),
    )
