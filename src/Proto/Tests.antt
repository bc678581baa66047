-- ===== src/Proto/Tests.antt =====
-- The protocol on small inputs.
use simple_go_server.Common.{
  ℕ, zero, suc, ◌+◌, ◌*◌, ◌^◌, ◌≤◌, ◌<◌, ◌≡◌, refl, ap, Bool, true, false, not, ◌||◌, some, List,
  [], ◌∷◌, ◌++◌, arith, ◌==◌, nat_eq, string_eq, length,
}
use simple_go_server.Common.Dict.{lookup, elem, or_zero}
use simple_go_server.Common.Int.{pos}
use simple_go_server.Proto.{
  Frame, eof, unexpected_eof, ok, err, read, truncated, stream_too_large, publish,
}
use simple_go_server.Proto.Reader.{Reader}
use simple_go_server.Proto.Codec.{encode, encode_header, decode_frame, put_uint32, to_uint32}
use simple_go_server.Proto.Codec.RoundTrip.{IsFrame, decode_frame-append}
use simple_go_server.Proto.Codec.Bounds.{Decoded, decode_frame-Decoded}
use simple_go_server.Proto.Codec.Truncation.{header_cut, payload_cut, decode_frame-encode}
use simple_go_server.Proto.Stream.{
  encode_frame_into, encode_message, decode_streamed, concat, more_follow, max_stream_size,
}
use simple_go_server.Proto.Stream.RoundTrip.{decode_streamed-encode_message}
use simple_go_server.Proto.Stream.Bounds.{Message, decode_streamed-Message}
use simple_go_server.Proto.Stream.Endless.{empty_fragments, empty_fragments_pass}
use simple_go_server.Proto.Stream.Fragments.{fragment}
use simple_go_server.Proto.Stream.Oversize.{oversize_is_sent}
use simple_go_server.Proto.Message.{Unmarshal}
use simple_go_server.Proto.Resilient.{new, snapshot_cursors, should_deliver_publish}
use simple_go_server.Proto.Resilient.ExactlyOnce.{run, numbers, NoRepeat, accepted_exactly_once}

abbrev greeting : List ℕ
greeting = 104 ∷ 101 ∷ 108 ∷ 108 ∷ 111 ∷ []

-- A publish frame with stream id `seq`.
abbrev hello_frame : ℕ → Frame
hello_frame seq = record {
  header = record { frame_type = publish; flags = 0; stream_id = seq; length = pos 5 };
  payload = greeting;
}

hello_frame-IsFrame : IsFrame (hello_frame 7)
hello_frame-IsFrame = record {
  header = record { stream_id = omega arith; size = 5; length = refl; fits = omega arith };
  announced = refl;
}

abbrev wire_bytes : List ℕ
wire_bytes = 2 ∷ 0 ∷ 0 ∷ 0 ∷ 0 ∷ 7 ∷ 0 ∷ 0 ∷ 0 ∷ 5 ∷ greeting

encoded : encode (hello_frame 7) ≡ ok wire_bytes
unfolding encode encode_header put_uint32 to_uint32
encoded = refl

-- In fragments of two bytes.
decode_streamed-encode_message_example :
    (bufs : List (List ℕ)) × (encode_message publish 7 greeting (pos 2) ≡ ok bufs)
    × (decode_streamed (record { bytes = concat bufs ++ (9 ∷ []); ending = eof })
        ≡ (ok (hello_frame 7), record { bytes = 9 ∷ []; ending = eof }))
decode_streamed-encode_message_example =
    decode_streamed-encode_message publish 7 greeting (pos 2) (9 ∷ []) eof (omega arith)
      (omega arith) (omega arith)

decode_frame-encode_example :
    decode_frame (record { bytes = wire_bytes ++ (9 ∷ []); ending = eof })
    ≡ (ok (hello_frame 7), record { bytes = 9 ∷ []; ending = eof })
decode_frame-encode_example =
    decode_frame-encode (hello_frame 7) wire_bytes (9 ∷ []) eof hello_frame-IsFrame encoded

abbrev one_frame : Reader
one_frame = record { bytes = wire_bytes; ending = eof }

abbrev at_end : Reader
at_end = record { bytes = []; ending = eof }

one_frame_read : decode_frame one_frame ≡ (ok (hello_frame 7), at_end)
unfolding encode_header put_uint32 to_uint32
one_frame_read = decode_frame-append (hello_frame 7) [] eof hello_frame-IsFrame

decode_frame-Decoded_example : Decoded one_frame (hello_frame 7) (decode_frame one_frame).1
decode_frame-Decoded_example =
    decode_frame-Decoded one_frame (hello_frame 7) (ap (λ x. x.0) one_frame_read)

header_cut_example :
    (decode_frame (record { bytes = 2 ∷ 0 ∷ 0 ∷ []; ending = eof })).0 ≡ err (read eof)
header_cut_example = header_cut (2 ∷ 0 ∷ 0 ∷ []) (omega arith)

payload_cut_example :
    (decode_frame
      (record { bytes = encode_header (hello_frame 7).header ++ (104 ∷ []); ending = eof })).0
    ≡ err (truncated 1 (pos 5) unexpected_eof)
payload_cut_example = payload_cut (hello_frame 7) (104 ∷ []) hello_frame-IsFrame (omega arith)

message_read : decode_streamed one_frame ≡ (ok (hello_frame 7), at_end)
unfolding decode_streamed
message_read =
    rw (one_frame_read, decode_streamed) (ap (λ x. (ok (hello_frame 7), x.1)) one_frame_read)

decode_streamed-Message_example :
    Message 7 publish at_end one_frame greeting
    × (pos 5 ≡ pos 5)
    × (5 ≤ max_stream_size)
    × (more_follow (hello_frame 7) ≡ false)
decode_streamed-Message_example =
    decode_streamed-Message one_frame (hello_frame 7) at_end message_read

-- A thousand empty fragments between two greetings.
empty_fragments_pass_example :
    decode_streamed (record {
      bytes =
          encode_frame_into publish 7 greeting 1
          ++ (concat (empty_fragments 1000 publish 7)
              ++ (encode_frame_into publish 7 greeting 0 ++ []));
      ending = eof;
    })
    ≡ (ok (fragment publish 7 (greeting ++ greeting) 0), record { bytes = []; ending = eof })
empty_fragments_pass_example =
    empty_fragments_pass 1000 publish 7 greeting greeting [] eof (omega arith) (omega arith)
      (omega arith)

-- A message one byte over the limit.
unfoldable zeros : ℕ → List ℕ
zeros zero = []
zeros (suc n) = 0 ∷ zeros n

length-zeros : (n : ℕ) → length (zeros n) ≡ n
unfolding zeros
length-zeros zero = refl
length-zeros (suc n) = ap suc (length-zeros n)

oversize_is_sent_example :
    (bufs : List (List ℕ)) × (encode_message publish 7 (zeros (8 * 2 ^ 20 + 1)) (pos 983040)
      ≡ ok bufs)
    × ((decode_streamed (record { bytes = concat bufs ++ []; ending = eof })).0
        ≡ err stream_too_large)
oversize_is_sent_example =
    oversize_is_sent publish 7 (zeros (8 * 2 ^ 20 + 1)) (pos 983040) [] eof (omega arith)
      (rw (length-zeros (8 * 2 ^ 20 + 1)) (omega arith))

-- Every payload is a message of topic "t".
abbrev topic_t : Unmarshal
topic_t payload = some (record { action = "t"; content = payload })

-- The second publish comes first, is replayed after the first one, and a third one is refused.
abbrev frames : List (Frame × Bool)
frames =
    (hello_frame 2, true)
    ∷ (hello_frame 1, true)
    ∷ (hello_frame 2, true)
    ∷ (hello_frame 3, false)
    ∷ []

accepted_exactly_once_example :
    let (rc, log) = run topic_t new [] frames in
    NoRepeat (numbers "t" log)
    × ((seq : ℕ) → should_deliver_publish rc "t" seq ≡ not (seq == 0 || elem seq (numbers "t" log)))
    × ((seq : ℕ)
        → 0 < seq
        → seq ≤ or_zero (lookup "t" (snapshot_cursors rc))
        → elem seq (numbers "t" log) ≡ true)
accepted_exactly_once_example =
    accepted_exactly_once topic_t frames
      (omega arith, (omega arith, (omega arith, (omega arith, tt)))) "t"
