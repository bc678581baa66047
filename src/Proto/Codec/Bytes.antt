-- ===== src/Proto/Codec/Bytes.antt =====
-- The header's ten bytes, read back.
use simple_go_server.Common.{
  ℕ, ◌+◌, ◌*◌, ◌/◌, ◌%◌, ◌^◌, ◌≤◌, ◌<◌, ◌≡◌, refl, arith, nat_eq, string_eq, length, get_or,
}
use simple_go_server.Common.Int.{ℤ, pos, negsuc}
use simple_go_server.Proto.{FrameHeader, ok, max_frame_size}
use simple_go_server.Proto.Codec.{
  to_int32, to_uint32, put_uint32, uint32_at, encode_header, decode_header,
}

abbrev pub IsUint32 : ℕ → Type 0
IsUint32 v = v < 2 ^ 32

-- What the fields of Go's struct can hold, with a length that a decoder accepts.
pub record IsHeader (h : FrameHeader) : Type 0 where
  pub stream_id : IsUint32 h.stream_id
  pub size : ℕ
  pub length : h.length ≡ pos size
  pub fits : size ≤ max_frame_size

digits_sum :
    (v : ℕ)
    → IsUint32 v
    → v / 2 ^ 24 % 256 * 2 ^ 24 + v / 2 ^ 16 % 256 * 2 ^ 16 + v / 2 ^ 8 % 256 * 2 ^ 8 + v % 256 ≡ v
digits_sum v h = omega arith

to_int32-to_uint32 : (n : ℕ) → n ≤ max_frame_size → to_int32 (to_uint32 (pos n)) ≡ pos n
unfolding to_int32 to_uint32
to_int32-to_uint32 n h = ground arith

to_uint32-lt : (z : ℤ) → to_uint32 z < 2 ^ 32
unfolding to_uint32
to_uint32-lt (pos n) = omega arith
to_uint32-lt (negsuc n) = omega arith

pub length-encode_header : (h : FrameHeader) → length (encode_header h) ≡ 10
unfolding encode_header put_uint32
length-encode_header h = refl

type_byte : (h : FrameHeader) → get_or (encode_header h) 0 0 ≡ h.frame_type
unfolding encode_header
type_byte h = refl

flags_byte : (h : FrameHeader) → get_or (encode_header h) 1 0 ≡ h.flags
unfolding encode_header
flags_byte h = refl

stream_id_bytes :
    (h : FrameHeader) → IsUint32 h.stream_id → uint32_at (encode_header h) 2 ≡ h.stream_id
unfolding uint32_at encode_header put_uint32
stream_id_bytes h p = digits_sum h.stream_id p

length_bytes : (h : FrameHeader) → uint32_at (encode_header h) 6 ≡ to_uint32 h.length
unfolding uint32_at encode_header put_uint32
length_bytes h = digits_sum (to_uint32 h.length) (to_uint32-lt h.length)

announced : (h : FrameHeader) → IsHeader h → to_int32 (uint32_at (encode_header h) 6) ≡ h.length
announced h v = rw (length_bytes h, v.length) (to_int32-to_uint32 v.size v.fits)

-- The header that was written is read back.
pub decode_header-encode_header :
    (h : FrameHeader) → IsHeader h → decode_header (encode_header h) ≡ ok h
unfolding decode_header
decode_header-encode_header h v =
    rw
      (
        announced h v,
        length-encode_header h,
        type_byte h,
        flags_byte h,
        stream_id_bytes h v.stream_id,
      )
      (ground arith)
