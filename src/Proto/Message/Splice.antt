-- ===== src/Proto/Message/Splice.antt =====
-- pkg/proto/json.go: the splice of an envelope beside the marshalled struct.
use simple_go_server.Common.{
  ℕ, ◌≡◌, ◌≢◌, ◌≤◌, ◌⊎◌, Option, none, some, List, [], ◌∷◌, ◌++◌, nat_eq, string_eq,
}
use simple_go_server.Proto.{Frame, FrameType}
use simple_go_server.Proto.Codec.{new_frame}
use simple_go_server.Proto.Message.{
  Data, absent, raw_message, text, other, open_action, open_data, end_object,
}

-- `json.Marshal` of a `JSONMessage`, with what it makes of a string and of a raw message, which it
-- compacts, and refuses if it is not valid JSON: the action as a JSON string, and the data unless it
-- is empty.
unfoldable pub struct_bytes :
    (List ℕ → List ℕ) → (List ℕ → Option (List ℕ)) → List ℕ → List ℕ → Option (List ℕ)
struct_bytes marshal_string marshal_raw action [] =
    some (open_action ++ (marshal_string action ++ end_object))
struct_bytes marshal_string marshal_raw action (b ∷ raw) = elim (marshal_raw (b ∷ raw)) [
  | none ↦ none
  | some content ↦
      some (open_action ++ (marshal_string action ++ ((open_data ++ content) ++ end_object)))
]

-- The data field.
abbrev pub marshalled : (List ℕ → List ℕ) → Data → Option (List ℕ)
marshalled marshal_string absent = some []
marshalled marshal_string (raw_message raw) = some raw
marshalled marshal_string (text s) = some (marshal_string s)
marshalled marshal_string (other o) = o

-- A frame around bytes, if there are any.
abbrev pub in_frame : FrameType → ℕ → Option (List ℕ) → Option Frame
in_frame t stream_id none = none
in_frame t stream_id (some bytes) = some (new_frame t stream_id bytes)

-- A frame around the marshalled struct.
abbrev pub framed :
    (List ℕ → List ℕ)
    → (List ℕ → Option (List ℕ))
    → FrameType
    → ℕ
    → List ℕ
    → Option (List ℕ)
    → Option Frame
framed marshal_string marshal_raw t stream_id action none = none
framed marshal_string marshal_raw t stream_id action (some raw) =
    in_frame t stream_id (struct_bytes marshal_string marshal_raw action raw)

-- Raw data is empty, or valid JSON in the form that `json.Marshal` gives it; and so are the bytes that
-- `json.Marshal` made of another value.
abbrev pub IsCompact : (List ℕ → Option (List ℕ)) → Data → Type 0
IsCompact marshal_raw absent = Unit {0}
IsCompact marshal_raw (raw_message raw) = (raw ≡ []) ⊎ (marshal_raw raw ≡ some raw)
IsCompact marshal_raw (text s) = Unit {0}
IsCompact marshal_raw (other none) = Unit {0}
IsCompact marshal_raw (other (some encoded)) = marshal_raw encoded ≡ some encoded

-- Printable ASCII, and none of the bytes that `json.Marshal` escapes: quote, backslash, < > &.
abbrev pub IsPlain : ℕ → Type 0
IsPlain c = (0x20 ≤ c) × (c ≤ 0x7E) × (c ≢ 34) × (c ≢ 92) × (c ≢ 60) × (c ≢ 62) × (c ≢ 38)
