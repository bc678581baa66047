-- ===== src/Proto/Message.antt =====
-- pkg/proto/json.go: the envelope of a message, decoded and encoded. `json.Unmarshal`
-- into an action and raw data is the parameter `unmarshal`; none is its error.
pub mod Splice
use simple_go_server.Common.{
  ℕ, zero, suc, ◌+◌, ◌-◌, ◌*◌, ◌/◌, ◌%◌, ◌^◌, ◌≤◌, ◌<◌, min, String, ◌≡◌, refl, sym, ap, ◌∙◌, subst,
  ◌≢◌, ◌↔◌, ◌⊎◌, inl, inr, Bool, true, false, not, ◌&&◌, ◌||◌, Option, none, some, List, [], ◌∷◌,
  ◌++◌, map, append-nil, append_assoc, arith, ltb, leb, if◌then◌else◌, Eq, ◌==◌, nat_eq, string_eq,
  nat_beq_iff, beq_refl, Bool-cases, Option-cases, length, get_elem?, get_or, take, drop, All,
  length-append, length-take, length-drop, take-append-drop, take-length-append, drop-length-append,
  get_elem?-lt, lt_of_get_elem?, All-append, All-get, take_all, drop_all,
}
use simple_go_server.Proto.{Frame, FrameType}
use simple_go_server.Proto.Codec.{new_frame}

pub record JsonMessage : Type 0 where
  pub action : String
  pub content : List ℕ

abbrev pub Unmarshal : Type 0
Unmarshal = List ℕ → Option JsonMessage

-- `DecodeJSONMessage`.
abbrev pub decode_json_message : Unmarshal → Frame → Option JsonMessage
decode_json_message unmarshal frame = unmarshal frame.payload

-- A Go string is its bytes here. `{"action":`, `,"data":` and `}`, and a string between quotes.
abbrev pub open_action : List ℕ
open_action = 123 ∷ 34 ∷ 97 ∷ 99 ∷ 116 ∷ 105 ∷ 111 ∷ 110 ∷ 34 ∷ 58 ∷ []

abbrev pub open_data : List ℕ
open_data = 44 ∷ 34 ∷ 100 ∷ 97 ∷ 116 ∷ 97 ∷ 34 ∷ 58 ∷ []

abbrev pub end_object : List ℕ
end_object = 125 ∷ []

abbrev pub quoted : List ℕ → List ℕ
quoted s = 34 ∷ (s ++ (34 ∷ []))

-- `jsonPlainASCII`: printable ASCII without the quote, the backslash and < > &.
unfoldable pub json_plain_ascii : List ℕ → Bool
json_plain_ascii [] = true
json_plain_ascii (c ∷ s) =
    if ltb c 0x20 || ltb 0x7E c || c == 34 || c == 92 || c == 60 || c == 62 || c == 38
    then false
    else json_plain_ascii s

pub record Envelope : Type 0 where
  pub action : List ℕ
  pub raw : List ℕ
  pub string_data : List ℕ
  pub direct_string : Bool

-- What `EncodeJSON` is given as data: nothing, encoded JSON, a string, or another value, with what
-- `json.Marshal` makes of it.
pub data Data : Type 0 where
  absent : Data
  raw_message : List ℕ → Data
  text : List ℕ → Data
  other : Option (List ℕ) → Data

-- `json.Marshal` of a string is the parameter.
module _ (marshal_string : List ℕ → List ℕ) where
  unfoldable pub envelope_bytes : Envelope → List ℕ
  envelope_bytes e =
      open_action
      ++ ((if json_plain_ascii e.action then quoted e.action else marshal_string e.action)
          ++ ((if e.direct_string
                then open_data ++ quoted e.string_data
                else if ltb 0 (length e.raw)
                then open_data ++ e.raw
                else [])
              ++ end_object))

  unfoldable pub encode_json : FrameType → ℕ → List ℕ → Data → Option Frame
  encode_json t stream_id action absent = some (
      new_frame t stream_id (
        envelope_bytes
          (record { action = action; raw = []; string_data = []; direct_string = false })))
  encode_json t stream_id action (raw_message raw) = some (
      new_frame t stream_id (
        envelope_bytes
          (record { action = action; raw = raw; string_data = []; direct_string = false })))
  encode_json t stream_id action (text s) = some (
      new_frame t stream_id (
        envelope_bytes (
          if json_plain_ascii s
          then record { action = action; raw = []; string_data = s; direct_string = true }
          else record {
            action = action;
            raw = marshal_string s;
            string_data = [];
            direct_string = false;
          })))
  encode_json t stream_id action (other none) = none
  encode_json t stream_id action (other (some encoded)) = some (
      new_frame t stream_id (
        envelope_bytes
          (record { action = action; raw = encoded; string_data = []; direct_string = false })))

  -- `mustJSON`.
  unfoldable pub must_json : List ℕ → List ℕ → List ℕ
  must_json topic body =
      envelope_bytes
        (record { action = topic; raw = body; string_data = []; direct_string = false })
