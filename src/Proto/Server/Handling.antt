-- ===== src/Proto/Server/Handling.antt =====
-- `HandleRead` and the handlers that it calls: what a frame from a connection does. What is written
-- back is a list of outputs, in order.
use simple_go_server.Common.{
  ℕ, ◌+◌, String, Bool, true, false, not, ◌&&◌, Option, none, some, List, [], ◌∷◌, if◌then◌else◌,
  ◌==◌, nat_eq, string_eq, length,
}
use simple_go_server.Common.Dict.{Dict, lookup}
use simple_go_server.Common.Int.{ℤ, pos, ltb_ℤ, leb_ℤ}
use simple_go_server.Proto.{
  FrameType, Frame, request, response, subscribe, unsubscribe, ping, pong, close, hello,
}
use simple_go_server.Proto.Codec.{new_frame}
use simple_go_server.Proto.Message.{Unmarshal, decode_json_message}
use simple_go_server.Proto.Server.{Handler, topic_sequence}
use simple_go_server.Proto.Server.Sessions.{touch_session, attach_session, enter_topic, exit_topic}

abbrev pub supported_versions : List ℤ
supported_versions = pos 1 ∷ []

-- The inner and the outer loop of `negotiate`.
unfoldable pub among : ℤ → List ℤ → ℤ → ℤ
among v [] best = best
among v (supported ∷ rest) best =
    among v rest (if leb_ℤ v supported && leb_ℤ supported v && ltb_ℤ best v then v else best)

unfoldable pub negotiate : List ℤ → ℤ → ℤ
negotiate [] best = best
negotiate (v ∷ versions) best = negotiate versions (among v supported_versions best)

pub record HelloRequest : Type 0 where
  pub versions : List ℤ
  pub resume : String
  pub cursors : Dict String ℕ

-- The body of a reply.
pub data Body : Type 0 where
  nothing no_common_version : Body
  subscribed : String → ℕ → Body
  unsubscribed : String → Body
  welcome : ℤ → String → Bool → Body

pub data Output : Type 0 where
  closed hung_up : Output
  reply : FrameType → ℕ → String → Body → Output
  answer : Frame → Output
  replay : List (List ℕ) → Output

-- What the application's request handler answers, once it is marshalled: an error, or a value,
-- which may fail to marshal.
pub data Answer : Type 0 where
  failed : List ℕ → Answer
  value : Option (List ℕ) → Answer

-- What the handler is built with: JSON decoding, the envelope, and the application's handler.
pub record Outside : Type 0 where
  pub unmarshal : Unmarshal
  pub unmarshal_hello : List ℕ → Option HelloRequest
  pub must_json : String → List ℕ → List ℕ
  pub handle_request : String → List ℕ → Answer

module _ (o : Outside) where
  -- `topicOf`: a topic has a name.
  unfoldable pub topic_of : Frame → Option String
  topic_of frame = elim (decode_json_message o.unmarshal frame) [
    | none ↦ none
    | some msg ↦ if msg.action == "" then none else some msg.action
  ]

  unfoldable pub handle_subscribe : Handler → ℕ → Frame → Bool → ℕ → Handler × List Output
  handle_subscribe h conn frame entering now = elim (topic_of frame) [
    | none ↦ (h, closed ∷ [])
    | some topic ↦
        if entering
        then (let h' = enter_topic h conn topic now in
            (
              h',
              reply response frame.header.stream_id "subscribed"
                    (subscribed topic (topic_sequence h' topic))
                  ∷ [],
            ))
        else (
          exit_topic h conn topic now,
          reply response frame.header.stream_id "unsubscribed" (unsubscribed topic) ∷ [],
        )
  ]

  unfoldable pub welcomed : Handler → ℕ → Frame → HelloRequest → ℕ → String → Handler × List Output
  welcomed h conn frame req now minted =
      let chosen = negotiate req.versions (pos 0) in
      let a = attach_session h conn req.resume req.cursors now minted in
      if leb_ℤ chosen (pos 0) && leb_ℤ (pos 0) chosen
      then (h, reply response frame.header.stream_id "hello" no_common_version ∷ [])
      else (
        a.handler,
        replay a.replay
            ∷ reply response frame.header.stream_id "hello" (welcome chosen a.token a.resumed)
            ∷ [],
      )

  abbrev pub empty_hello : HelloRequest
  empty_hello = record { versions = []; resume = ""; cursors = [] }

  unfoldable pub handle_hello : Handler → ℕ → Frame → ℕ → String → Handler × List Output
  handle_hello h conn frame now minted = elim (lookup conn h.conn_tokens) [
    | some token ↦ (h, closed ∷ [])
    | none ↦ elim (decode_json_message o.unmarshal frame) [
      | none ↦ (h, closed ∷ [])
      | some msg ↦
          if length msg.content == 0
          then welcomed h conn frame empty_hello now minted
          else elim (o.unmarshal_hello msg.content) [
            | none ↦ (h, closed ∷ [])
            | some req ↦ welcomed h conn frame req now minted
          ]
    ]
  ]

  unfoldable pub handle_request_frame : Frame → List Output
  handle_request_frame frame = elim (decode_json_message o.unmarshal frame) [
    | none ↦ closed ∷ []
    | some msg ↦ elim (o.handle_request msg.action msg.content) [
      | failed body ↦
          answer (new_frame response frame.header.stream_id (o.must_json msg.action body)) ∷ []
      | value none ↦ closed ∷ []
      | value (some body) ↦
          answer (new_frame response frame.header.stream_id (o.must_json msg.action body)) ∷ []
    ]
  ]

  -- The switch of `HandleRead`.
  unfoldable pub dispatch : Handler → ℕ → Frame → ℕ → String → Handler × List Output
  dispatch h conn frame now minted =
      let t = frame.header.frame_type in
      let id = frame.header.stream_id in
      if t == hello
      then handle_hello h conn frame now minted
      else if t == request
      then (h, handle_request_frame frame)
      else if t == subscribe
      then handle_subscribe h conn frame true now
      else if t == unsubscribe
      then handle_subscribe h conn frame false now
      else if t == ping
      then (record h { pings = h.pings + 1 }, reply pong id "pong" nothing ∷ [])
      else if t == pong
      then (record h { pongs = h.pongs + 1 }, [])
      else if t == close
      then (h, reply response id "bye" nothing ∷ hung_up ∷ [])
      else (h, closed ∷ [])

  abbrev pub has_token : Option String → Bool
  has_token none = false
  has_token (some token) = true

  unfoldable pub handle_read : Handler → ℕ → Frame → ℕ → String → Handler × List Output
  handle_read h conn frame now minted =
      let h' = touch_session h conn now in
      if h'.require_hello
        && not (frame.header.frame_type == hello)
        && not (has_token (lookup conn h'.conn_tokens))
      then (h', closed ∷ [])
      else dispatch h' conn frame now minted
