-- ===== src/Proto/Client/Replies.antt =====
-- pkg/proto/client.go: whose response a call gets, over all its actions.
use simple_go_server.Common.{ℕ, ◌≡◌, refl, subst, true, some, List, [], ◌∷◌, nat_eq, string_eq, All}
use simple_go_server.Proto.{Frame}
use simple_go_server.Proto.Client.{
  Json, Response, response_of, answered, Client, new_client, Action, take_frame, is_reply, run,
  enter, register, write, drop_pending, receive, time_out, deliver, fail_pending, end_loop,
  close_client,
}
use simple_go_server.Proto.Client.Own.{Answered, IsOwn, new-IsOwn}
use simple_go_server.Proto.Client.Runs.{Kept, run-Kept}
use simple_go_server.Proto.Client.Steps.{Good, act-Kept}

-- The frames that the read loop took.
unfoldable pub taken : List Action → List Frame
taken [] = []
taken (take_frame frame ∷ rest) = frame ∷ taken rest
taken (a ∷ rest) = taken rest

pub data Among (frame : Frame) : List Frame → Type 0 where
  here : (rest : List Frame) → Among frame (frame ∷ rest)
  there : (other : Frame) (rest : List Frame) → Among frame rest → Among frame (other ∷ rest)

-- `r` was read off a reply with this id.
pub record ReadFrom (json : Json) (frames : List Frame) (id : ℕ) (r : Response) : Type 0 where
  pub frame : Frame
  pub among : Among frame frames
  pub reply : is_reply frame ≡ true
  pub same_id : frame.header.stream_id ≡ id
  pub same_response : response_of json frame ≡ r

more-ReadFrom :
    (json : Json) (frame : Frame) (frames : List Frame) (id : ℕ) (r : Response)
    → ReadFrom json frames id r
    → ReadFrom json (frame ∷ frames) id r
more-ReadFrom json frame frames id r f = record {
  frame = f.frame;
  among = there frame frames f.among;
  reply = f.reply;
  same_id = f.same_id;
  same_response = f.same_response;
}

-- A predicate on ids and responses holds for what the taken frames answer, if each does so for them.
weaken-Good :
    (P Q : ℕ → Response → Type 0) (json : Json) (actions : List Action)
    → ((id : ℕ) (r : Response) → P id r → Q id r)
    → All (Good P json) actions
    → All (Good Q json) actions
weaken-Good P Q json [] f good = tt
weaken-Good P Q json (take_frame frame ∷ rest) f good =
    (λ reply. f _ _ (good.0 reply), weaken-Good P Q json rest f good.1)
weaken-Good P Q json (enter ∷ rest) f good = (tt, weaken-Good P Q json rest f good.1)
weaken-Good P Q json (register t e ∷ rest) f good = (tt, weaken-Good P Q json rest f good.1)
weaken-Good P Q json (write k w ∷ rest) f good = (tt, weaken-Good P Q json rest f good.1)
weaken-Good P Q json (drop_pending k ∷ rest) f good = (tt, weaken-Good P Q json rest f good.1)
weaken-Good P Q json (receive k ∷ rest) f good = (tt, weaken-Good P Q json rest f good.1)
weaken-Good P Q json (time_out k ∷ rest) f good = (tt, weaken-Good P Q json rest f good.1)
weaken-Good P Q json (deliver ∷ rest) f good = (tt, weaken-Good P Q json rest f good.1)
weaken-Good P Q json (fail_pending ∷ rest) f good = (tt, weaken-Good P Q json rest f good.1)
weaken-Good P Q json (end_loop ∷ rest) f good = (tt, weaken-Good P Q json rest f good.1)
weaken-Good P Q json (close_client ∷ rest) f good = (tt, weaken-Good P Q json rest f good.1)

taken-Good :
    (json : Json) (actions : List Action) → All (Good (ReadFrom json (taken actions)) json) actions
unfolding taken
taken-Good json [] = tt
taken-Good json (take_frame frame ∷ rest) = (
  λ reply. record {
    frame = frame;
    among = here (taken rest);
    reply = reply;
    same_id = refl;
    same_response = refl;
  },
  weaken-Good (ReadFrom json (taken rest)) (ReadFrom json (frame ∷ taken rest)) json rest
      (more-ReadFrom json frame (taken rest)) (taken-Good json rest),
)
taken-Good json (enter ∷ rest) = (tt, taken-Good json rest)
taken-Good json (register t e ∷ rest) = (tt, taken-Good json rest)
taken-Good json (write k w ∷ rest) = (tt, taken-Good json rest)
taken-Good json (drop_pending k ∷ rest) = (tt, taken-Good json rest)
taken-Good json (receive k ∷ rest) = (tt, taken-Good json rest)
taken-Good json (time_out k ∷ rest) = (tt, taken-Good json rest)
taken-Good json (deliver ∷ rest) = (tt, taken-Good json rest)
taken-Good json (fail_pending ∷ rest) = (tt, taken-Good json rest)
taken-Good json (end_loop ∷ rest) = (tt, taken-Good json rest)
taken-Good json (close_client ∷ rest) = (tt, taken-Good json rest)

-- However the actions of the callers, of the read loop and of Close interleave, from a new client: a
-- response that a call returns was read off a frame that the read loop took, a response or a pong,
-- which carries that call's own stream id.
pub response-IsOwn :
    (json : Json) (actions : List Action) (s : Client)
    → run json actions new_client ≡ some s
    → (k : ℕ) (r : Response) → s.phases k ≡ answered r
    → ReadFrom json (taken actions) (s.ids k) r
response-IsOwn json actions s e k r f =
    let P = ReadFrom json (taken actions) in
    let own : IsOwn P s = subst (Kept (IsOwn P)) e (
      run-Kept (IsOwn P) json (Good P json) (act-Kept P json) actions new_client (new-IsOwn P)
        (taken-Good json actions)) in
    subst (Answered P (s.ids k)) f (own.answers k)
