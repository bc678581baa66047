-- ===== src/Proto/Client/Tests.antt =====
-- pkg/proto/client.go: calls on one connection, run on concrete actions.
use simple_go_server.Common.{
  ℕ, ◌<◌, ◌≡◌, refl, Bool, true, false, none, some, List, [], ◌∷◌, ◌++◌, arith, nat_eq, string_eq,
}
use simple_go_server.Common.Dict.{lookup, insert, delete}
use simple_go_server.Proto.{Frame, response}
use simple_go_server.Proto.Client.{
  Json, Response, response_of, empty, waiting, delivering, Client, new_client, close_all, Action,
  take_frame, write_step, receive_step, resolve_pending, take_step, deliver_step, fail_step,
  end_step, act, run, enter, register, write, receive, deliver, fail_pending, end_loop,
  close_client,
}
use simple_go_server.Proto.Client.Replies.{taken, ReadFrom, response-IsOwn}
use simple_go_server.Proto.Client.Stranded.{IsStranded, stranded_forever}
use simple_go_server.Proto.Client.Waiting.{expects}
use simple_go_server.Proto.Client.Ending.{
  Awaited, waiting-Awaited, IsReleased, fail_pending-IsReleased,
}
use simple_go_server.Common.Int.{pos}

-- Every payload is the message "a" without data.
abbrev plain : Json
plain = record {
  unmarshal = λ bytes. some record { action = "a"; content = [] };
  probe = λ bytes. none;
  failure = "bad";
}

abbrev reply : ℕ → Frame
reply id = record {
  header = record { frame_type = response; flags = 0; stream_id = id; length = pos 0 };
  payload = [];
}

abbrev answer : Response
answer = record { action = "a"; content = []; error = none }

-- Two calls whose responses come in the other order.
abbrev crossed : List Action
crossed =
    enter
    ∷ enter
    ∷ register false true
    ∷ register true true
    ∷ write 0 true
    ∷ write 1 true
    ∷ take_frame (reply 2)
    ∷ deliver
    ∷ receive 1
    ∷ take_frame (reply 1)
    ∷ deliver
    ∷ receive 0
    ∷ []

abbrev after : List Action → Client
unfolding run
after actions = elim (run plain actions new_client) [ none ↦ new_client | some s ↦ s ]

response-IsOwn_example : ReadFrom plain (taken crossed) ((after crossed).ids 1) answer
unfolding after run act write_step take_step resolve_pending deliver_step receive_step lookup insert
    delete response_of
response-IsOwn_example = response-IsOwn plain crossed (after crossed) refl 1 answer refl

abbrev one_waits : List Action
one_waits = enter ∷ register false true ∷ write 0 true ∷ []

waiting-Awaited_example :
    ((k : ℕ)
      → k < (after one_waits).calls
      → expects ((after one_waits).phases k) ≡ true
      → Awaited (after one_waits) k)
    × ((ch : ℕ) (r : Response)
        → (after one_waits).reader ≡ delivering ch r
        → (after one_waits).channels ch ≡ empty)
unfolding after run act write_step lookup insert
waiting-Awaited_example = waiting-Awaited plain one_waits (after one_waits) refl (omega arith)

fail_pending-IsReleased_example :
    (t : Client) × (act plain fail_pending (after one_waits) ≡ some t)
    × ((k : ℕ) (timed : Bool)
        → k < (after one_waits).calls
        → (after one_waits).phases k ≡ waiting timed
        → IsReleased plain t k)
unfolding after run act write_step lookup insert
fail_pending-IsReleased_example =
    fail_pending-IsReleased plain one_waits (after one_waits) refl (omega arith) refl

-- The server goes away while a call is between its test and the lock.
abbrev too_late : List Action
too_late = enter ∷ fail_pending ∷ register false true ∷ write 0 true ∷ []

abbrev too_late-IsStranded : IsStranded 0 (after too_late)
unfolding after run act fail_step close_all write_step lookup insert
too_late-IsStranded = record { known = omega arith; waits = refl; silent = refl; over = tt }

abbrev end_of_loop : List Action
end_of_loop = end_loop ∷ close_client ∷ []

stranded_forever_example : IsStranded 0 (after (too_late ++ end_of_loop))
unfolding after run act fail_step close_all write_step lookup insert end_step
stranded_forever_example =
    stranded_forever plain 0 (after too_late) too_late-IsStranded end_of_loop
      (after (too_late ++ end_of_loop)) refl
