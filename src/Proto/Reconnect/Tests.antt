-- ===== src/Proto/Reconnect/Tests.antt =====
-- pkg/proto/resilient.go: connections and waits on concrete inputs.
use simple_go_server.Common.{
  ℕ, suc, ◌*◌, ◌^◌, min, ◌≡◌, refl, true, false, none, some, List, [], ◌∷◌, ◌++◌, arith, nat_eq,
  string_eq,
}
use simple_go_server.Common.Int.{pos}
use simple_go_server.Proto.Reconnect.{
  Origin, from_connect, from_watch, Resilient, new_resilient, Action, connect, watch, reconnect,
  close_client, close_done, dial, handshake, wake, swap, drop_connection, retire, resume, end_dial,
  connect_step, watch_step, wake_step, reconnect_step, dial_step, handshake_step, swap_step,
  retire_step, close_step, close_done_step, act, run, ResilientOptions, wait,
}
use simple_go_server.Proto.Reconnect.NoLeak.{connections_held}
use simple_go_server.Proto.Reconnect.Backoff.{wait_doubles}

-- A connection is dialed and installed.
abbrev joined : Origin → ℕ → List Action → List Action
joined origin n rest = dial origin ∷ handshake n true "t" ∷ swap n ∷ rest

-- Two Connects race; the second closes the connection of the first, and each has a watch.
abbrev racing : List Action
racing =
    connect
    ∷ connect
    ∷ joined from_connect 0 (joined from_connect 1 (retire 0 ∷ watch ∷ watch ∷ []))

abbrev after : List Action → Resilient
unfolding run
after actions = elim (run actions new_resilient) [ none ↦ new_resilient | some rc ↦ rc ]

connections_held_example : ((after racing).closed ≡ false) × ((after racing).client ≡ some 1)
unfolding after run act connect_step watch_step dial_step end_dial handshake_step swap_step resume
    retire_step
connections_held_example = connections_held racing (after racing) refl 1 tt refl

-- Close while a dial is under way.
close_wins_test :
    (after (
        connect
        ∷ dial from_connect
        ∷ close_client
        ∷ close_done
        ∷ handshake 0 true "a"
        ∷ swap 0
        ∷ retire 0
        ∷ [])).is_open
      0
    ≡ false
unfolding after run act connect_step dial_step end_dial handshake_step swap_step resume retire_step
    close_step close_done_step
close_wins_test = refl

-- Connection 1 of the racing Connects is lost, the only loss there is: both watches dial, the second
-- swap closes the connection of the first, so that the watch that took that one dials again, and so on.
abbrev endless : List Action
endless =
    racing
    ++ (drop_connection 1
        ∷ wake 1
        ∷ wake 1
        ∷ reconnect
        ∷ reconnect
        ∷ joined from_watch 2 (
            retire 1
            ∷ watch
            ∷ joined from_watch 3 (
                retire 2
                ∷ watch
                ∷ wake 2
                ∷ reconnect
                ∷ joined from_watch 4
                    (retire 3 ∷ watch ∷ wake 3 ∷ reconnect ∷ joined from_watch 5 []))))

endless_test :
    ((after endless).client ≡ some 5)
    × ((after endless).dialed ≡ 6)
    × ((after endless).closed ≡ false)
unfolding after run act connect_step watch_step wake_step reconnect_step dial_step end_dial
    handshake_step swap_step resume retire_step
endless_test = (refl, refl, refl)

-- A dial between the critical section of Close and the close of `done`: its connection is closed.
abbrev late_dial : List Action
late_dial =
    racing
    ++ (drop_connection 1
        ∷ wake 1
        ∷ close_client
        ∷ reconnect
        ∷ joined from_watch 2 (close_done ∷ retire 2 ∷ []))

late_dial_test : ((after late_dial).dialed ≡ 3) × ((after late_dial).is_open 2 ≡ false)
unfolding after run act connect_step watch_step wake_step reconnect_step dial_step end_dial
    handshake_step swap_step resume retire_step close_step close_done_step
late_dial_test = (refl, refl)

abbrev quick : ResilientOptions
quick = record { start = pos 10; max = pos 3; handshake = pos 0 }

wait_doubles_example :
    (wait quick 0 ≡ pos 10) × ((n : ℕ) → wait quick (suc n) ≡ pos (min (10 * 2 ^ suc n) 3))
wait_doubles_example = wait_doubles quick 9 2 refl refl (omega arith) (omega arith)
