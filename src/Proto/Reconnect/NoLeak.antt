-- ===== src/Proto/Reconnect/NoLeak.antt =====
-- pkg/proto/resilient.go: who holds the open connections over all actions.
use simple_go_server.Common.{
  ℕ, ◌+◌, ◌-◌, ◌≡◌, refl, subst, inl, inr, Bool, true, false, not, ◌||◌, Option, none, some, List,
  [], ◌∷◌, if◌then◌else◌, ◌==◌, nat_eq, string_eq, Bool-cases,
}
use simple_go_server.Proto.Reconnect.{
  behind_done, Role, handshaking, ready, installed, retiring, released, Resilient, new_resilient,
  set, Action, connect, watch, reconnect, close_client, close_done, dial, dial_failed, handshake,
  wake, wake_done, swap, drop_connection, retire, retire_old, connect_step, watch_step, wake_step,
  wake_done_step, reconnect_step, close_step, close_done_step, act, run,
}
use simple_go_server.Proto.Reconnect.Held.{
  Fits, IsHeld, Kept, retired-Fits, swap-Kept, retire-Kept, handshake-Kept, maybe-Kept, dial-Kept,
  dial_failed-Kept,
}

connecting-IsHeld :
    (rc : Resilient) (closed : Bool) (client : Option ℕ)
    → IsHeld rc
    → IsHeld (
        if closed
        then rc
        else elim client [ none ↦ record rc { connecting = rc.connecting + 1 } | some n ↦ rc ])
connecting-IsHeld rc true client held = held
connecting-IsHeld rc false none held = held
connecting-IsHeld rc false (some n) held = held

connect-IsHeld : (rc : Resilient) → IsHeld rc → IsHeld (connect_step rc)
unfolding connect_step
connect-IsHeld rc held = connecting-IsHeld rc rc.closed rc.client held

watching-IsHeld :
    (rc : Resilient) (closed : Bool) (client : Option ℕ)
    → IsHeld rc
    → IsHeld (
        if closed then record rc { watches = rc.watches - 1 } else elim client [
          | none ↦ record rc { watches = rc.watches - 1 }
          | some n ↦ record rc {
            watches = rc.watches - 1;
            waiting = set rc.waiting n (rc.waiting n + 1);
          }
        ])
watching-IsHeld rc true client held = held
watching-IsHeld rc false none held = held
watching-IsHeld rc false (some n) held = held

watch-Kept : (rc : Resilient) → IsHeld rc → Kept (watch_step rc)
unfolding watch_step
watch-Kept rc held = maybe-Kept (rc.watches == 0) _ (watching-IsHeld rc rc.closed rc.client held)

wake-Kept : (rc : Resilient) (n : ℕ) → IsHeld rc → Kept (wake_step rc n)
unfolding wake_step
wake-Kept rc n held =
    maybe-Kept (rc.waiting n == 0 || rc.is_open n)
      (record rc { waiting = set rc.waiting n (rc.waiting n - 1); looping = rc.looping + 1 }) held

wake_done-Kept : (rc : Resilient) (n : ℕ) → IsHeld rc → Kept (wake_done_step rc n)
unfolding wake_done_step
wake_done-Kept rc n held =
    maybe-Kept (rc.waiting n == 0 || not rc.done)
      (record rc { waiting = set rc.waiting n (rc.waiting n - 1) }) held

looping-IsHeld :
    (rc : Resilient) (done : Bool)
    → IsHeld rc
    → IsHeld (
        if done
        then record rc { looping = rc.looping - 1 }
        else record rc { looping = rc.looping - 1; redialing = rc.redialing + 1 })
looping-IsHeld rc true held = held
looping-IsHeld rc false held = held

reconnect-Kept : (rc : Resilient) → IsHeld rc → Kept (reconnect_step rc)
unfolding reconnect_step
reconnect-Kept rc held = maybe-Kept (rc.looping == 0) _ (looping-IsHeld rc rc.done held)

closing-IsHeld :
    (rc : Resilient) (closed : Bool)
    → IsHeld rc
    → IsHeld (
        if closed
        then rc
        else record rc { closed = true; roles = retire_old behind_done rc.client rc.roles })
closing-IsHeld rc true held j = held j
closing-IsHeld rc false held j =
    retired-Fits behind_done rc.closed true rc.client rc.client j rc.roles (rc.is_open j) (held j)

close-IsHeld : (rc : Resilient) → IsHeld rc → IsHeld (close_step rc)
unfolding close_step
close-IsHeld rc held = closing-IsHeld rc rc.closed held

done-Kept :
    (rc : Resilient) (closed : Bool)
    → IsHeld rc
    → Kept (if closed then some record rc { done = true } else none)
done-Kept rc true held = held
done-Kept rc false held = tt

close_done-Kept : (rc : Resilient) → IsHeld rc → Kept (close_done_step rc)
unfolding close_done_step
close_done-Kept rc held = done-Kept rc rc.closed held

shut-Fits :
    (closed : Bool) (client : Option ℕ) (n : ℕ) (is_open : Bool) (role : Role)
    → Fits closed client n role is_open
    → Fits closed client n role false
shut-Fits closed client n is_open installed fits = fits
shut-Fits closed client n is_open released fits = refl
shut-Fits closed client n is_open (handshaking origin) fits = tt
shut-Fits closed client n is_open (ready origin token) fits = tt
shut-Fits closed client n is_open (retiring onward) fits = tt

drop-IsHeld :
    (rc : Resilient) (n : ℕ) → IsHeld rc → IsHeld record rc { is_open = set rc.is_open n false }
drop-IsHeld rc n held j = elim (Bool-cases (j == n)) [
  | inl hit ↦ rw hit (shut-Fits rc.closed rc.client j (rc.is_open j) (rc.roles j) (held j))
  | inr miss ↦ rw miss (held j)
]

act-Kept : (a : Action) (rc : Resilient) → IsHeld rc → Kept (act a rc)
unfolding act
act-Kept connect rc held = connect-IsHeld rc held
act-Kept watch rc held = watch-Kept rc held
act-Kept (wake n) rc held = wake-Kept rc n held
act-Kept (wake_done n) rc held = wake_done-Kept rc n held
act-Kept reconnect rc held = reconnect-Kept rc held
act-Kept (dial origin) rc held = dial-Kept rc origin held
act-Kept (dial_failed origin) rc held = dial_failed-Kept rc origin held
act-Kept (handshake n agreed token) rc held = handshake-Kept rc n agreed token (rc.roles n) held
act-Kept (swap n) rc held = swap-Kept rc n (rc.roles n) held
act-Kept (drop_connection n) rc held = drop-IsHeld rc n held
act-Kept (retire n) rc held = retire-Kept rc n (rc.roles n) held
act-Kept close_client rc held = close-IsHeld rc held
act-Kept close_done rc held = close_done-Kept rc held

next-Kept :
    (rest : List Action) (r : Option Resilient)
    → ((rc : Resilient) → IsHeld rc → Kept (run rest rc))
    → Kept r
    → Kept (elim r [ none ↦ none | some next ↦ run rest next ])
next-Kept rest none f held = tt
next-Kept rest (some rc) f held = f rc held

run-Kept : (actions : List Action) (rc : Resilient) → IsHeld rc → Kept (run actions rc)
unfolding run
run-Kept [] rc held = held
run-Kept (a ∷ rest) rc held = next-Kept rest (act a rc) (run-Kept rest) (act-Kept a rc held)

-- No goroutine is between taking a connection and passing it on or closing it.
abbrev pub IsAtRest : Role → Type 0
IsAtRest (handshaking origin) = ⊥
IsAtRest (ready origin token) = ⊥
IsAtRest (retiring onward) = ⊥
IsAtRest installed = Unit {0}
IsAtRest released = Unit {0}

rest_lem :
    (closed : Bool) (client : Option ℕ) (n : ℕ) (is_open : Bool) (role : Role)
    → Fits closed client n role is_open
    → IsAtRest role
    → is_open ≡ true
    → (closed ≡ false) × (client ≡ some n)
rest_lem closed client n is_open installed fits rest e = fits
rest_lem closed client n is_open released fits rest e = absurd (cc (fits, e))
rest_lem closed client n is_open (handshaking origin) fits rest e = elim rest [ ]
rest_lem closed client n is_open (ready origin token) fits rest e = elim rest [ ]
rest_lem closed client n is_open (retiring onward) fits rest e = elim rest [ ]

-- However Connects, watches, reconnections, lost connections and Closes interleave, from a new
-- client: a connection that is open, and that no goroutine is still to pass on or to close, is the installed
-- one, and the resilient client is not closed.
pub connections_held :
    (actions : List Action) (rc : Resilient)
    → run actions new_resilient ≡ some rc
    → (n : ℕ) → IsAtRest (rc.roles n)
    → rc.is_open n ≡ true
    → (rc.closed ≡ false) × (rc.client ≡ some n)
connections_held actions rc e n rest f =
    let held : IsHeld rc = subst Kept e (run-Kept actions new_resilient (λ j. refl)) in
    rest_lem rc.closed rc.client n (rc.is_open n) (rc.roles n) (held n) rest f
