-- ===== src/Proto/Reconnect.antt =====
-- pkg/proto/resilient.go: the connections of a resilient client, and its waits between attempts. Each
-- action is a piece of a method that other goroutines see as one step. The connections are numbered as
-- they are dialed.
pub mod Held
pub mod NoLeak
pub mod Backoff
pub mod Tests
use simple_go_server.Common.{
  ℕ, zero, suc, ◌+◌, ◌-◌, ◌*◌, ◌/◌, ◌%◌, ◌^◌, ◌≤◌, ◌<◌, min, String, ◌≡◌, refl, sym, ap, ◌∙◌, subst,
  ◌≢◌, ◌↔◌, ◌⊎◌, inl, inr, Bool, true, false, not, ◌&&◌, ◌||◌, Option, none, some, List, [], ◌∷◌,
  ◌++◌, map, append-nil, append_assoc, arith, ltb, leb, if◌then◌else◌, Eq, ◌==◌, nat_eq, string_eq,
  nat_beq_iff, beq_refl, Bool-cases, Option-cases, length, get_elem?, get_or, take, drop, All,
  length-append, length-take, length-drop, take-append-drop, take-length-append, drop-length-append,
  get_elem?-lt, lt_of_get_elem?, All-append, All-get, take_all, drop_all,
}
use simple_go_server.Common.Int.{ℤ, pos, add_int, ltb_ℤ}

pub record ResilientOptions : Type 0 where
  pub start : ℤ
  pub max : ℤ
  pub handshake : ℤ

-- 100 milliseconds and 5 seconds, in nanoseconds.
abbrev pub default_start : ℤ
default_start = pos 100000000

abbrev pub five_seconds : ℤ
five_seconds = pos 5000000000

abbrev pub backoff_start : ResilientOptions → ℤ
backoff_start o = if ltb_ℤ (pos 0) o.start then o.start else default_start

abbrev pub backoff_max : ResilientOptions → ℤ
backoff_max o = if ltb_ℤ (pos 0) o.max then o.max else five_seconds

abbrev pub handshake_timeout : ResilientOptions → ℤ
handshake_timeout o = if ltb_ℤ (pos 0) o.handshake then o.handshake else five_seconds

-- The wait after the next failed attempt: doubled as an int64, and capped.
unfoldable pub next_backoff : ℤ → ℤ → ℤ
next_backoff max backoff =
    let doubled = add_int backoff backoff in if ltb_ℤ max doubled then max else doubled

unfoldable pub backoff_from : ℤ → ℤ → ℕ → ℤ
backoff_from max backoff zero = backoff
backoff_from max backoff (suc n) = backoff_from max (next_backoff max backoff) n

-- The wait of reconnectLoop after `n` failed attempts and one more.
abbrev pub wait : ResilientOptions → ℕ → ℤ
wait o n = backoff_from (backoff_max o) (backoff_start o) n

-- Whose dial it is: of Connect, or of the reconnectLoop of a watch.
pub data Origin : Type 0 where
  from_connect from_watch : Origin

-- What the goroutine that is about to close a connection does next: nothing, the next round of a
-- watch, the next round of reconnectLoop; or it is Close, which closes `done` before.
pub data Onward : Type 0 where
  over to_watch to_loop behind_done : Onward

-- Who holds a connection: the goroutine in dialAndHandshake, the one before its swap, the resilient
-- client, a goroutine that is about to close it, or nobody any more.
pub data Role : Type 0 where
  handshaking : Origin → Role
  ready : Origin → String → Role
  installed released : Role
  retiring : Onward → Role

-- `done` is closed by Close behind its critical section. `connecting` and `redialing` are the dials
-- under way of Connects and of watches; `watches` are the watches at the top of their loop,
-- `waiting` those that wait for the end of the connection they took, `looping` those at the top of
-- reconnectLoop or in its wait.
pub record Resilient : Type 0 where
  pub client : Option ℕ
  pub token : String
  pub closed : Bool
  pub done : Bool
  pub connecting : ℕ
  pub redialing : ℕ
  pub watches : ℕ
  pub waiting : ℕ → ℕ
  pub looping : ℕ
  pub dialed : ℕ
  pub roles : ℕ → Role
  pub is_open : ℕ → Bool

abbrev pub new_resilient : Resilient
new_resilient = record {
  client = none;
  token = "";
  closed = false;
  done = false;
  connecting = 0;
  redialing = 0;
  watches = 0;
  waiting = λ n. 0;
  looping = 0;
  dialed = 0;
  roles = λ n. released;
  is_open = λ n. false;
}

abbrev pub set {ℓ} : {A : Type ℓ} → (ℕ → A) → ℕ → A → ℕ → A
set f n value j = if j == n then value else f j

pub data Action : Type 0 where
  connect watch reconnect close_client close_done : Action
  dial dial_failed : Origin → Action
  -- The flag: whether the handshake succeeds; the token that it gives.
  handshake : ℕ → Bool → String → Action
  wake wake_done swap drop_connection retire : ℕ → Action

-- `current`: the client for the calls of the API.
pub data Current : Type 0 where
  live : ℕ → Current
  err_closed err_not_connected : Current

abbrev pub current : Resilient → Current
current rc =
    if rc.closed then err_closed else elim rc.client [ none ↦ err_not_connected | some n ↦ live n ]

-- The client that a method took out under the lock is closed behind it.
abbrev pub retire_old : Onward → Option ℕ → (ℕ → Role) → ℕ → Role
retire_old onward none roles = roles
retire_old onward (some old) roles = set roles old (retiring onward)

-- A goroutine goes on.
unfoldable pub resume : Onward → Resilient → Resilient
resume over rc = rc
resume to_watch rc = record rc { watches = rc.watches + 1 }
resume to_loop rc = record rc { looping = rc.looping + 1 }
resume behind_done rc = rc

-- dialAndHandshake fails: Connect returns, reconnectLoop goes on.
abbrev pub after_failure : Origin → Onward
after_failure from_connect = over
after_failure from_watch = to_loop

-- A dial under way ends, if there is one.
unfoldable pub end_dial : Origin → Resilient → Option Resilient
end_dial from_connect rc =
    if rc.connecting == 0 then none else some record rc { connecting = rc.connecting - 1 }
end_dial from_watch rc =
    if rc.redialing == 0 then none else some record rc { redialing = rc.redialing - 1 }

-- Behind its swap, Connect starts a watch and reconnectLoop returns to its own, at once if there is
-- no old client to close.
abbrev pub after_swap : Option ℕ → Onward
after_swap none = to_watch
after_swap (some old) = over

-- Only Close waits for something before it closes a connection.
abbrev pub may_retire : Onward → Bool → Bool
may_retire behind_done done = done
may_retire over done = true
may_retire to_watch done = true
may_retire to_loop done = true

module _ (rc : Resilient) where
  -- The first critical section of Connect.
  unfoldable pub connect_step : Resilient
  connect_step =
      if rc.closed
      then rc
      else elim rc.client [ none ↦ record rc { connecting = rc.connecting + 1 } | some n ↦ rc ]

  -- The critical section of watch: it takes the client, to wait for the end of that connection.
  unfoldable pub watch_step : Option Resilient
  watch_step =
      if rc.watches == 0
      then none
      else some (
          if rc.closed then record rc { watches = rc.watches - 1 } else elim rc.client [
            | none ↦ record rc { watches = rc.watches - 1 }
            | some n ↦ record rc {
              watches = rc.watches - 1;
              waiting = set rc.waiting n (rc.waiting n + 1);
            }
          ])

  -- The select of watch: the connection it took has ended.
  unfoldable pub wake_step : ℕ → Option Resilient
  wake_step n =
      if rc.waiting n == 0 || rc.is_open n
      then none
      else some
          record rc { waiting = set rc.waiting n (rc.waiting n - 1); looping = rc.looping + 1 }

  -- The select of watch: `done` is closed.
  unfoldable pub wake_done_step : ℕ → Option Resilient
  wake_done_step n =
      if rc.waiting n == 0 || not rc.done
      then none
      else some record rc { waiting = set rc.waiting n (rc.waiting n - 1) }

  -- The selects of reconnectLoop: it returns once `done` is closed, and dials otherwise.
  unfoldable pub reconnect_step : Option Resilient
  reconnect_step =
      if rc.looping == 0
      then none
      else some (
          if rc.done
          then record rc { looping = rc.looping - 1 }
          else record rc { looping = rc.looping - 1; redialing = rc.redialing + 1 })

  unfoldable pub dial_step : Origin → Option Resilient
  dial_step origin = elim (end_dial origin rc) [
    | none ↦ none
    | some next ↦ some record next {
      dialed = next.dialed + 1;
      roles = set next.roles next.dialed (handshaking origin);
      is_open = set next.is_open next.dialed true;
    }
  ]

  unfoldable pub dial_failed_step : Origin → Option Resilient
  dial_failed_step origin = elim (end_dial origin rc) [
    | none ↦ none
    | some next ↦ some (resume (after_failure origin) next)
  ]

  unfoldable pub handshake_step : ℕ → Bool → String → Role → Option Resilient
  handshake_step n agreed token (handshaking origin) = some record rc {
    roles = set rc.roles n (if agreed then ready origin token else retiring (after_failure origin));
  }
  handshake_step n agreed token role = none

  unfoldable pub swap_step : ℕ → Role → Option Resilient
  swap_step n (ready origin token) = some (
      if rc.closed
      then record rc { roles = set rc.roles n (retiring to_watch) }
      else resume (after_swap rc.client) record rc {
        client = some n;
        token = token;
        roles = set (retire_old to_watch rc.client rc.roles) n installed;
      })
  swap_step n role = none

  -- A connection is closed by the goroutine that holds it for that, which goes on.
  unfoldable pub retire_step : ℕ → Role → Option Resilient
  retire_step n (retiring onward) =
      if may_retire onward rc.done
      then some (
          resume onward
            record rc { roles = set rc.roles n released; is_open = set rc.is_open n false })
      else none
  retire_step n role = none

  -- The critical section of Close; `done` and the client are closed behind it. What another Close
  -- closes is closed already, or as if it were lost.
  unfoldable pub close_step : Resilient
  close_step =
      if rc.closed
      then rc
      else record rc { closed = true; roles = retire_old behind_done rc.client rc.roles }

  -- Close behind its critical section, up to the close of `done`.
  unfoldable pub close_done_step : Option Resilient
  close_done_step = if rc.closed then some record rc { done = true } else none

unfoldable pub act : Action → Resilient → Option Resilient
act connect rc = some (connect_step rc)
act watch rc = watch_step rc
act (wake n) rc = wake_step rc n
act (wake_done n) rc = wake_done_step rc n
act reconnect rc = reconnect_step rc
act (dial origin) rc = dial_step rc origin
act (dial_failed origin) rc = dial_failed_step rc origin
act (handshake n agreed token) rc = handshake_step rc n agreed token (rc.roles n)
act (swap n) rc = swap_step rc n (rc.roles n)
act (drop_connection n) rc = some record rc { is_open = set rc.is_open n false }
act (retire n) rc = retire_step rc n (rc.roles n)
act close_client rc = some (close_step rc)
act close_done rc = close_done_step rc

unfoldable pub run : List Action → Resilient → Option Resilient
run [] rc = some rc
run (a ∷ rest) rc = elim (act a rc) [ none ↦ none | some next ↦ run rest next ]
