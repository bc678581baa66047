-- ===== src/Proto/Client/Ending.antt =====
-- pkg/proto/client.go: waiting calls in every reachable state, and when the read loop ends.
use simple_go_server.Common.{
  ℕ, suc, ◌^◌, ◌<◌, ◌≡◌, refl, subst, ◌≢◌, ◌⊎◌, inl, inr, Bool, true, some, List, [], nat_eq,
  string_eq, beq_refl,
}
use simple_go_server.Common.Dict.{lookup}
use simple_go_server.Proto.Client.{
  Json, Response, Channel, empty, shut, filled, Phase, waiting, answered, failed, Reader, reading,
  delivering, failing, ended, Client, new_client, set, close_all, Action, receive_step, fail_step,
  act, run, pending_closed, receive, fail_pending,
}
use simple_go_server.Proto.Client.Waiting.{expects, IsAt, IsSound, Delivers}
use simple_go_server.Proto.Client.Table.{failed-Sound}
use simple_go_server.Proto.Client.Releasing.{run-Sound}

-- What the response of a call can still do.
pub data Awaited (s : Client) (k : ℕ) : Type 0 where
  ready : s.channels k ≢ empty → Awaited s k
  entered : lookup (suc k) s.pending ≡ some k → s.ids k ≡ suc k → Awaited s k
  on_its_way : (r : Response) → s.reader ≡ delivering k r → Awaited s k

at-on_its_way :
    (s : Client) (k : ℕ) (reader : Reader) → s.reader ≡ reader → IsAt k reader → Awaited s k
at-on_its_way s k (delivering ch r) e same =
    on_its_way r (subst (λ c. s.reader ≡ delivering c r) same e)
at-on_its_way s k reading e same = elim same [ ]
at-on_its_way s k failing e same = elim same [ ]
at-on_its_way s k ended e same = elim same [ ]

channel-Awaited :
    (s : Client) (k : ℕ)
    → IsSound s
    → k < s.calls
    → expects (s.phases k) ≡ true
    → (channel : Channel) → s.channels k ≡ channel
    → Awaited s k
channel-Awaited s k sound h f (filled r) e = ready (λ silent. absurd (cc (e, silent)))
channel-Awaited s k sound h f shut e = ready (λ silent. absurd (cc (e, silent)))
channel-Awaited s k sound h f empty e = elim (sound.waits k h f e) [
  | inl found ↦ entered found (sound.numbered k h)
  | inr at ↦ at-on_its_way s k s.reader refl at
]

-- In every state that fewer than 2^32 calls lead to from a new client, however the actions interleave:
-- a call that has still to write or that waits is answered or closed already, or stands in the table
-- of pending calls under its own id, or is the one that the read loop is about to answer; and the
-- channel to which the read loop is about to send is empty, so that the send does not block.
pub waiting-Awaited :
    (json : Json) (actions : List Action) (s : Client)
    → run json actions new_client ≡ some s
    → s.calls < 2 ^ 32
    → ((k : ℕ) → k < s.calls → expects (s.phases k) ≡ true → Awaited s k)
      × ((ch : ℕ) (r : Response) → s.reader ≡ delivering ch r → s.channels ch ≡ empty)
waiting-Awaited json actions s e bound =
    let sound = run-Sound json actions s e bound in
    (
      λ k h f. channel-Awaited s k sound h f (s.channels k) refl,
      λ ch r at. (subst (Delivers s.calls s.pending s.channels) at sound.delivers).1,
    )

-- The call returned.
abbrev pub IsReturned : Phase → Type 0
IsReturned (answered r) = Unit {0}
IsReturned (failed e) = Unit {0}
IsReturned phase = ⊥

pub record IsReleased (json : Json) (s : Client) (k : ℕ) : Type 0 where
  pub result : Client
  pub receives : act json (receive k) s ≡ some result
  pub returned : IsReturned (result.phases k)

released :
    (json : Json) (s : Client) (k : ℕ) (timed : Bool)
    → s.phases k ≡ waiting timed
    → (channel : Channel) → s.channels k ≡ channel
    → channel ≢ empty
    → IsReleased json s k
unfolding act receive_step
released json s k timed e empty f full = absurd (full refl)
released json s k timed e shut f full = record {
  result = record s { phases = set s.phases k (failed pending_closed) };
  receives = rw (act, e, f) refl;
  returned = rw (beq_refl k) tt;
}
released json s k timed e (filled r) f full = record {
  result = record s { phases = set s.phases k (answered r) };
  receives = rw (act, e, f) refl;
  returned = rw (beq_refl k) tt;
}

no_entry : (k : ℕ) → (lookup (suc k) [] ≡ some k) ⊎ ⊥ → ⊥
unfolding lookup
no_entry k (inl listed) = absurd (cc listed)
no_entry k (inr nowhere) = nowhere

-- When the read loop fails in a state that fewer than 2^32 calls lead to, failPending leaves no call
-- behind: each call that waits at that moment can receive at once, and returns by that.
pub fail_pending-IsReleased :
    (json : Json) (actions : List Action) (s : Client)
    → run json actions new_client ≡ some s
    → s.calls < 2 ^ 32
    → s.reader ≡ reading
    → (t : Client) × (act json fail_pending s ≡ some t)
      × ((k : ℕ) (timed : Bool) → k < s.calls → s.phases k ≡ waiting timed → IsReleased json t k)
unfolding act fail_step lookup
fail_pending-IsReleased json actions s e bound idle =
    let after = failed-Sound s (run-Sound json actions s e bound) idle in
    let t : Client = record s {
      channels = close_all s.pending s.channels;
      pending = [];
      reader = failing;
    } in
    let full : (k : ℕ) → k < s.calls → expects (s.phases k) ≡ true → t.channels k ≢ empty =
      λ k h f silent. no_entry k (after.waits k h f silent) in
    (
      t,
      rw (act, idle) refl,
      λ k timed h f. released json t k timed f (t.channels k) refl (full k h (rw f refl)),
    )
