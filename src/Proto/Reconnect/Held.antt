-- ===== src/Proto/Reconnect/Held.antt =====
-- pkg/proto/resilient.go: who holds the open connections of a resilient client.
use simple_go_server.Common.{
  ℕ, String, ◌+◌, ◌-◌, ◌≡◌, refl, inl, inr, Bool, true, false, Option, none, some, arith,
  if◌then◌else◌, ◌==◌, nat_eq, string_eq, Bool-cases,
}
use simple_go_server.Proto.Reconnect.{
  Role, handshaking, ready, installed, retiring, released, Resilient, set, retire_old, Origin,
  from_connect, from_watch, Onward, over, to_watch, to_loop, behind_done, resume, after_failure,
  after_swap, may_retire, end_dial, dial_step, dial_failed_step, handshake_step, swap_step,
  retire_step,
}

-- What the role of connection `n` says of it: the installed one is the client, which is not closed,
-- and one that nobody holds is not open.
abbrev pub Fits : Bool → Option ℕ → ℕ → Role → Bool → Type 0
Fits closed client n installed is_open = (closed ≡ false) × (client ≡ some n)
Fits closed client n released is_open = is_open ≡ false
Fits closed client n (handshaking origin) is_open = Unit {0}
Fits closed client n (ready origin token) is_open = Unit {0}
Fits closed client n (retiring onward) is_open = Unit {0}

abbrev pub IsHeld : Resilient → Type 0
IsHeld rc = (n : ℕ) → Fits rc.closed rc.client n (rc.roles n) (rc.is_open n)

abbrev pub Kept : Option Resilient → Type 0
Kept none = Unit {0}
Kept (some rc) = IsHeld rc

-- A role and an openness that fit at `n`, and the old ones elsewhere.
set-IsHeld :
    (rc : Resilient) (n : ℕ) (role : Role) (is_open : Bool)
    → IsHeld rc
    → Fits rc.closed rc.client n role is_open
    → (j : ℕ) → Fits rc.closed rc.client j (set rc.roles n role j) (set rc.is_open n is_open j)
set-IsHeld rc n role is_open held fits j = elim (Bool-cases (j == n)) [
  | inl hit ↦ rw (hit, (nat_eq.beq_iff j n).0 hit) fits
  | inr miss ↦ rw miss (held j)
]

role-IsHeld :
    (rc : Resilient) (n : ℕ) (role : Role)
    → IsHeld rc
    → Fits rc.closed rc.client n role (rc.is_open n)
    → IsHeld record rc { roles = set rc.roles n role }
role-IsHeld rc n role held fits j = elim (Bool-cases (j == n)) [
  | inl hit ↦ rw (hit, (nat_eq.beq_iff j n).0 hit) fits
  | inr miss ↦ rw miss (held j)
]

-- What is not installed fits whatever the client is.
moved-Fits :
    (closed next_closed : Bool) (client next : Option ℕ) (j : ℕ) (is_open : Bool) (role : Role)
    → Fits closed client j role is_open
    → ((closed ≡ false) × (client ≡ some j) → ⊥)
    → Fits next_closed next j role is_open
moved-Fits closed next_closed client next j is_open installed fits h = absurd (h fits)
moved-Fits closed next_closed client next j is_open (handshaking origin) fits h = tt
moved-Fits closed next_closed client next j is_open (ready origin token) fits h = tt
moved-Fits closed next_closed client next j is_open (retiring onward) fits h = tt
moved-Fits closed next_closed client next j is_open released fits h = fits

-- Closing behind the lock whatever was installed leaves nothing installed, so that the client may be
-- another, or closed.
pub retired-Fits :
    (onward : Onward) (closed next_closed : Bool) (client next : Option ℕ) (j : ℕ)
    (roles : ℕ → Role) (is_open : Bool)
    → Fits closed client j (roles j) is_open
    → Fits next_closed next j (retire_old onward client roles j) is_open
retired-Fits onward closed next_closed none next j roles is_open fits =
    moved-Fits closed next_closed none next j is_open (roles j) fits (λ both. absurd (cc both.1))
retired-Fits onward closed next_closed (some old) next j roles is_open fits =
    elim (Bool-cases (j == old)) [
      | inl hit ↦ rw hit tt
      | inr miss ↦ rw miss (
          moved-Fits closed next_closed (some old) next j is_open (roles j) fits
            (λ both. absurd (ground (arith, both.1, miss))))
    ]

pub resume-IsHeld : (onward : Onward) (rc : Resilient) → IsHeld rc → IsHeld (resume onward rc)
unfolding resume
resume-IsHeld over rc held = held
resume-IsHeld to_watch rc held = held
resume-IsHeld to_loop rc held = held
resume-IsHeld behind_done rc held = held

swapped-IsHeld :
    (rc : Resilient) (n : ℕ) (token : String)
    → IsHeld rc
    → rc.closed ≡ false
    → IsHeld record rc {
      client = some n;
      token = token;
      roles = set (retire_old to_watch rc.client rc.roles) n installed;
    }
swapped-IsHeld rc n token held e j = elim (Bool-cases (j == n)) [
  | inl hit ↦ rw hit (e, rw ((nat_eq.beq_iff j n).0 hit) refl)
  | inr miss ↦ rw miss (
      retired-Fits to_watch rc.closed rc.closed rc.client (some n) j rc.roles (rc.is_open j)
        (held j))
]

closed_or_swapped :
    (rc : Resilient) (n : ℕ) (token : String)
    → IsHeld rc
    → (closed : Bool) → rc.closed ≡ closed
    → IsHeld (
        if closed
        then record rc { roles = set rc.roles n (retiring to_watch) }
        else resume (after_swap rc.client) record rc {
          client = some n;
          token = token;
          roles = set (retire_old to_watch rc.client rc.roles) n installed;
        })
closed_or_swapped rc n token held true e = role-IsHeld rc n (retiring to_watch) held tt
closed_or_swapped rc n token held false e =
    resume-IsHeld (after_swap rc.client)
      (record rc {
        client = some n;
        token = token;
        roles = set (retire_old to_watch rc.client rc.roles) n installed;
      })
      (swapped-IsHeld rc n token held e)

pub swap-Kept : (rc : Resilient) (n : ℕ) (role : Role) → IsHeld rc → Kept (swap_step rc n role)
unfolding swap_step
swap-Kept rc n (ready origin token) held = closed_or_swapped rc n token held rc.closed refl
swap-Kept rc n (handshaking origin) held = tt
swap-Kept rc n installed held = tt
swap-Kept rc n (retiring onward) held = tt
swap-Kept rc n released held = tt

pub retire-Kept : (rc : Resilient) (n : ℕ) (role : Role) → IsHeld rc → Kept (retire_step rc n role)
unfolding retire_step
retire-Kept rc n (retiring onward) held = elim (Bool-cases (may_retire onward rc.done)) [
  | inl now ↦
      rw (retire_step, now)
        (resume-IsHeld onward
          (record rc { roles = set rc.roles n released; is_open = set rc.is_open n false })
          (set-IsHeld rc n released false held refl))
  | inr later ↦ rw (retire_step, later) tt
]
retire-Kept rc n (handshaking origin) held = tt
retire-Kept rc n (ready origin token) held = tt
retire-Kept rc n installed held = tt
retire-Kept rc n released held = tt

pub handshake-Kept :
    (rc : Resilient) (n : ℕ) (agreed : Bool) (token : String) (role : Role)
    → IsHeld rc
    → Kept (handshake_step rc n agreed token role)
unfolding handshake_step
handshake-Kept rc n true token (handshaking origin) held =
    role-IsHeld rc n (ready origin token) held tt
handshake-Kept rc n false token (handshaking origin) held =
    role-IsHeld rc n (retiring (after_failure origin)) held tt
handshake-Kept rc n agreed token (ready origin old) held = tt
handshake-Kept rc n agreed token installed held = tt
handshake-Kept rc n agreed token (retiring onward) held = tt
handshake-Kept rc n agreed token released held = tt

pub maybe-Kept :
    (refused : Bool) (rc : Resilient) → IsHeld rc → Kept (if refused then none else some rc)
maybe-Kept true rc held = tt
maybe-Kept false rc held = held

end_dial-Kept : (origin : Origin) (rc : Resilient) → IsHeld rc → Kept (end_dial origin rc)
unfolding end_dial
end_dial-Kept from_connect rc held =
    maybe-Kept (rc.connecting == 0) (record rc { connecting = rc.connecting - 1 }) held
end_dial-Kept from_watch rc held =
    maybe-Kept (rc.redialing == 0) (record rc { redialing = rc.redialing - 1 }) held

-- What keeps the invariant does so behind a dial that ends.
pub then-Kept :
    (f : Resilient → Resilient)
    → ((rc : Resilient) → IsHeld rc → IsHeld (f rc))
    → (r : Option Resilient) → Kept r
    → Kept (elim r [ none ↦ none | some next ↦ some (f next) ])
then-Kept f keeps none held = tt
then-Kept f keeps (some rc) held = keeps rc held

pub dial-Kept : (rc : Resilient) (origin : Origin) → IsHeld rc → Kept (dial_step rc origin)
unfolding dial_step
dial-Kept rc origin held =
    then-Kept
      (λ next. record next {
        dialed = next.dialed + 1;
        roles = set next.roles next.dialed (handshaking origin);
        is_open = set next.is_open next.dialed true;
      })
      (λ next kept. set-IsHeld next next.dialed (handshaking origin) true kept tt)
      (end_dial origin rc) (end_dial-Kept origin rc held)

pub dial_failed-Kept :
    (rc : Resilient) (origin : Origin) → IsHeld rc → Kept (dial_failed_step rc origin)
unfolding dial_failed_step
dial_failed-Kept rc origin held =
    then-Kept (resume (after_failure origin)) (resume-IsHeld (after_failure origin))
      (end_dial origin rc) (end_dial-Kept origin rc held)
