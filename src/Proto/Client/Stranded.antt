-- ===== src/Proto/Client/Stranded.antt =====
-- pkg/proto/client.go: the calls that the end of the read loop leaves behind.
use simple_go_server.Common.{
  ℕ, ◌+◌, ◌<◌, ◌≡◌, subst, inl, inr, Bool, true, false, Option, some, List, arith, if◌then◌else◌,
  ◌==◌, nat_eq, string_eq, Bool-cases,
}
use simple_go_server.Proto.{Frame}
use simple_go_server.Proto.Client.{
  Json, Channel, empty, shut, filled, Phase, writing, waiting, dropping, answered, failed, Reader,
  reading, delivering, failing, ended, Client, set, Action, take_frame, registered, write_step,
  drop_step, receive_step, time_out_step, take_step, deliver_step, fail_step, end_step, act, run,
  pending_closed, enter, register, write, drop_pending, receive, time_out, deliver, fail_pending,
  end_loop, close_client,
}
use simple_go_server.Proto.Client.Runs.{Kept, run-Kept_always}

-- failPending has run: the read loop takes no more frames.
abbrev pub IsOver : Reader → Type 0
IsOver reading = ⊥
IsOver (delivering ch r) = ⊥
IsOver failing = Unit {0}
IsOver ended = Unit {0}

-- A call without a timeout that waits on an empty channel, while the read loop is over.
pub record IsStranded (k : ℕ) (s : Client) : Type 0 where
  pub known : k < s.calls
  pub waits : s.phases k ≡ waiting false
  pub silent : s.channels k ≡ empty
  pub over : IsOver s.reader

module _ (k : ℕ) where
  abbrev Stays : Option Client → Type 0
  Stays = Kept (IsStranded k)

  same_false : (j : ℕ) → (k == j ≡ true → ⊥) → k == j ≡ false
  same_false j h = elim (Bool-cases (k == j)) [ inl hit ↦ absurd (h hit) | inr miss ↦ miss ]

  -- A step of another call.
  other-Stays :
      (s : Client) (j : ℕ) (phase : Phase)
      → IsStranded k s
      → (k == j ≡ true → ⊥)
      → IsStranded k record s { phases = set s.phases j phase }
  other-Stays s j phase st other = record {
    known = st.known;
    waits = rw (same_false j other) st.waits;
    silent = st.silent;
    over = st.over;
  }

  -- What the steps of `k` itself would start from.
  abbrev Own : ℕ → Phase → Type 0
  Own j phase = k == j ≡ true → phase ≡ waiting false

  write-Stays :
      (s : Client) (j : ℕ) (sent : Bool) (phase : Phase)
      → IsStranded k s
      → Own j phase
      → Stays (write_step s j sent phase)
  unfolding write_step
  write-Stays s j sent (writing timed) st own = other-Stays s j _ st (λ e. absurd (cc (own e)))
  write-Stays s j sent (waiting timed) st own = tt
  write-Stays s j sent (dropping e) st own = tt
  write-Stays s j sent (answered r) st own = tt
  write-Stays s j sent (failed e) st own = tt

  drop-Stays :
      (s : Client) (j : ℕ) (phase : Phase)
      → IsStranded k s
      → Own j phase
      → Stays (drop_step s j phase)
  unfolding drop_step
  drop-Stays s j (dropping e) st own =
      let next = other-Stays s j (failed e) st (λ same. absurd (cc (own same))) in
      record { known = next.known; waits = next.waits; silent = next.silent; over = next.over }
  drop-Stays s j (writing timed) st own = tt
  drop-Stays s j (waiting timed) st own = tt
  drop-Stays s j (answered r) st own = tt
  drop-Stays s j (failed e) st own = tt

  receive-Stays :
      (s : Client) (j : ℕ) (phase : Phase) (channel : Channel)
      → IsStranded k s
      → (k == j ≡ true → channel ≡ empty)
      → Stays (receive_step s j phase channel)
  unfolding receive_step
  receive-Stays s j (waiting timed) (filled r) st own =
      other-Stays s j (answered r) st (λ same. absurd (cc (own same)))
  receive-Stays s j (waiting timed) shut st own =
      other-Stays s j (failed pending_closed) st (λ same. absurd (cc (own same)))
  receive-Stays s j (waiting timed) empty st own = tt
  receive-Stays s j (writing timed) channel st own = tt
  receive-Stays s j (dropping e) channel st own = tt
  receive-Stays s j (answered r) channel st own = tt
  receive-Stays s j (failed e) channel st own = tt

  time_out-Stays :
      (s : Client) (j : ℕ) (phase : Phase)
      → IsStranded k s
      → Own j phase
      → Stays (time_out_step s j phase)
  unfolding time_out_step
  time_out-Stays s j (waiting true) st own = other-Stays s j _ st (λ same. absurd (cc (own same)))
  time_out-Stays s j (waiting false) st own = tt
  time_out-Stays s j (writing timed) st own = tt
  time_out-Stays s j (dropping e) st own = tt
  time_out-Stays s j (answered r) st own = tt
  time_out-Stays s j (failed e) st own = tt

  -- The steps of the read loop that are left.
  take-Stays :
      (json : Json) (frame : Frame) (s : Client) (reader : Reader)
      → IsOver reader
      → Stays (take_step s json frame reader)
  unfolding take_step
  take-Stays json frame s reading over = elim over [ ]
  take-Stays json frame s (delivering ch r) over = tt
  take-Stays json frame s failing over = tt
  take-Stays json frame s ended over = tt

  deliver-Stays : (s : Client) (reader : Reader) → IsOver reader → Stays (deliver_step s reader)
  unfolding deliver_step
  deliver-Stays s reading over = tt
  deliver-Stays s (delivering ch r) over = elim over [ ]
  deliver-Stays s failing over = tt
  deliver-Stays s ended over = tt

  fail-Stays : (s : Client) (reader : Reader) → IsOver reader → Stays (fail_step s reader)
  unfolding fail_step
  fail-Stays s reading over = elim over [ ]
  fail-Stays s (delivering ch r) over = tt
  fail-Stays s failing over = tt
  fail-Stays s ended over = tt

  end-Stays : (s : Client) (reader : Reader) → IsStranded k s → Stays (end_step s reader)
  unfolding end_step
  end-Stays s failing st = record {
    known = st.known;
    waits = st.waits;
    silent = st.silent;
    over = tt;
  }
  end-Stays s reading st = tt
  end-Stays s (delivering ch r) st = tt
  end-Stays s ended st = tt

  enter-Stays :
      (s : Client) (closed : Bool)
      → IsStranded k s
      → IsStranded k (if closed then s else record s { entered = s.entered + 1 })
  enter-Stays s true st = st
  enter-Stays s false st = record {
    known = st.known;
    waits = st.waits;
    silent = st.silent;
    over = st.over;
  }

  register-Stays :
      (s : Client) (timed encodes : Bool)
      → IsStranded k s
      → IsStranded k (registered s timed encodes)
  register-Stays s timed encodes st =
      let other : k == s.calls ≡ false = ground (arith, st.known) in
      record {
        known = omega (arith, st.known);
        waits = rw other st.waits;
        silent = rw other st.silent;
        over = st.over;
      }

  act-Stays : (json : Json) (a : Action) (s : Client) → IsStranded k s → Stays (act json a s)
  unfolding act
  act-Stays json enter s st = enter-Stays s s.closed st
  act-Stays json (register timed encodes) s st = elim (Bool-cases (s.entered == 0)) [
    | inl hit ↦ rw (act, hit) tt
    | inr miss ↦ rw (act, miss) (register-Stays s timed encodes st)
  ]
  act-Stays json (write j sent) s st =
      write-Stays s j sent (s.phases j) st (λ same. rw (← (nat_eq.beq_iff k j).0 same) st.waits)
  act-Stays json (drop_pending j) s st =
      drop-Stays s j (s.phases j) st (λ same. rw (← (nat_eq.beq_iff k j).0 same) st.waits)
  act-Stays json (receive j) s st =
      receive-Stays s j (s.phases j) (s.channels j) st
        (λ same. rw (← (nat_eq.beq_iff k j).0 same) st.silent)
  act-Stays json (time_out j) s st =
      time_out-Stays s j (s.phases j) st (λ same. rw (← (nat_eq.beq_iff k j).0 same) st.waits)
  act-Stays json (take_frame frame) s st = take-Stays json frame s s.reader st.over
  act-Stays json deliver s st = deliver-Stays s s.reader st.over
  act-Stays json fail_pending s st = fail-Stays s s.reader st.over
  act-Stays json end_loop s st = end-Stays s s.reader st
  act-Stays json close_client s st = record {
    known = st.known;
    waits = st.waits;
    silent = st.silent;
    over = st.over;
  }

-- A call without a timeout that waits on an empty channel once failPending has run waits for ever:
-- whatever actions follow, Close among them, it still waits on an empty channel.
pub stranded_forever :
    (json : Json) (k : ℕ) (s : Client)
    → IsStranded k s
    → (actions : List Action) (t : Client) → run json actions s ≡ some t
    → IsStranded k t
stranded_forever json k s st actions t e =
    subst (Stays k) e (run-Kept_always (IsStranded k) json (act-Stays k json) actions s st)
