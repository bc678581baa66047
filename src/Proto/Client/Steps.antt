-- ===== src/Proto/Client/Steps.antt =====
-- pkg/proto/client.go: each action keeps whose response a call gets.
use simple_go_server.Common.{
  ℕ, ◌+◌, ◌≡◌, inl, inr, Bool, true, false, if◌then◌else◌, ◌==◌, nat_eq, string_eq, Bool-cases,
}
use simple_go_server.Common.Dict.{lookup}
use simple_go_server.Proto.{Frame}
use simple_go_server.Proto.Client.{
  Json, Response, response_of, Channel, empty, shut, filled, Phase, writing, waiting, dropping,
  answered, failed, Reader, reading, delivering, failing, ended, Client, Action, take_frame,
  is_reply, write_step, drop_step, receive_step, time_out_step, take_step, deliver_step, fail_step,
  end_step, act, write_failed, timed_out, pending_closed, enter, register, write, drop_pending,
  receive, time_out, deliver, fail_pending, end_loop, close_client,
}
use simple_go_server.Proto.Client.Own.{
  Carried, Delivered, IsOwn, set-Answered, set-Carried, phase-IsOwn, close_all-Carried, drop-listed,
  register-IsOwn, resolve-IsOwn,
}
use simple_go_server.Proto.Client.Runs.{Kept}

module _ (P : ℕ → Response → Type 0) where
  -- Each reply that the read loop takes satisfies `P` with the id that it carries.
  abbrev pub Good : Json → Action → Type 0
  Good json (take_frame frame) =
      is_reply frame ≡ true → P frame.header.stream_id (response_of json frame)
  Good json action = Unit {0}

  write-Kept :
      (s : Client) (k : ℕ) (sent : Bool) (phase : Phase)
      → IsOwn P s
      → Kept (IsOwn P) (write_step s k sent phase)
  unfolding write_step
  write-Kept s k true (writing timed) own = phase-IsOwn P s k (waiting timed) own tt
  write-Kept s k false (writing timed) own = phase-IsOwn P s k (dropping write_failed) own tt
  write-Kept s k sent (waiting timed) own = tt
  write-Kept s k sent (dropping e) own = tt
  write-Kept s k sent (answered r) own = tt
  write-Kept s k sent (failed e) own = tt

  drop-Kept :
      (s : Client) (k : ℕ) (phase : Phase) → IsOwn P s → Kept (IsOwn P) (drop_step s k phase)
  unfolding drop_step
  drop-Kept s k (dropping e) own = record {
    listed = drop-listed P s (s.ids k) own;
    carried = own.carried;
    answers = set-Answered P s.ids s.phases k (failed e) own.answers tt;
    delivers = own.delivers;
  }
  drop-Kept s k (writing timed) own = tt
  drop-Kept s k (waiting timed) own = tt
  drop-Kept s k (answered r) own = tt
  drop-Kept s k (failed e) own = tt

  receive-Kept :
      (s : Client) (k : ℕ) (phase : Phase) (channel : Channel)
      → IsOwn P s
      → Carried P (s.ids k) channel
      → Kept (IsOwn P) (receive_step s k phase channel)
  unfolding receive_step
  receive-Kept s k (waiting timed) (filled r) own h = phase-IsOwn P s k (answered r) own h
  receive-Kept s k (waiting timed) shut own h = phase-IsOwn P s k (failed pending_closed) own tt
  receive-Kept s k (waiting timed) empty own h = tt
  receive-Kept s k (writing timed) channel own h = tt
  receive-Kept s k (dropping e) channel own h = tt
  receive-Kept s k (answered r) channel own h = tt
  receive-Kept s k (failed e) channel own h = tt

  time_out-Kept :
      (s : Client) (k : ℕ) (phase : Phase) → IsOwn P s → Kept (IsOwn P) (time_out_step s k phase)
  unfolding time_out_step
  time_out-Kept s k (waiting true) own = phase-IsOwn P s k (dropping timed_out) own tt
  time_out-Kept s k (waiting false) own = tt
  time_out-Kept s k (writing timed) own = tt
  time_out-Kept s k (dropping e) own = tt
  time_out-Kept s k (answered r) own = tt
  time_out-Kept s k (failed e) own = tt

  take-Kept :
      (json : Json) (frame : Frame) (s : Client) (reader : Reader)
      → IsOwn P s
      → Good json (take_frame frame)
      → Kept (IsOwn P) (take_step s json frame reader)
  unfolding take_step
  take-Kept json frame s reading own good = elim (Bool-cases (is_reply frame)) [
    | inl reply ↦ rw (take_step, reply) (resolve-IsOwn P json frame s own good reply)
    | inr event ↦ rw (take_step, event) own
  ]
  take-Kept json frame s (delivering ch r) own good = tt
  take-Kept json frame s failing own good = tt
  take-Kept json frame s ended own good = tt

  deliver-Kept :
      (s : Client) (reader : Reader)
      → IsOwn P s
      → Delivered P s.ids s.calls reader
      → Kept (IsOwn P) (deliver_step s reader)
  unfolding deliver_step
  deliver-Kept s (delivering ch r) own (below, h) = record {
    listed = own.listed;
    carried = set-Carried P s.ids s.channels ch (filled r) own.carried h;
    answers = own.answers;
    delivers = tt;
  }
  deliver-Kept s reading own h = tt
  deliver-Kept s failing own h = tt
  deliver-Kept s ended own h = tt

  fail-Kept : (s : Client) (reader : Reader) → IsOwn P s → Kept (IsOwn P) (fail_step s reader)
  unfolding fail_step lookup
  fail-Kept s reading own = record {
    listed = λ id ch e. absurd (cc e);
    carried = close_all-Carried P s.ids s.pending s.channels own.carried;
    answers = own.answers;
    delivers = tt;
  }
  fail-Kept s (delivering ch r) own = tt
  fail-Kept s failing own = tt
  fail-Kept s ended own = tt

  end-Kept : (s : Client) (reader : Reader) → IsOwn P s → Kept (IsOwn P) (end_step s reader)
  unfolding end_step
  end-Kept s failing own = record {
    listed = own.listed;
    carried = own.carried;
    answers = own.answers;
    delivers = tt;
  }
  end-Kept s reading own = tt
  end-Kept s (delivering ch r) own = tt
  end-Kept s ended own = tt

  enter-IsOwn :
      (s : Client) (closed : Bool)
      → IsOwn P s
      → IsOwn P (if closed then s else record s { entered = s.entered + 1 })
  enter-IsOwn s true own = own
  enter-IsOwn s false own = record {
    listed = own.listed;
    carried = own.carried;
    answers = own.answers;
    delivers = own.delivers;
  }

  pub act-Kept :
      (json : Json) (a : Action) (s : Client)
      → IsOwn P s
      → Good json a
      → Kept (IsOwn P) (act json a s)
  unfolding act
  act-Kept json enter s own good = enter-IsOwn s s.closed own
  act-Kept json (register timed encodes) s own good = elim (Bool-cases (s.entered == 0)) [
    | inl hit ↦ rw (act, hit) tt
    | inr miss ↦ rw (act, miss) (register-IsOwn P s timed encodes own)
  ]
  act-Kept json (write k sent) s own good = write-Kept s k sent (s.phases k) own
  act-Kept json (drop_pending k) s own good = drop-Kept s k (s.phases k) own
  act-Kept json (receive k) s own good =
      receive-Kept s k (s.phases k) (s.channels k) own (own.carried k)
  act-Kept json (time_out k) s own good = time_out-Kept s k (s.phases k) own
  act-Kept json (take_frame frame) s own good = take-Kept json frame s s.reader own good
  act-Kept json deliver s own good = deliver-Kept s s.reader own own.delivers
  act-Kept json fail_pending s own good = fail-Kept s s.reader own
  act-Kept json end_loop s own good = end-Kept s s.reader own
  act-Kept json close_client s own good = record {
    listed = own.listed;
    carried = own.carried;
    answers = own.answers;
    delivers = own.delivers;
  }
