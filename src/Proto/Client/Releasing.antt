-- ===== src/Proto/Client/Releasing.antt =====
-- pkg/proto/client.go: what the read loop, at its end too, does for the calls that wait.
use simple_go_server.Common.{
  ℕ, ◌+◌, ◌≡◌, refl, subst, inl, inr, Bool, true, false, some, List, arith, if◌then◌else◌, ◌==◌,
  nat_eq, string_eq, Bool-cases, Option-cases,
}
use simple_go_server.Common.Dict.{lookup}
use simple_go_server.Proto.{Frame}
use simple_go_server.Proto.Client.{
  Json, Channel, empty, shut, filled, Phase, writing, waiting, dropping, answered, failed, Reader,
  reading, delivering, failing, ended, Client, new_client, Action, take_frame, is_reply, write_step,
  drop_step, receive_step, time_out_step, resolve_pending, take_step, deliver_step, fail_step,
  end_step, act, run, write_failed, timed_out, pending_closed, enter, register, write, drop_pending,
  receive, time_out, deliver, fail_pending, end_loop, close_client,
}
use simple_go_server.Proto.Client.Runs.{Kept, run-Kept_always}
use simple_go_server.Proto.Client.Waiting.{
  IsAt, Sound, new-Sound, phase-Sound, drop-Sound, register-Sound,
}
use simple_go_server.Proto.Client.Table.{resolve-Sound, sent-Sound, failed-Sound}

write-Sound :
    (s : Client) (k : ℕ) (sent : Bool) (phase : Phase)
    → Sound s
    → s.phases k ≡ phase
    → Kept Sound (write_step s k sent phase)
unfolding write_step
write-Sound s k true (writing timed) sound e =
    λ bound. phase-Sound s k (waiting timed) (sound bound) (rw e refl) (λ f. rw e refl)
write-Sound s k false (writing timed) sound e =
    λ bound. phase-Sound s k (dropping write_failed) (sound bound) (rw e refl) (λ f. rw e refl)
write-Sound s k sent (waiting timed) sound e = tt
write-Sound s k sent (dropping f) sound e = tt
write-Sound s k sent (answered r) sound e = tt
write-Sound s k sent (failed f) sound e = tt

drop_step-Sound :
    (s : Client) (k : ℕ) (phase : Phase)
    → Sound s
    → s.phases k ≡ phase
    → Kept Sound (drop_step s k phase)
unfolding drop_step
drop_step-Sound s k (dropping f) sound e = λ bound. drop-Sound s k f (sound bound) (rw e refl)
drop_step-Sound s k (writing timed) sound e = tt
drop_step-Sound s k (waiting timed) sound e = tt
drop_step-Sound s k (answered r) sound e = tt
drop_step-Sound s k (failed f) sound e = tt

receive-Sound :
    (s : Client) (k : ℕ) (phase : Phase) (channel : Channel)
    → Sound s
    → s.phases k ≡ phase
    → Kept Sound (receive_step s k phase channel)
unfolding receive_step
receive-Sound s k (waiting timed) (filled r) sound e =
    λ bound. phase-Sound s k (answered r) (sound bound) (rw e refl) (λ f. absurd (cc f))
receive-Sound s k (waiting timed) shut sound e =
    λ bound. phase-Sound s k (failed pending_closed) (sound bound) (rw e refl) (λ f. absurd (cc f))
receive-Sound s k (waiting timed) empty sound e = tt
receive-Sound s k (writing timed) channel sound e = tt
receive-Sound s k (dropping f) channel sound e = tt
receive-Sound s k (answered r) channel sound e = tt
receive-Sound s k (failed f) channel sound e = tt

time_out-Sound :
    (s : Client) (k : ℕ) (phase : Phase)
    → Sound s
    → s.phases k ≡ phase
    → Kept Sound (time_out_step s k phase)
unfolding time_out_step
time_out-Sound s k (waiting true) sound e =
    λ bound. phase-Sound s k (dropping timed_out) (sound bound) (rw e refl) (λ f. absurd (cc f))
time_out-Sound s k (waiting false) sound e = tt
time_out-Sound s k (writing timed) sound e = tt
time_out-Sound s k (dropping f) sound e = tt
time_out-Sound s k (answered r) sound e = tt
time_out-Sound s k (failed f) sound e = tt

resolve_pending-calls :
    (json : Json) (frame : Frame) (s : Client) → (resolve_pending s json frame).calls ≡ s.calls
unfolding resolve_pending
resolve_pending-calls json frame s = elim (Option-cases (lookup frame.header.stream_id s.pending)) [
  | inl nobody ↦ rw (resolve_pending, nobody) refl
  | inr (ch, found) ↦ rw (resolve_pending, found) refl
]

take-Sound :
    (json : Json) (frame : Frame) (s : Client) (reader : Reader)
    → Sound s
    → s.reader ≡ reader
    → Kept Sound (take_step s json frame reader)
unfolding take_step
take-Sound json frame s reading sound e = elim (Bool-cases (is_reply frame)) [
  | inl reply ↦
      rw (take_step, reply)
        (λ bound.
          resolve-Sound json frame s
            (sound (omega (arith, bound, resolve_pending-calls json frame s))) e)
  | inr event ↦ rw (take_step, event) sound
]
take-Sound json frame s (delivering ch r) sound e = tt
take-Sound json frame s failing sound e = tt
take-Sound json frame s ended sound e = tt

deliver-Sound :
    (s : Client) (reader : Reader)
    → Sound s
    → s.reader ≡ reader
    → Kept Sound (deliver_step s reader)
unfolding deliver_step
deliver-Sound s (delivering ch r) sound e = λ bound. sent-Sound s ch r (sound bound) e
deliver-Sound s reading sound e = tt
deliver-Sound s failing sound e = tt
deliver-Sound s ended sound e = tt

fail-Sound :
    (s : Client) (reader : Reader) → Sound s → s.reader ≡ reader → Kept Sound (fail_step s reader)
unfolding fail_step
fail-Sound s reading sound e = λ bound. failed-Sound s (sound bound) e
fail-Sound s (delivering ch r) sound e = tt
fail-Sound s failing sound e = tt
fail-Sound s ended sound e = tt

end-Sound :
    (s : Client) (reader : Reader) → Sound s → s.reader ≡ reader → Kept Sound (end_step s reader)
unfolding end_step
end-Sound s failing sound e = λ bound.
    let before = sound bound in
    record {
      counted = before.counted;
      numbered = before.numbered;
      idle = before.idle;
      listed = before.listed;
      delivers = tt;
      waits = λ k h g f. elim (before.waits k h g f) [
        | inl entered ↦ inl entered
        | inr at ↦ absurd (subst (IsAt k) e at)
      ];
    }
end-Sound s reading sound e = tt
end-Sound s (delivering ch r) sound e = tt
end-Sound s ended sound e = tt

-- Changes that the invariant does not read.
enter-Sound :
    (s : Client) (closed : Bool)
    → Sound s
    → Sound (if closed then s else record s { entered = s.entered + 1 })
enter-Sound s true sound bound = sound bound
enter-Sound s false sound bound =
    let before = sound bound in
    record {
      counted = before.counted;
      numbered = before.numbered;
      idle = before.idle;
      listed = before.listed;
      delivers = before.delivers;
      waits = before.waits;
    }

close-Sound : (s : Client) → Sound s → Sound record s { closed = true }
close-Sound s sound bound =
    let before = sound bound in
    record {
      counted = before.counted;
      numbered = before.numbered;
      idle = before.idle;
      listed = before.listed;
      delivers = before.delivers;
      waits = before.waits;
    }

act-Sound : (json : Json) (a : Action) (s : Client) → Sound s → Kept Sound (act json a s)
unfolding act
act-Sound json enter s sound = enter-Sound s s.closed sound
act-Sound json (register timed encodes) s sound = elim (Bool-cases (s.entered == 0)) [
  | inl hit ↦ rw (act, hit) tt
  | inr miss ↦
      rw (act, miss) (λ bound. register-Sound s timed encodes (sound (omega (arith, bound))) bound)
]
act-Sound json (write k sent) s sound = write-Sound s k sent (s.phases k) sound refl
act-Sound json (drop_pending k) s sound = drop_step-Sound s k (s.phases k) sound refl
act-Sound json (receive k) s sound = receive-Sound s k (s.phases k) (s.channels k) sound refl
act-Sound json (time_out k) s sound = time_out-Sound s k (s.phases k) sound refl
act-Sound json (take_frame frame) s sound = take-Sound json frame s s.reader sound refl
act-Sound json deliver s sound = deliver-Sound s s.reader sound refl
act-Sound json fail_pending s sound = fail-Sound s s.reader sound refl
act-Sound json end_loop s sound = end-Sound s s.reader sound refl
act-Sound json close_client s sound = close-Sound s sound

pub run-Sound :
    (json : Json) (actions : List Action) (s : Client)
    → run json actions new_client ≡ some s
    → Sound s
run-Sound json actions s e =
    subst (Kept Sound) e (run-Kept_always Sound json (act-Sound json) actions new_client new-Sound)
