-- ===== src/Executor.antt =====
-- internal/executor: the futures of async_future.go and the executor of async_executor.go. Each action
-- is a piece of a method that other goroutines see as one step. The futures are numbered as they are
-- submitted. `futureCh` has no buffer, so that a send is a worker's receive. Only workers call Do: that
-- the holder of a future may call it too, being public, has no step.
pub mod Resolving
pub mod Outcomes
pub mod Lasting
pub mod Tests
use simple_go_server.Common.{
  ℕ, zero, suc, ◌+◌, ◌-◌, ◌*◌, ◌/◌, ◌%◌, ◌^◌, ◌≤◌, ◌<◌, min, String, ◌≡◌, refl, sym, ap, ◌∙◌, subst,
  ◌≢◌, ◌↔◌, ◌⊎◌, inl, inr, Bool, true, false, not, ◌&&◌, ◌||◌, Option, none, some, List, [], ◌∷◌,
  ◌++◌, map, append-nil, append_assoc, arith, ltb, leb, if◌then◌else◌, Eq, ◌==◌, nat_eq, string_eq,
  nat_beq_iff, beq_refl, Bool-cases, Option-cases, length, get_elem?, get_or, take, drop, All,
  length-append, length-take, length-drop, take-append-drop, take-length-append, drop-length-append,
  get_elem?-lt, lt_of_get_elem?, All-append, All-get, take_all, drop_all,
}

-- An error of the task itself is `failed`.
pub data Outcome (A : Type 0) : Type 0 where
  value : A → Outcome A
  cancelled timeout failed : Outcome A

-- `outcome` is none as long as `doneCh` is open; `result` and `err` are read behind it only.
pub record Future (A : Type 0) : Type 0 where
  pub outcome : Option (Outcome A)
  pub running : Bool
  pub ctx_done : Bool

-- Where Submit is with a future: at its first select, between the send and the second one, or behind
-- its return.
pub data Stage : Type 0 where
  unborn offering checking returned : Stage

-- Where the future is with a worker: nowhere, before or in the task, or done with.
pub data Work : Type 0 where
  nowhere taken executing done : Work

pub record Executor (A : Type 0) : Type 0 where
  pub stopped : Bool
  pub free_workers : ℕ
  pub submitted : ℕ
  pub futures : ℕ → Future A
  pub stages : ℕ → Stage
  pub work : ℕ → Work

pub data Action (A : Type 0) : Type 0 where
  submit stop worker_exit : Action A
  hand_over recheck reject begin cancel time_out : ℕ → Action A
  finish : ℕ → Outcome A → Action A

abbrev pub set {ℓ} : {B : Type ℓ} → (ℕ → B) → ℕ → B → ℕ → B
set f n x j = if j == n then x else f j

module _ {A : Type 0} where
  abbrev pub new_future : Bool → Future A
  new_future parent_done = record { outcome = none; running = false; ctx_done = parent_done }

  abbrev pub new_executor : ℕ → Executor A
  new_executor workers = record {
    stopped = false;
    free_workers = workers;
    submitted = 0;
    futures = λ k. new_future false;
    stages = λ k. unborn;
    work = λ k. nowhere;
  }

  -- The locked part of Do and of cancelWithErr: the first outcome stays.
  abbrev pub resolve : Outcome A → Future A → Future A
  resolve r f = record f { outcome = elim f.outcome [ none ↦ some r | some old ↦ some old ] }

  unfoldable pub cancel_with_err : Outcome A → Future A → Future A
  cancel_with_err r f = resolve r (record f { ctx_done = true })

  abbrev pub is_cancelled : Future A → Bool
  is_cancelled f = f.ctx_done

  abbrev pub is_done : Future A → Bool
  is_done f = elim f.outcome [ none ↦ false | some r ↦ true ]

  module _ (e : Executor A) where
    abbrev pub with_future : ℕ → Future A → Executor A
    with_future k f = record e { futures = set e.futures k f }

    unfoldable pub hand_over_step : ℕ → Stage → Option (Executor A)
    hand_over_step k offering =
        if e.free_workers == 0
        then none
        else some record e {
          free_workers = e.free_workers - 1;
          stages = set e.stages k checking;
          work = set e.work k taken;
        }
    hand_over_step k stage = none

    -- The second select of Submit.
    unfoldable pub recheck_step : ℕ → Stage → Option (Executor A)
    recheck_step k checking = some record e {
      stages = set e.stages k returned;
      futures =
          if e.stopped
          then set e.futures k (cancel_with_err cancelled (e.futures k))
          else e.futures;
    }
    recheck_step k stage = none

    unfoldable pub reject_step : ℕ → Stage → Option (Executor A)
    reject_step k offering =
        if e.stopped
        then some record e {
          stages = set e.stages k returned;
          futures = set e.futures k (cancel_with_err cancelled (e.futures k));
        }
        else none
    reject_step k stage = none

    -- Do up to the call of the task.
    unfoldable pub begin_step : ℕ → Work → Option (Executor A)
    begin_step k taken = some (
        if (e.futures k).running
        then record e { work = set e.work k done; free_workers = e.free_workers + 1 }
        else record e {
          work = set e.work k executing;
          futures = set e.futures k (record (e.futures k) { running = true });
        })
    begin_step k work = none

    -- Do from the return of the task on.
    unfoldable pub finish_step : ℕ → Outcome A → Work → Option (Executor A)
    finish_step k r executing = some record e {
      work = set e.work k done;
      free_workers = e.free_workers + 1;
      futures = set e.futures k (resolve r (e.futures k));
    }
    finish_step k r work = none

    -- Cancel and GetWithTimeout by whom Submit gave the future to.
    unfoldable pub cancel_step : ℕ → Outcome A → Stage → Option (Executor A)
    cancel_step k r returned = some (with_future k (cancel_with_err r (e.futures k)))
    cancel_step k r stage = none

    abbrev pub submitting : Executor A
    submitting = record e {
      submitted = e.submitted + 1;
      futures = set e.futures e.submitted (new_future e.stopped);
      stages = set e.stages e.submitted offering;
      work = set e.work e.submitted nowhere;
    }

    -- The contexts of the futures are children of the one that Stop cancels.
    abbrev pub stopping : Executor A
    stopping = record e { stopped = true; futures = λ k. record (e.futures k) { ctx_done = true } }

  unfoldable pub act : Action A → Executor A → Option (Executor A)
  act submit e = some (submitting e)
  act stop e = some (stopping e)
  act worker_exit e =
      if not e.stopped || (e.free_workers == 0)
      then none
      else some record e { free_workers = e.free_workers - 1 }
  act (hand_over k) e = hand_over_step e k (e.stages k)
  act (recheck k) e = recheck_step e k (e.stages k)
  act (reject k) e = reject_step e k (e.stages k)
  act (begin k) e = begin_step e k (e.work k)
  act (finish k r) e = finish_step e k r (e.work k)
  act (cancel k) e = cancel_step e k cancelled (e.stages k)
  act (time_out k) e = cancel_step e k timeout (e.stages k)

  unfoldable pub run : List (Action A) → Executor A → Option (Executor A)
  run [] e = some e
  run (a ∷ rest) e = elim (act a e) [ none ↦ none | some next ↦ run rest next ]
