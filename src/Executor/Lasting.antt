-- ===== src/Executor/Lasting.antt =====
-- internal/executor: the first outcome of a future lasts.
use simple_go_server.Common.{
  ℕ, ◌+◌, ◌-◌, ◌<◌, ◌≡◌, refl, subst, inl, inr, Bool, true, false, not, ◌||◌, none, some, List,
  arith, if◌then◌else◌, ◌==◌, nat_eq, string_eq, Bool-cases,
}
use simple_go_server.Executor.{
  Outcome, cancelled, timeout, Future, Stage, unborn, offering, checking, returned, Work, nowhere,
  taken, executing, done, Executor, Action, submit, stop, worker_exit, hand_over, recheck, reject,
  begin, cancel, time_out, finish, set, resolve, cancel_with_err, hand_over_step, recheck_step,
  reject_step, begin_step, finish_step, cancel_step, submitting, act, run,
}
use simple_go_server.Executor.Outcomes.{Holds, run-Holds}

module _ {A : Type 0} (k : ℕ) (r : Outcome A) where
  abbrev HasOutcome : Executor A → Type 0
  HasOutcome e = (k < e.submitted) × ((e.futures k).outcome ≡ some r)

  set-outcome :
      (futures : ℕ → Future A) (j : ℕ) (f : Future A)
      → (futures k).outcome ≡ some r
      → ((futures j).outcome ≡ some r → f.outcome ≡ some r)
      → (set futures j f k).outcome ≡ some r
  set-outcome futures j f e keeps = elim (Bool-cases (k == j)) [
    | inl same ↦
        rw same (keeps (subst (λ i. (futures i).outcome ≡ some r) ((nat_eq.beq_iff k j).0 same) e))
    | inr other ↦ rw other e
  ]

  resolve-outcome :
      (x : Outcome A) (f : Future A) → f.outcome ≡ some r → (resolve x f).outcome ≡ some r
  resolve-outcome x f e = rw e refl

  cancelled-outcome :
      (x : Outcome A) (f : Future A) → f.outcome ≡ some r → (cancel_with_err x f).outcome ≡ some r
  unfolding cancel_with_err
  cancelled-outcome x f e = resolve-outcome x (record f { ctx_done = true }) e

  submit-HasOutcome : (e : Executor A) → HasOutcome e → HasOutcome (submitting e)
  submit-HasOutcome e (h, o) =
      let other : k == e.submitted ≡ false = ground (arith, h) in (omega (arith, h), rw other o)

  hand_over-HasOutcome :
      (e : Executor A) (j : ℕ) (stage : Stage)
      → HasOutcome e
      → Holds HasOutcome (hand_over_step e j stage)
  unfolding hand_over_step
  hand_over-HasOutcome e j offering has = elim (Bool-cases (e.free_workers == 0)) [
    | inl hit ↦ rw hit tt
    | inr miss ↦ rw miss has
  ]
  hand_over-HasOutcome e j unborn has = tt
  hand_over-HasOutcome e j checking has = tt
  hand_over-HasOutcome e j returned has = tt

  rechecked-outcome :
      (e : Executor A) (j : ℕ) (stopped : Bool)
      → HasOutcome e
      → ((if stopped then set e.futures j (cancel_with_err cancelled (e.futures j)) else e.futures)
          k).outcome
        ≡ some r
  rechecked-outcome e j true (h, o) =
      set-outcome e.futures j (cancel_with_err cancelled (e.futures j)) o
        (cancelled-outcome cancelled (e.futures j))
  rechecked-outcome e j false (h, o) = o

  recheck-HasOutcome :
      (e : Executor A) (j : ℕ) (stage : Stage)
      → HasOutcome e
      → Holds HasOutcome (recheck_step e j stage)
  unfolding recheck_step
  recheck-HasOutcome e j checking has = (has.0, rechecked-outcome e j e.stopped has)
  recheck-HasOutcome e j unborn has = tt
  recheck-HasOutcome e j offering has = tt
  recheck-HasOutcome e j returned has = tt

  reject-HasOutcome :
      (e : Executor A) (j : ℕ) (stage : Stage)
      → HasOutcome e
      → Holds HasOutcome (reject_step e j stage)
  unfolding reject_step
  reject-HasOutcome e j offering (h, o) = elim (Bool-cases e.stopped) [
    | inl hit ↦ rw hit (
      h,
      set-outcome e.futures j (cancel_with_err cancelled (e.futures j)) o
          (cancelled-outcome cancelled (e.futures j)),
    )
    | inr miss ↦ rw miss tt
  ]
  reject-HasOutcome e j unborn has = tt
  reject-HasOutcome e j checking has = tt
  reject-HasOutcome e j returned has = tt

  begun-HasOutcome :
      (e : Executor A) (j : ℕ) (running : Bool)
      → HasOutcome e
      → HasOutcome (
          if running
          then record e { work = set e.work j done; free_workers = e.free_workers + 1 }
          else record e {
            work = set e.work j executing;
            futures = set e.futures j (record (e.futures j) { running = true });
          })
  begun-HasOutcome e j true has = has
  begun-HasOutcome e j false (h, o) =
      (h, set-outcome e.futures j (record (e.futures j) { running = true }) o (λ same. same))

  begin-HasOutcome :
      (e : Executor A) (j : ℕ) (work : Work) → HasOutcome e → Holds HasOutcome (begin_step e j work)
  unfolding begin_step
  begin-HasOutcome e j taken has = begun-HasOutcome e j (e.futures j).running has
  begin-HasOutcome e j nowhere has = tt
  begin-HasOutcome e j executing has = tt
  begin-HasOutcome e j done has = tt

  finish-HasOutcome :
      (e : Executor A) (j : ℕ) (x : Outcome A) (work : Work)
      → HasOutcome e
      → Holds HasOutcome (finish_step e j x work)
  unfolding finish_step
  finish-HasOutcome e j x executing (h, o) =
      (h, set-outcome e.futures j (resolve x (e.futures j)) o (resolve-outcome x (e.futures j)))
  finish-HasOutcome e j x nowhere has = tt
  finish-HasOutcome e j x taken has = tt
  finish-HasOutcome e j x done has = tt

  cancel-HasOutcome :
      (e : Executor A) (j : ℕ) (x : Outcome A) (stage : Stage)
      → HasOutcome e
      → Holds HasOutcome (cancel_step e j x stage)
  unfolding cancel_step
  cancel-HasOutcome e j x returned (h, o) = (
    h,
    set-outcome e.futures j (cancel_with_err x (e.futures j)) o (cancelled-outcome x (e.futures j)),
  )
  cancel-HasOutcome e j x unborn has = tt
  cancel-HasOutcome e j x offering has = tt
  cancel-HasOutcome e j x checking has = tt

  exit-HasOutcome :
      (e : Executor A) (busy : Bool)
      → HasOutcome e
      → Holds HasOutcome
          (if busy then none else some record e { free_workers = e.free_workers - 1 })
  exit-HasOutcome e true has = tt
  exit-HasOutcome e false has = has

  act-HasOutcome : (a : Action A) (e : Executor A) → HasOutcome e → Holds HasOutcome (act a e)
  unfolding act
  act-HasOutcome submit e has = submit-HasOutcome e has
  act-HasOutcome stop e has = has
  act-HasOutcome worker_exit e has = exit-HasOutcome e (not e.stopped || (e.free_workers == 0)) has
  act-HasOutcome (hand_over j) e has = hand_over-HasOutcome e j (e.stages j) has
  act-HasOutcome (recheck j) e has = recheck-HasOutcome e j (e.stages j) has
  act-HasOutcome (reject j) e has = reject-HasOutcome e j (e.stages j) has
  act-HasOutcome (begin j) e has = begin-HasOutcome e j (e.work j) has
  act-HasOutcome (finish j x) e has = finish-HasOutcome e j x (e.work j) has
  act-HasOutcome (cancel j) e has = cancel-HasOutcome e j cancelled (e.stages j) has
  act-HasOutcome (time_out j) e has = cancel-HasOutcome e j timeout (e.stages j) has

-- Once a submitted future has an outcome, a value, a failure, a cancellation or a timeout, it has that
-- outcome after whatever actions follow: of a task that ends and a cancellation that race, the first
-- one decides.
pub outcome_lasts :
    {A : Type 0} (e : Executor A) (k : ℕ) (r : Outcome A)
    → k < e.submitted
    → (e.futures k).outcome ≡ some r
    → (actions : List (Action A)) (after : Executor A) → run actions e ≡ some after
    → (after.futures k).outcome ≡ some r
outcome_lasts e k r h o actions after ran =
    let has : HasOutcome k r after =
      subst (Holds (HasOutcome k r)) ran
        (run-Holds (HasOutcome k r) (act-HasOutcome k r) actions e (h, o)) in
    has.1
