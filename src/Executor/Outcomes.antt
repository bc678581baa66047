-- ===== src/Executor/Outcomes.antt =====
-- internal/executor: what becomes of a submitted future.
use simple_go_server.Common.{
  ℕ, ◌-◌, ◌≡◌, refl, subst, ◌⊎◌, inl, inr, Bool, true, false, not, ◌||◌, Option, none, some, List,
  [], ◌∷◌, if◌then◌else◌, ◌==◌, nat_eq, string_eq, Bool-cases,
}
use simple_go_server.Executor.{
  cancelled, timeout, returned, Work, nowhere, taken, executing, done, Executor, Action, submit,
  stop, worker_exit, hand_over, recheck, reject, begin, cancel, time_out, finish, new_executor,
  is_done, submitting, act, run,
}
use simple_go_server.Executor.Resolving.{
  IsPlaced, Fits, IsKept, Kept, stop-IsKept, hand_over-Kept, recheck-Kept, reject-Kept, begin-Kept,
  finish-Kept, cancel-Kept,
}

module _ {A : Type 0} where
  submit-IsKept : (e : Executor A) → IsKept e → IsKept (submitting e)
  submit-IsKept e kept j = elim (Bool-cases (j == e.submitted)) [
    | inl same ↦ rw same refl
    | inr other ↦ rw other (kept j)
  ]

  exit-Kept :
      (e : Executor A) (busy : Bool)
      → IsKept e
      → Kept (if busy then none else some record e { free_workers = e.free_workers - 1 })
  exit-Kept e true kept = tt
  exit-Kept e false kept = kept

  act-Kept : (a : Action A) (e : Executor A) → IsKept e → Kept (act a e)
  unfolding act
  act-Kept submit e kept = submit-IsKept e kept
  act-Kept stop e kept = stop-IsKept e kept
  act-Kept worker_exit e kept = exit-Kept e (not e.stopped || (e.free_workers == 0)) kept
  act-Kept (hand_over k) e kept = hand_over-Kept e k (e.stages k) kept refl
  act-Kept (recheck k) e kept = recheck-Kept e k (e.stages k) kept refl
  act-Kept (reject k) e kept = reject-Kept e k (e.stages k) kept refl
  act-Kept (begin k) e kept = begin-Kept e k (e.work k) kept refl
  act-Kept (finish k r) e kept = finish-Kept e k r (e.work k) kept refl
  act-Kept (cancel k) e kept = cancel-Kept e k cancelled (e.stages k) kept refl
  act-Kept (time_out k) e kept = cancel-Kept e k timeout (e.stages k) kept refl

  -- What every action keeps, a run keeps.
  abbrev pub Holds : (Executor A → Type 0) → Option (Executor A) → Type 0
  Holds I none = Unit {0}
  Holds I (some e) = I e

  next-Holds :
      (I : Executor A → Type 0) (rest : List (Action A)) (r : Option (Executor A))
      → ((e : Executor A) → I e → Holds I (run rest e))
      → Holds I r
      → Holds I (elim r [ none ↦ none | some next ↦ run rest next ])
  next-Holds I rest none f i = tt
  next-Holds I rest (some e) f i = f e i

  pub run-Holds :
      (I : Executor A → Type 0)
      → ((a : Action A) (e : Executor A) → I e → Holds I (act a e))
      → (actions : List (Action A)) (e : Executor A) → I e
      → Holds I (run actions e)
  unfolding run
  run-Holds I step [] e i = i
  run-Holds I step (a ∷ rest) e i = next-Holds I rest (act a e) (run-Holds I step rest) (step a e i)

  Holds-IsKept : (r : Option (Executor A)) → Kept r → Holds IsKept r
  Holds-IsKept none kept = tt
  Holds-IsKept (some e) kept = kept

  -- Where the outcome of a future that Submit returned is to come from.
  pub data Settled (e : Executor A) (k : ℕ) : Type 0 where
    resolved : is_done (e.futures k) ≡ true → Settled e k
    waits_for_task : e.work k ≡ taken ⊎ e.work k ≡ executing → Settled e k

  placed-Settled :
      (e : Executor A) (k : ℕ) (work : Work)
      → e.work k ≡ work
      → IsPlaced work (e.futures k)
      → Settled e k
  placed-Settled e k nowhere w placed = resolved placed
  placed-Settled e k done w placed = resolved placed
  placed-Settled e k taken w placed = waits_for_task (inl w)
  placed-Settled e k executing w placed = waits_for_task (inr w)

  -- However submissions, workers, cancellations, timeouts and Stop interleave, from a new executor of
  -- any number of workers: a future that Submit has returned is resolved, so that Get returns at once,
  -- or a worker has taken its task and has not ended it.
  pub returned-Settled :
      (workers : ℕ) (actions : List (Action A)) (e : Executor A)
      → run actions (new_executor workers) ≡ some e
      → (k : ℕ) → e.stages k ≡ returned
      → Settled e k
  returned-Settled workers actions e ran k s =
      let kept : IsKept e = subst (Holds IsKept) ran (
        run-Holds IsKept (λ a x i. Holds-IsKept (act a x) (act-Kept a x i)) actions
          (new_executor workers) (λ j. refl)) in
      placed-Settled e k (e.work k) refl
        (subst (λ stage. Fits stage (e.work k) (e.futures k)) s (kept k))
