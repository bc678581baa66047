-- ===== src/Executor/Tests.antt =====
-- internal/executor: futures on concrete actions.
use simple_go_server.Common.{
  ℕ, ◌≡◌, refl, none, some, List, [], ◌∷◌, ◌++◌, arith, nat_eq, string_eq,
}
use simple_go_server.Executor.{
  value, Executor, Action, submit, stop, hand_over, recheck, reject, begin, cancel, finish,
  new_executor, cancel_with_err, hand_over_step, recheck_step, reject_step, begin_step, finish_step,
  cancel_step, act, run,
}
use simple_go_server.Executor.Outcomes.{Settled, returned-Settled}
use simple_go_server.Executor.Lasting.{outcome_lasts}

-- Stop while one task runs and another future is offered; then a cancellation that is late.
abbrev stopping : List (Action ℕ)
stopping =
    submit ∷ hand_over 0 ∷ recheck 0 ∷ begin 0 ∷ submit ∷ stop ∷ reject 1 ∷ finish 0 (value 5) ∷ []

abbrev after : List (Action ℕ) → Executor ℕ
unfolding run
after actions = elim (run actions (new_executor 1)) [ none ↦ new_executor 1 | some e ↦ e ]

returned-Settled_example : Settled (after stopping) 1
unfolding after run act hand_over_step recheck_step begin_step reject_step finish_step
    cancel_with_err
returned-Settled_example = returned-Settled 1 stopping (after stopping) refl 1 refl

outcome_lasts_example : ((after (stopping ++ cancel 0 ∷ [])).futures 0).outcome ≡ some (value 5)
unfolding after run act hand_over_step recheck_step begin_step reject_step finish_step
    cancel_with_err cancel_step
outcome_lasts_example =
    outcome_lasts (after stopping) 0 (value 5) (omega arith) refl (cancel 0 ∷ [])
      (after (stopping ++ cancel 0 ∷ [])) refl
