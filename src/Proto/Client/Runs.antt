-- ===== src/Proto/Client/Runs.antt =====
-- pkg/proto/client.go: what each action keeps, a run of actions keeps.
use simple_go_server.Common.{Option, none, some, List, [], ◌∷◌, nat_eq, string_eq, All}
use simple_go_server.Proto.Client.{Json, Client, Action, act, run}

module _ (I : Client → Type 0) where
  abbrev pub Kept : Option Client → Type 0
  Kept none = Unit {0}
  Kept (some t) = I t

  next-Kept :
      (json : Json) (rest : List Action) (r : Option Client)
      → ((t : Client) → I t → Kept (run json rest t))
      → Kept r
      → Kept (elim r [ none ↦ none | some t ↦ run json rest t ])
  next-Kept json rest none f i = tt
  next-Kept json rest (some t) f i = f t i

  -- `Good` is what an action needs to keep it.
  pub run-Kept :
      (json : Json) (Good : Action → Type 0)
      → ((a : Action) (s : Client) → I s → Good a → Kept (act json a s))
      → (actions : List Action) (s : Client) → I s
      → All Good actions
      → Kept (run json actions s)
  unfolding run
  run-Kept json Good step [] s i good = i
  run-Kept json Good step (a ∷ rest) s i (here, good) =
      next-Kept json rest (act json a s) (λ t kept. run-Kept json Good step rest t kept good)
        (step a s i here)

  any_action : (actions : List Action) → All (λ a. Unit {0}) actions
  any_action [] = tt
  any_action (a ∷ rest) = (tt, any_action rest)

  pub run-Kept_always :
      (json : Json)
      → ((a : Action) (s : Client) → I s → Kept (act json a s))
      → (actions : List Action) (s : Client) → I s
      → Kept (run json actions s)
  run-Kept_always json step actions s i =
      run-Kept json (λ a. Unit {0}) (λ a t j unit. step a t j) actions s i (any_action actions)
