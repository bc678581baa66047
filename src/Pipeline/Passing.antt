-- ===== src/Pipeline/Passing.antt =====
-- internal/handler/node_context.go: where the events of a linked pipeline go.
use simple_go_server.Common.{
  ℕ, zero, suc, ◌≤◌, ◌<◌, ◌≡◌, refl, ap, inl, inr, Bool, true, false, Option, none, some, List, [],
  ◌∷◌, arith, nat_eq, string_eq, Bool-cases, length,
}
use simple_go_server.Common.Dict.{Dict}
use simple_go_server.Pipeline.{Handler, Node, next_of, prev_of, handler_of}
use simple_go_server.Pipeline.Linked.{Place, first_of, IsLinked}
use simple_go_server.Pipeline.Walks.{reach, visits}

-- The places in the order of `step`, each with its handler.
abbrev pub IsChain : (ℕ → Option ℕ) → (ℕ → Option Handler) → List Place → Type 0
IsChain step held [] = Unit {0}
IsChain step held ((i, g) ∷ rest) = (step i ≡ first_of rest) × (held i ≡ g) × IsChain step held rest

unfoldable pub turned : List Place → List Place → List Place
turned [] done = done
turned (x ∷ xs) done = turned xs (x ∷ done)

pub forward-IsChain :
    (nodes : Dict ℕ Node) (before : Option ℕ) (places : List Place)
    → IsLinked nodes before places
    → IsChain (next_of nodes) (handler_of nodes) places
unfolding IsLinked next_of handler_of
forward-IsChain nodes before [] l = tt
forward-IsChain nodes before ((i, g) ∷ rest) l =
    (rw (next_of, l.0) refl, rw (handler_of, l.0) refl, forward-IsChain nodes (some i) rest l.1)

pub backward-IsChain :
    (nodes : Dict ℕ Node) (places done : List Place)
    → IsLinked nodes (first_of done) places
    → IsChain (prev_of nodes) (handler_of nodes) done
    → IsChain (prev_of nodes) (handler_of nodes) (turned places done)
unfolding IsLinked prev_of handler_of turned
backward-IsChain nodes [] done l c = c
backward-IsChain nodes ((i, g) ∷ rest) done l c =
    backward-IsChain nodes rest ((i, g) ∷ done) l.1
      (rw (prev_of, l.0) refl, rw (handler_of, l.0) refl, c)

module _ (can : Option Handler → Bool) where
  unfoldable pub first_capable : List Place → Option ℕ
  first_capable [] = none
  first_capable ((i, g) ∷ rest) = elim (can g) [ true ↦ some i | false ↦ first_capable rest ]

  unfoldable pub capable : List Place → List ℕ
  capable [] = []
  capable ((i, g) ∷ rest) = elim (can g) [ true ↦ i ∷ capable rest | false ↦ capable rest ]

  pub reach_lem :
      (step : ℕ → Option ℕ) (held : ℕ → Option Handler) (fuel : ℕ) (places : List Place)
      → IsChain step held places
      → length places < fuel
      → reach can step held fuel (first_of places) ≡ some (first_capable places)
  unfolding reach first_capable
  reach_lem step held zero places c h = absurd (omega arith)
  reach_lem step held (suc fuel) [] c h = refl
  reach_lem step held (suc fuel) ((i, g) ∷ rest) (e, f, c) h = elim (Bool-cases (can g)) [
    | inl hit ↦ rw (f, first_capable, hit) refl
    | inr miss ↦ rw (f, first_capable, miss, e) (reach_lem step held fuel rest c (omega (arith, h)))
  ]

  -- From each place the event reaches the first capable one behind it.
  abbrev pub Serves : (ℕ → Option (Option ℕ)) → List Place → Type 0
  Serves handle [] = Unit {0}
  Serves handle ((i, g) ∷ rest) = (handle i ≡ some (first_capable rest)) × Serves handle rest

  pub chain-Serves :
      (step : ℕ → Option ℕ) (held : ℕ → Option Handler) (fuel : ℕ) (places : List Place)
      → IsChain step held places
      → length places ≤ fuel
      → Serves (λ n. reach can step held fuel (step n)) places
  chain-Serves step held fuel [] c h = tt
  chain-Serves step held fuel ((i, g) ∷ rest) (e, f, c) h = (
    rw e (reach_lem step held fuel rest c (omega (arith, h))),
    chain-Serves step held fuel rest c (omega (arith, h)),
  )

  -- What is behind the first capable place, if there is one.
  data NextCapable (handle : ℕ → Option (Option ℕ)) (places : List Place) : Type 0 where
    nobody : first_capable places ≡ none → capable places ≡ [] → NextCapable handle places
    somebody :
        (j : ℕ) (g : Option Handler) (rest : List Place)
        → first_capable places ≡ some j
        → capable places ≡ j ∷ capable rest
        → Serves handle ((j, g) ∷ rest)
        → length rest < length places
        → NextCapable handle places

  next_capable :
      (handle : ℕ → Option (Option ℕ)) (places : List Place)
      → Serves handle places
      → NextCapable handle places
  unfolding first_capable capable
  next_capable handle [] s = nobody refl refl
  next_capable handle ((i, g) ∷ rest) s = elim (Bool-cases (can g)) [
    | inl hit ↦
        somebody i g rest (rw (first_capable, hit) refl) (rw (capable, hit) refl) s (omega arith)
    | inr miss ↦ elim (next_capable handle rest s.1) [
      | nobody e f ↦ nobody (rw (first_capable, miss) e) (rw (capable, miss) f)
      | somebody j h more e f t l ↦
          somebody j h more (rw (first_capable, miss) e) (rw (capable, miss) f) t (omega (arith, l))
    ]
  ]

  pub visits_lem :
      (handle : ℕ → Option (Option ℕ)) (fuel : ℕ) (i : ℕ) (g : Option Handler) (rest : List Place)
      → Serves handle ((i, g) ∷ rest)
      → length rest < fuel
      → visits handle fuel i ≡ capable rest
  unfolding visits
  visits_lem handle zero i g rest s h = absurd (omega arith)
  visits_lem handle (suc fuel) i g rest s h = elim (next_capable handle rest s.1) [
    | nobody e f ↦ rw (visits, s.0, e, f) refl
    | somebody j k more e f t l ↦
        rw (visits, s.0, e, f)
          (ap (◌∷◌ j) (visits_lem handle fuel j k more t (omega (arith, l, h))))
  ]
