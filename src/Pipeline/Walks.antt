-- ===== src/Pipeline/Walks.antt =====
-- internal/handler/linked_pipeline.go: IndexOf, LastIndexOf and the Fire methods, and the loops of
-- internal/handler/node_context.go that pass an event on. A loop takes one node of the list in each
-- round: as many rounds as the pipeline has nodes are enough. `none` is a loop out of rounds.
use simple_go_server.Common.{
  ℕ, zero, suc, ◌+◌, Bool, true, false, Option, none, some, List, [], ◌∷◌, if◌then◌else◌, nat_eq,
  string_eq,
}
use simple_go_server.Common.Int.{ℤ, pos, negsuc}
use simple_go_server.Pipeline.{Handler, Pipeline, next_of, prev_of, handler_of}

-- i--
abbrev pub down : ℤ → ℤ
down (pos zero) = negsuc 0
down (pos (suc n)) = pos n
down (negsuc n) = negsuc (suc n)

module _ (f : Option Handler → Bool) (p : Pipeline) where
  unfoldable pub index_from : ℕ → ℕ → ℕ → Option ℤ
  index_from zero i cur = none
  index_from (suc fuel) i cur = elim (f (handler_of p.nodes cur)) [
    | true ↦ some (pos i)
    | false ↦ elim (next_of p.nodes cur) [
      | none ↦ some (negsuc 0)
      | some node ↦ index_from fuel (i + 1) node
    ]
  ]

  unfoldable pub last_index_from : ℕ → ℤ → ℕ → Option ℤ
  last_index_from zero i cur = none
  last_index_from (suc fuel) i cur = elim (f (handler_of p.nodes cur)) [
    | true ↦ some i
    | false ↦ elim (prev_of p.nodes cur) [
      | none ↦ some (negsuc 0)
      | some node ↦ last_index_from fuel (down i) node
    ]
  ]

  unfoldable pub index_of : Option ℤ
  index_of = index_from p.size 0 p.head

  unfoldable pub last_index_of : Option ℤ
  last_index_of = last_index_from p.size (down (pos p.size)) p.tail

-- The type assertions of NewNodeContext: nil implements nothing.
abbrev pub implements : (Handler → Bool) → Option Handler → Bool
implements can none = false
implements can (some h) = can h

-- A loop from `cur` on along `step`: the first node whose handler implements the interface.
unfoldable pub reach :
    (Option Handler → Bool)
    → (ℕ → Option ℕ)
    → (ℕ → Option Handler)
    → ℕ
    → Option ℕ
    → Option (Option ℕ)
reach can step held zero cur = none
reach can step held (suc fuel) none = some none
reach can step held (suc fuel) (some cur) = elim (can (held cur)) [
  | true ↦ some (some cur)
  | false ↦ reach can step held fuel (step cur)
]

-- The node whose handler an event reaches from the node `n`: HandleActive, HandleRead,
-- HandleException and HandleInactive look behind it, HandleWrite and Write before it.
module _ (p : Pipeline) (n : ℕ) where
  abbrev pub inward : (Handler → Bool) → Option (Option ℕ)
  inward can =
      reach (implements can) (next_of p.nodes) (handler_of p.nodes) (p.size + 1) (next_of p.nodes n)

  abbrev pub outward : (Handler → Bool) → Option (Option ℕ)
  outward can =
      reach (implements can) (prev_of p.nodes) (handler_of p.nodes) (p.size + 1) (prev_of p.nodes n)

  abbrev pub handle_active : Option (Option ℕ)
  handle_active = inward (λ h. h.active)

  abbrev pub handle_read : Option (Option ℕ)
  handle_read = inward (λ h. h.inbound)

  abbrev pub handle_exception : Option (Option ℕ)
  handle_exception = inward (λ h. h.exception)

  abbrev pub handle_inactive : Option (Option ℕ)
  handle_inactive = inward (λ h. h.inactive)

  abbrev pub handle_write : Option (Option ℕ)
  handle_write = outward (λ h. h.outbound)

abbrev pub fire_active : Pipeline → Option (Option ℕ)
fire_active p = handle_active p p.head

abbrev pub fire_read : Pipeline → Option (Option ℕ)
fire_read p = handle_read p p.head

abbrev pub fire_write : Pipeline → Option (Option ℕ)
fire_write p = handle_write p p.tail

abbrev pub fire_exception : Pipeline → Option (Option ℕ)
fire_exception p = handle_exception p p.head

abbrev pub fire_inactive : Pipeline → Option (Option ℕ)
fire_inactive p = handle_inactive p p.head

-- The handler calls of a NodeContext.Write, whose deferred recover turns a panic of the handler to
-- an exception of the pipeline. `panics` says whose HandleWrite panics with the message.
pub data Call : Type 0 where
  wrote : ℕ → Call
  excepted : ℕ → Call

unfoldable pub write : (ℕ → Bool) → Pipeline → ℕ → Option (List Call)
write panics p n = elim (handle_write p n) [
  | none ↦ none
  | some none ↦ some []
  | some (some node) ↦
      if panics node
      then elim (fire_exception p) [
        | none ↦ none
        | some none ↦ some (wrote node ∷ [])
        | some (some guard) ↦ some (wrote node ∷ excepted guard ∷ [])
      ]
      else some (wrote node ∷ [])
]

-- An event that each handler passes on to the next: the nodes it visits.
unfoldable pub visits : (ℕ → Option (Option ℕ)) → ℕ → ℕ → List ℕ
visits handle zero n = []
visits handle (suc fuel) n = elim (handle n) [
  | none ↦ []
  | some none ↦ []
  | some (some node) ↦ node ∷ visits handle fuel node
]
