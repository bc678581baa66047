-- ===== src/Pipeline/Histories.antt =====
-- internal/handler/linked_pipeline.go: histories of AddFirst, AddLast and AddHandler.
use simple_go_server.Common.{
  ℕ, zero, suc, ◌+◌, ◌≡◌, refl, sym, subst, inl, inr, true, Option, none, some, List, [], ◌∷◌,
  arith, ltb, ◌==◌, nat_eq, string_eq, Bool-cases, length, length-append,
}
use simple_go_server.Common.Int.{ℤ, pos, negsuc}
use simple_go_server.Pipeline.{
  Handler, Pipeline, tail_header, walk_to, add_first, add_last, add_at, add_handler,
  is_valid_handlers, new_pipeline,
}
use simple_go_server.Pipeline.Linked.{Place}
use simple_go_server.Pipeline.Shape.{IsShape}
use simple_go_server.Pipeline.Adding.{
  handlers, whole, Represents, Op, first, last, at_position, run_op, spec_at, spec_op, Agrees,
  new-Represents, add_firsts-Represents, add_lasts-Represents,
}
use simple_go_server.Pipeline.Positions.{add_inside, add_at_tail, length-handlers}

agree :
    {r s : Option Pipeline} {o w : Option (List (Option Handler))}
    → r ≡ s
    → o ≡ w
    → Agrees s w
    → Agrees r o
agree {r} {s} {o} {w} e f a = subst (λ x. Agrees x o) (sym e) (subst (Agrees s) (sym f) a)

-- AddHandler from the test of the position on, for handlers that are valid.
module _ (hs : List (Option Handler)) (p : Pipeline) (mid : List Place)
    (valid : is_valid_handlers hs ≡ true) (shape : IsShape p (whole p mid)) where
  sized : p.size ≡ length (handlers mid) + 2
  sized = omega (
    arith,
    shape.counted,
    length-append mid ((p.tail, some tail_header) ∷ []),
    length-handlers mid,
  )

  represented : Represents p (handlers mid)
  represented = record { mid = mid; shape = shape; held = refl }

  add_at-Agrees :
      (position : ℕ) → Agrees (add_at position hs p) (spec_at position hs (handlers mid))
  unfolding add_at spec_at add_first add_last
  add_at-Agrees zero =
      agree (ground (arith, valid)) (ground arith)
        (add_firsts-Represents hs p (handlers mid) represented)
  add_at-Agrees (suc k) = elim (Bool-cases (ltb p.size (suc k))) [
    | inl beyond ↦
        agree {s = none} {w = none} (ground (arith, beyond)) (ground (arith, beyond, sized)) tt
    | inr within ↦ elim (Bool-cases (suc k == p.size)) [
      | inl whole_size ↦
          agree (ground (arith, within, whole_size, valid))
            (ground (arith, within, whole_size, sized))
            (add_lasts-Represents hs p (handlers mid) represented)
      | inr inside ↦ elim (Bool-cases (suc k == length (handlers mid) + 1)) [
        | inl tail ↦
            let (walked, agrees) = add_at_tail hs p mid shape in
            let here : walk_to p.nodes (suc k) p.head ≡ some p.tail =
              subst (λ n. walk_to p.nodes (suc n) p.head ≡ some p.tail)
                (ground (arith, tail, length-handlers mid)) walked in
            agree (ground (arith, within, inside, here))
              (ground (arith, within, inside, tail, sized)) agrees
        | inr handler ↦
            let (cur, walked, agrees) =
              add_inside k hs p mid
                (ground (arith, within, inside, handler, sized, length-handlers mid)) shape in
            agree (ground (arith, within, inside, walked))
              (ground (arith, within, inside, handler, sized)) agrees
      ]
    ]
  ]

add_first-Agrees :
    (hs : List (Option Handler)) (p : Pipeline) (held : List (Option Handler))
    → Represents p held
    → Agrees (run_op (first hs) p) (spec_op (first hs) held)
unfolding add_first spec_op
add_first-Agrees hs p held r = elim (Bool-cases (is_valid_handlers hs)) [
  | inl valid ↦ agree (rw valid refl) (rw valid refl) (add_firsts-Represents hs p held r)
  | inr invalid ↦ agree {s = none} {w = none} (rw invalid refl) (rw invalid refl) tt
]

add_last-Agrees :
    (hs : List (Option Handler)) (p : Pipeline) (held : List (Option Handler))
    → Represents p held
    → Agrees (run_op (last hs) p) (spec_op (last hs) held)
unfolding add_last spec_op
add_last-Agrees hs p held r = elim (Bool-cases (is_valid_handlers hs)) [
  | inl valid ↦ agree (rw valid refl) (rw valid refl) (add_lasts-Represents hs p held r)
  | inr invalid ↦ agree {s = none} {w = none} (rw invalid refl) (rw invalid refl) tt
]

add_handler-Agrees :
    (i : ℤ) (hs : List (Option Handler)) (p : Pipeline) (held : List (Option Handler))
    → Represents p held
    → Agrees (run_op (at_position i hs) p) (spec_op (at_position i hs) held)
unfolding add_handler spec_op
add_handler-Agrees (negsuc n) hs p held r = tt
add_handler-Agrees (pos i) hs p held r = elim (Bool-cases (is_valid_handlers hs)) [
  | inl valid ↦ agree (rw valid refl) (rw valid refl) (
      subst (λ l. Agrees (add_at i hs p) (spec_at i hs l)) r.held
        (add_at-Agrees hs p r.mid valid r.shape i))
  | inr invalid ↦ agree {s = none} {w = none} (rw invalid refl) (rw invalid refl) tt
]

pub run_op-Agrees :
    (op : Op) (p : Pipeline) (held : List (Option Handler))
    → Represents p held
    → Agrees (run_op op p) (spec_op op held)
run_op-Agrees (first hs) p held r = add_first-Agrees hs p held r
run_op-Agrees (last hs) p held r = add_last-Agrees hs p held r
run_op-Agrees (at_position i hs) p held r = add_handler-Agrees i hs p held r

-- Histories: the first panic ends one.
unfoldable pub run : List Op → Pipeline → Option Pipeline
run [] p = some p
run (op ∷ ops) p = elim (run_op op p) [ none ↦ none | some q ↦ run ops q ]

unfoldable pub spec : List Op → List (Option Handler) → Option (List (Option Handler))
spec [] held = some held
spec (op ∷ ops) held = elim (spec_op op held) [ none ↦ none | some after ↦ spec ops after ]

bind-Agrees :
    (f : Pipeline → Option Pipeline) (g : List (Option Handler) → Option (List (Option Handler)))
    → ((q : Pipeline) (held : List (Option Handler)) → Represents q held → Agrees (f q) (g held))
    → (r : Option Pipeline) (o : Option (List (Option Handler))) → Agrees r o
    → Agrees (elim r [ none ↦ none | some q ↦ f q ]) (elim o [ none ↦ none | some held ↦ g held ])
bind-Agrees f g next none none a = tt
bind-Agrees f g next none (some held) a = elim a [ ]
bind-Agrees f g next (some q) none a = elim a [ ]
bind-Agrees f g next (some q) (some held) a = next q held a

run-Agrees :
    (ops : List Op) (p : Pipeline) (held : List (Option Handler))
    → Represents p held
    → Agrees (run ops p) (spec ops held)
unfolding run spec
run-Agrees [] p held r = r
run-Agrees (op ∷ ops) p held r =
    bind-Agrees (run ops) (spec ops) (run-Agrees ops) (run_op op p) (spec_op op held)
      (run_op-Agrees op p held r)

-- Any history of AddFirst, AddLast and AddHandler on a new pipeline panics exactly if the same
-- history on a plain list of handlers is refused, and otherwise leaves nodes that are linked both
-- ways from the head to the tail and carry that list between them, with the size that counts them.
-- On the list, AddFirst reverses what it adds at the front, AddLast appends, and AddHandler at a
-- handler's position puts its handlers behind that one; refused are nil, a value that is no handler,
-- a position below 0 or over the size, and a handler behind the tail.
pub run_refines_list : (ops : List Op) → Agrees (run ops new_pipeline) (spec ops [])
run_refines_list ops = run-Agrees ops new_pipeline [] new-Represents
