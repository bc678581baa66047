-- ===== src/Pipeline/Adding.antt =====
-- internal/handler/linked_pipeline.go: AddFirst, AddLast and AddHandler on the list of handlers that
-- a pipeline stands for.
use simple_go_server.Common.{
  ℕ, ◌+◌, ◌≡◌, refl, sym, ap, ◌∙◌, subst, Option, none, some, List, [], ◌∷◌, ◌++◌, map, append-nil,
  append_assoc, arith, ltb, if◌then◌else◌, ◌==◌, nat_eq, string_eq, length, take, drop,
}
use mathlib.Core.List.{map-append}
use simple_go_server.Common.Dict.{lookup, insert}
use simple_go_server.Common.Int.{ℤ, pos, negsuc}
use simple_go_server.Pipeline.{
  Handler, Pipeline, add_first_one, add_last_one, head_handler, tail_header, add_firsts, add_lasts,
  add_behind, add_first, add_last, add_handler, is_valid_handlers, new_pipeline, set_next, set_prev,
}
use simple_go_server.Pipeline.Linked.{Place, IsLinked}
use simple_go_server.Pipeline.Shape.{
  IsShape, Inserted, insert_behind-Inserted, add_last_one-Inserted, next_a,
}

abbrev pub handlers : List Place → List (Option Handler)
handlers places = map (λ place. place.1) places

-- A pipeline between its two ends.
abbrev pub whole : Pipeline → List Place → List Place
whole p mid = (p.head, some head_handler) ∷ mid ++ (p.tail, some tail_header) ∷ []

-- The pipeline is a linked one and has these handlers between its ends.
pub record Represents (p : Pipeline) (hs : List (Option Handler)) : Type 0 where
  pub mid : List Place
  pub shape : IsShape p (whole p mid)
  pub held : handlers mid ≡ hs

-- What a list of handlers becomes: AddFirst puts the handlers one after the other at the front, so
-- that the last of them comes first.
unfoldable pub onto : List (Option Handler) → List (Option Handler) → List (Option Handler)
onto [] hs = hs
onto (h ∷ more) hs = onto more (h ∷ hs)

-- `none` is a panic.
pub data Op : Type 0 where
  first : List (Option Handler) → Op
  last : List (Option Handler) → Op
  at_position : ℤ → List (Option Handler) → Op

abbrev pub run_op : Op → Pipeline → Option Pipeline
run_op (first hs) p = add_first hs p
run_op (last hs) p = add_last hs p
run_op (at_position i hs) p = add_handler i hs p

unfoldable pub spec_at :
    ℕ → List (Option Handler) → List (Option Handler) → Option (List (Option Handler))
spec_at position hs held =
    if ltb (length held + 2) position
    then none
    else if position == 0
    then some (onto hs held)
    else if position == length held + 2
    then some (held ++ hs)
    else if position == length held + 1
    then elim hs [ [] ↦ some held | h ∷ more ↦ none ]
    else some (take position held ++ hs ++ drop position held)

unfoldable pub spec_op : Op → List (Option Handler) → Option (List (Option Handler))
spec_op (first hs) held = if is_valid_handlers hs then some (onto hs held) else none
spec_op (last hs) held = if is_valid_handlers hs then some (held ++ hs) else none
spec_op (at_position (negsuc n) hs) held = none
spec_op (at_position (pos position) hs) held =
    if is_valid_handlers hs then spec_at position hs held else none

-- Both panic, or the pipeline has the handlers that the specification says.
abbrev pub Agrees : Option Pipeline → Option (List (Option Handler)) → Type 0
Agrees none none = Unit {0}
Agrees none (some hs) = ⊥
Agrees (some p) none = ⊥
Agrees (some p) (some hs) = Represents p hs

pub new-Represents : Represents new_pipeline []
unfolding IsLinked set_next set_prev lookup insert
new-Represents = record {
  mid = [];
  shape = record {
    linked = (refl, (refl, tt));
    distinct = ((refl, tt), (tt, tt));
    below = (omega arith, (omega arith, tt));
    counted = refl;
  };
  held = refl;
}

pub Inserted-Represents :
    (p : Pipeline) (r : Option Pipeline) (places mid : List Place) (hs : List (Option Handler))
    → (i : Inserted p r places) → places ≡ whole p mid
    → handlers mid ≡ hs
    → Represents i.result hs
Inserted-Represents p r places mid hs i e held = record {
  mid = mid;
  shape =
      subst (IsShape i.result)
        (e
          ∙ ap (λ a. (a, some head_handler) ∷ mid ++ (p.tail, some tail_header) ∷ [])
              (sym i.same_head)
          ∙ ap (λ b. (i.result.head, some head_handler) ∷ mid ++ (b, some tail_header) ∷ [])
              (sym i.same_tail))
        i.shape;
  held = held;
}

first_place-Represents :
    (h : Option Handler) (p : Pipeline) (mid : List Place)
    → IsShape p (whole p mid)
    → (q : Pipeline) × (add_first_one h p ≡ some q) × Represents q (h ∷ handlers mid)
unfolding add_first_one
first_place-Represents h p [] shape =
    let i =
      insert_behind-Inserted p [] p.head p.tail (some head_handler) (some tail_header) [] shape h in
    (i.result, i.gives, Inserted-Represents p _ _ ((p.allocated, h) ∷ []) _ i refl refl)
first_place-Represents h p ((b, gb) ∷ ys) shape =
    let i =
      insert_behind-Inserted p [] p.head b (some head_handler) gb
        (ys ++ (p.tail, some tail_header) ∷ []) shape h in
    (i.result, i.gives, Inserted-Represents p _ _ ((p.allocated, h) ∷ (b, gb) ∷ ys) _ i refl refl)

add_first_one-Represents :
    (h : Option Handler) (p : Pipeline) (held : List (Option Handler))
    → Represents p held
    → (q : Pipeline) × (add_first_one h p ≡ some q) × Represents q (h ∷ held)
add_first_one-Represents h p held r =
    subst (λ l. (q : Pipeline) × (add_first_one h p ≡ some q) × Represents q (h ∷ l)) r.held
      (first_place-Represents h p r.mid r.shape)

pub add_firsts-Represents :
    (hs : List (Option Handler)) (p : Pipeline) (held : List (Option Handler))
    → Represents p held
    → Agrees (add_firsts hs p) (some (onto hs held))
unfolding add_firsts onto
add_firsts-Represents [] p held r = r
add_firsts-Represents (h ∷ hs) p held r =
    let (q, e, s) = add_first_one-Represents h p held r in
    let step : add_firsts (h ∷ hs) p ≡ add_firsts hs q = rw (add_firsts, e) refl in
    subst (λ r. Agrees r (some (onto hs (h ∷ held)))) (sym step)
      (add_firsts-Represents hs q (h ∷ held) s)

-- A list that is not empty, seen from its end.
pub last_place :
    (x : Place) (mid : List Place) → (xs : List Place) × (a : Place) × (x ∷ mid ≡ xs ++ a ∷ [])
last_place x [] = ([], x, refl)
last_place x (y ∷ mid) = let (xs, a, e) = last_place y mid in (x ∷ xs, a, ap (◌∷◌ x) e)

add_last_one-Represents :
    (h : Option Handler) (p : Pipeline) (held : List (Option Handler))
    → Represents p held
    → (q : Pipeline) × (add_last_one h p ≡ some q) × Represents q (held ++ h ∷ [])
add_last_one-Represents h p held r =
    let (xs, a, e) = last_place (p.head, some head_handler) r.mid in
    let split : (zs : List Place) → (p.head, some head_handler) ∷ r.mid ++ zs ≡ xs ++ a ∷ zs =
      λ zs. ap (λ front. front ++ zs) e ∙ append_assoc xs (a ∷ []) zs in
    let end : Place = (p.tail, some tail_header) in
    let i =
      add_last_one-Inserted p xs a.0 p.tail a.1 (some tail_header) []
        (subst (IsShape p) (split (end ∷ [])) r.shape) h refl in
    (
      i.result,
      i.gives,
      Inserted-Represents p _ _ (r.mid ++ (p.allocated, h) ∷ []) (held ++ h ∷ []) i
          (sym (split ((p.allocated, h) ∷ end ∷ []))
            ∙ ap (◌∷◌ (p.head, some head_handler))
                (sym (append_assoc r.mid ((p.allocated, h) ∷ []) (end ∷ []))))
          (map-append (λ (place : Place). place.1) r.mid ((p.allocated, h) ∷ [])
            ∙ ap (λ l. l ++ h ∷ []) r.held),
    )

pub add_lasts-Represents :
    (hs : List (Option Handler)) (p : Pipeline) (held : List (Option Handler))
    → Represents p held
    → Agrees (add_lasts hs p) (some (held ++ hs))
unfolding add_lasts
add_lasts-Represents [] p held r = subst (Represents p) (sym (append-nil held)) r
add_lasts-Represents (h ∷ hs) p held r =
    let (q, e, s) = add_last_one-Represents h p held r in
    let step : add_lasts (h ∷ hs) p ≡ add_lasts hs q = rw (add_lasts, e) refl in
    subst (λ r. Agrees r (some (held ++ h ∷ hs))) (sym step)
      (subst (λ l. Agrees (add_lasts hs q) (some l)) (append_assoc held (h ∷ []) hs)
        (add_lasts-Represents hs q (held ++ h ∷ []) s))

-- The loop of AddHandler: the handlers come behind the node `a`, in their order.
pub add_behind-Inserted :
    (hs : List (Option Handler)) (p : Pipeline) (xs : List Place) (a b : ℕ) (ga gb : Option Handler)
    (ys : List Place)
    → IsShape p (xs ++ (a, ga) ∷ (b, gb) ∷ ys)
    → (news : List Place) × Inserted p (add_behind a hs p) (xs ++ (a, ga) ∷ (news ++ (b, gb) ∷ ys))
      × (handlers news ≡ hs)
unfolding add_behind
add_behind-Inserted [] p xs a b ga gb ys s =
    ([], record { result = p; gives = refl; shape = s; same_head = refl; same_tail = refl }, refl)
add_behind-Inserted (h ∷ hs) p xs a b ga gb ys s =
    let i = insert_behind-Inserted p xs a b ga gb ys s h in
    let new : Place = (p.allocated, h) in
    let shape : IsShape i.result ((xs ++ (a, ga) ∷ []) ++ new ∷ (b, gb) ∷ ys) =
      subst (IsShape i.result) (sym (append_assoc xs ((a, ga) ∷ []) (new ∷ (b, gb) ∷ ys)))
        i.shape in
    let (news, rest, held) =
      add_behind-Inserted hs i.result (xs ++ (a, ga) ∷ []) p.allocated b h gb ys shape in
    (
      new ∷ news,
      record {
        result = rest.result;
        gives =
            rw (add_behind, i.gives, next_a i.result xs a p.allocated ga h ((b, gb) ∷ ys) i.shape)
              rest.gives;
        shape =
            subst (IsShape rest.result)
              (append_assoc xs ((a, ga) ∷ []) (new ∷ (news ++ (b, gb) ∷ ys))) rest.shape;
        same_head = rest.same_head ∙ i.same_head;
        same_tail = rest.same_tail ∙ i.same_tail;
      },
      ap (◌∷◌ h) held,
    )
