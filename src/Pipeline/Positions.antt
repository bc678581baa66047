-- ===== src/Pipeline/Positions.antt =====
-- internal/handler/linked_pipeline.go: AddHandler at each position.
use simple_go_server.Common.{
  ℕ, zero, suc, ◌<◌, ◌≡◌, refl, sym, ap, ◌∙◌, subst, Option, none, some, List, [], ◌∷◌, ◌++◌,
  append_assoc, arith, nat_eq, string_eq, length, take, drop,
}
use mathlib.Core.List.{map-append}
use simple_go_server.Common.Dict.{Dict}
use simple_go_server.Pipeline.{
  Handler, Node, Pipeline, next_of, insert_behind, head_handler, tail_header, walk_to, add_behind,
}
use simple_go_server.Pipeline.Linked.{Place, IsLinked}
use simple_go_server.Pipeline.Shape.{IsShape, IsLinked-right}
use simple_go_server.Pipeline.Adding.{
  handlers, whole, Agrees, add_behind-Inserted, Inserted-Represents,
}

pub walk_to-place :
    (nodes : Dict ℕ Node) (before : Option ℕ) (x : Place) (us : List Place) (a : Place)
    (rest : List Place)
    → IsLinked nodes before (x ∷ us ++ a ∷ rest)
    → walk_to nodes (suc (length us)) x.0 ≡ some a.0
unfolding walk_to next_of IsLinked
walk_to-place nodes before x [] a rest l = rw (walk_to, next_of, l.0) refl
walk_to-place nodes before x (u ∷ us) a rest l =
    rw (walk_to, next_of, l.0) (walk_to-place nodes (some x.0) u us a rest l.1)

record Split (k : ℕ) (places : List Place) : Type 0 where
  pub front : List Place
  pub at : Place
  pub behind : List Place
  pub joined : places ≡ front ++ at ∷ behind
  pub counted : length front ≡ k
  pub with_news :
      (news : List Place)
      → handlers (front ++ at ∷ (news ++ behind))
        ≡ take (suc k) (handlers places) ++ handlers news ++ drop (suc k) (handlers places)

place-Split : (k : ℕ) (places : List Place) → k < length places → Split k places
place-Split k [] h = absurd (omega arith)
place-Split zero (x ∷ xs) h = record {
  front = [];
  at = x;
  behind = xs;
  joined = refl;
  counted = refl;
  with_news = λ news. ap (◌∷◌ x.1) (map-append (λ (place : Place). place.1) news xs);
}
place-Split (suc k) (x ∷ xs) h =
    let s = place-Split k xs (omega (arith, h)) in
    record {
      front = x ∷ s.front;
      at = s.at;
      behind = s.behind;
      joined = ap (◌∷◌ x) s.joined;
      counted = omega (arith, s.counted);
      with_news = λ news. ap (◌∷◌ x.1) (s.with_news news);
    }

first_place :
    (rest : List Place) (end : Place)
    → (b : ℕ) × (gb : Option Handler) × (ys : List Place) × (rest ++ end ∷ [] ≡ (b, gb) ∷ ys)
first_place [] end = (end.0, end.1, [], refl)
first_place (x ∷ rest) end = (x.0, x.1, rest ++ end ∷ [], refl)

-- A position of a handler, from 1 on.
pub add_inside :
    (k : ℕ) (hs : List (Option Handler)) (p : Pipeline) (mid : List Place)
    → k < length mid
    → IsShape p (whole p mid)
    → (cur : ℕ) × (walk_to p.nodes (suc k) p.head ≡ some cur)
      × Agrees
          (add_behind cur hs p)
          (some (take (suc k) (handlers mid) ++ hs ++ drop (suc k) (handlers mid)))
add_inside k hs p mid h shape =
    let s = place-Split k mid h in
    let top : Place = (p.head, some head_handler) in
    let end : Place = (p.tail, some tail_header) in
    let (b, gb, ys, e) = first_place s.behind end in
    let split : (news : List Place)
        → top ∷ (s.front ++ s.at ∷ (news ++ s.behind)) ++ end ∷ []
          ≡ (top ∷ s.front) ++ s.at ∷ (news ++ (b, gb) ∷ ys) =
      λ news. ap (◌∷◌ top) (
        append_assoc s.front (s.at ∷ (news ++ s.behind)) (end ∷ [])
        ∙ ap (λ l. s.front ++ s.at ∷ l)
            (append_assoc news s.behind (end ∷ []) ∙ ap (λ l. news ++ l) e)) in
    let places : whole p mid ≡ (top ∷ s.front) ++ s.at ∷ (b, gb) ∷ ys =
      ap (λ l. top ∷ l ++ end ∷ []) s.joined ∙ split [] in
    let (news, i, held) =
      add_behind-Inserted hs p (top ∷ s.front) s.at.0 b s.at.1 gb ys
        (subst (IsShape p) places shape) in
    let walked : walk_to p.nodes (suc k) p.head ≡ some s.at.0 =
      subst (λ n. walk_to p.nodes (suc n) p.head ≡ some s.at.0) s.counted
        (walk_to-place p.nodes none top s.front s.at ((b, gb) ∷ ys)
          (subst (IsLinked p.nodes none) places shape.linked)) in
    (
      s.at.0,
      walked,
      subst
          (λ r. Agrees r (some (take (suc k) (handlers mid) ++ hs ++ drop (suc k) (handlers mid))))
          (sym i.gives)
          (Inserted-Represents p _ _ (s.front ++ s.at ∷ (news ++ s.behind)) _ i (sym (split news)) (
            s.with_news news
            ∙ ap (λ l. take (suc k) (handlers mid) ++ l ++ drop (suc k) (handlers mid)) held)),
    )

-- At the position of the tail nothing is behind the node: a handler to add panics.
pub add_at_tail :
    (hs : List (Option Handler)) (p : Pipeline) (mid : List Place)
    → IsShape p (whole p mid)
    → (walk_to p.nodes (suc (length mid)) p.head ≡ some p.tail)
      × Agrees (add_behind p.tail hs p) (elim hs [ [] ↦ some (handlers mid) | h ∷ more ↦ none ])
unfolding add_behind insert_behind next_of IsLinked
add_at_tail [] p mid shape = (
  walk_to-place p.nodes none (p.head, some head_handler) mid (p.tail, some tail_header) []
      shape.linked,
  record { mid = mid; shape = shape; held = refl },
)
add_at_tail (h ∷ hs) p mid shape =
    let l =
      IsLinked-right p.nodes none ((p.head, some head_handler) ∷ mid)
        ((p.tail, some tail_header) ∷ []) shape.linked in
    let nothing : next_of p.nodes p.tail ≡ none = rw (next_of, l.1.0) refl in
    let stuck : add_behind p.tail (h ∷ hs) p ≡ none =
      rw (add_behind, insert_behind, nothing) refl in
    (
      walk_to-place p.nodes none (p.head, some head_handler) mid (p.tail, some tail_header) []
          shape.linked,
      subst (λ r. Agrees r none) (sym stuck) tt,
    )

pub length-handlers : (mid : List Place) → length (handlers mid) ≡ length mid
length-handlers [] = refl
length-handlers (x ∷ mid) = ap suc (length-handlers mid)
