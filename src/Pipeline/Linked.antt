-- ===== src/Pipeline/Linked.antt =====
-- internal/handler/linked_pipeline.go: what it is that nodes are linked to a list, and the step that
-- puts a node between two others.
use simple_go_server.Common.{
  ℕ, ◌<◌, ◌≡◌, refl, ◌∙◌, subst, false, Option, none, some, List, [], ◌∷◌, ◌++◌, arith,
  if◌then◌else◌, ◌==◌, nat_eq, string_eq,
}
use simple_go_server.Common.Dict.{Dict, lookup, lookup-insert}
use simple_go_server.Pipeline.{Handler, Node, set_next, set_prev}

-- A place of the list: a node and its handler.
abbrev pub Place : Type 0
Place = ℕ × Option Handler

abbrev pub first_of : List Place → Option ℕ
first_of [] = none
first_of ((i, h) ∷ rest) = some i

-- Each node of the list has its handler, the node before it as `prev` and the one behind as `next`.
unfoldable pub IsLinked : Dict ℕ Node → Option ℕ → List Place → Type 0
IsLinked nodes before [] = Unit {0}
IsLinked nodes before ((i, h) ∷ rest) =
    (lookup i nodes ≡ some record { handler = h; prev = before; next = first_of rest })
    × IsLinked nodes (some i) rest

-- No node of the list is `k`.
abbrev pub IsAway : ℕ → List Place → Type 0
IsAway k [] = Unit {0}
IsAway k ((i, h) ∷ rest) = (k == i ≡ false) × IsAway k rest

abbrev pub IsDistinct : List Place → Type 0
IsDistinct [] = Unit {0}
IsDistinct ((i, h) ∷ rest) = IsAway i rest × IsDistinct rest

-- All nodes of the list are below `k`.
abbrev pub IsBelow : ℕ → List Place → Type 0
IsBelow k [] = Unit {0}
IsBelow k ((i, h) ∷ rest) = (i < k) × IsBelow k rest

pub lookup-set_next :
    (i j : ℕ) (x : Option ℕ) (nodes : Dict ℕ Node) (n : Node)
    → lookup i nodes ≡ some n
    → lookup j (set_next i x nodes) ≡ (
        if i == j
        then some record { handler = n.handler; prev = n.prev; next = x }
        else lookup j nodes)
unfolding set_next
lookup-set_next i j x nodes n e =
    rw (set_next, e)
      (lookup-insert i j record { handler = n.handler; prev = n.prev; next = x } nodes)

pub lookup-set_prev :
    (i j : ℕ) (x : Option ℕ) (nodes : Dict ℕ Node) (n : Node)
    → lookup i nodes ≡ some n
    → lookup j (set_prev i x nodes) ≡ (
        if i == j
        then some record { handler = n.handler; prev = x; next = n.next }
        else lookup j nodes)
unfolding set_prev
lookup-set_prev i j x nodes n e =
    rw (set_prev, e)
      (lookup-insert i j record { handler = n.handler; prev = x; next = n.next } nodes)

-- The nodes after a node `new` was put between `a` and `b`, and no other was changed.
pub record IsSpliced (old after : Dict ℕ Node) (a b new : ℕ) (h : Option Handler) : Type 0 where
  pub left :
      (n : Node)
      → lookup a old ≡ some n
      → lookup a after ≡ some record { handler = n.handler; prev = n.prev; next = some new }
  pub right :
      (n : Node)
      → lookup b old ≡ some n
      → lookup b after ≡ some record { handler = n.handler; prev = some new; next = n.next }
  pub middle : lookup new after ≡ some record { handler = h; prev = some a; next = some b }
  pub others :
      (j : ℕ) → a == j ≡ false → b == j ≡ false → new == j ≡ false → lookup j after ≡ lookup j old

pub IsLinked-frame :
    (old after : Dict ℕ Node) (a b new : ℕ) (h : Option Handler)
    → IsSpliced old after a b new h
    → (before : Option ℕ) (xs : List Place) → IsAway a xs
    → IsAway b xs
    → IsAway new xs
    → IsLinked old before xs
    → IsLinked after before xs
unfolding IsLinked
IsLinked-frame old after a b new h s before [] da db dn l = tt
IsLinked-frame old after a b new h s before ((i, g) ∷ xs) da db dn l = (
  rw (s.others i da.0 db.0 dn.0) l.0,
  IsLinked-frame old after a b new h s (some i) xs da.1 db.1 dn.1 l.1,
)

first_of-splice :
    (xs : List Place) (p : Place) (ys zs : List Place)
    → first_of (xs ++ p ∷ ys) ≡ first_of (xs ++ p ∷ zs)
first_of-splice [] p ys zs = refl
first_of-splice (x ∷ xs) p ys zs = refl

pub IsAway-right : (k : ℕ) (xs ys : List Place) → IsAway k (xs ++ ys) → IsAway k ys
IsAway-right k [] ys d = d
IsAway-right k (x ∷ xs) ys d = IsAway-right k xs ys d.1

pub same_false : (i j : ℕ) → i == j ≡ false → j == i ≡ false
same_false i j e = ground arith

module _ (old after : Dict ℕ Node) (a b new : ℕ) (h : Option Handler)
    (s : IsSpliced old after a b new h) where
  pub IsLinked-splice :
      (before : Option ℕ) (xs : List Place) (ga gb : Option Handler) (ys : List Place)
      → IsDistinct (xs ++ (a, ga) ∷ (b, gb) ∷ ys)
      → IsAway new (xs ++ (a, ga) ∷ (b, gb) ∷ ys)
      → IsLinked old before (xs ++ (a, ga) ∷ (b, gb) ∷ ys)
      → IsLinked after before (xs ++ (a, ga) ∷ (new, h) ∷ (b, gb) ∷ ys)
  unfolding IsLinked
  IsLinked-splice before [] ga gb ys d w l = (
    s.left _ l.0,
    (
      s.middle,
      (s.right _ l.1.0, IsLinked-frame old after a b new h s (some b) ys d.0.1 d.1.0 w.1.1 l.1.1),
    ),
  )
  IsLinked-splice before ((i, g) ∷ xs) ga gb ys d w l = (
    subst (λ x. lookup i after ≡ some record { handler = g; prev = before; next = x })
        (first_of-splice xs (a, ga) ((b, gb) ∷ ys) ((new, h) ∷ (b, gb) ∷ ys))
        (let away = IsAway-right i xs ((a, ga) ∷ (b, gb) ∷ ys) d.0 in
          s.others i (same_false i a away.0) (same_false i b away.1.0) w.0 ∙ l.0),
    IsLinked-splice (some i) xs ga gb ys d.1 w.1 l.1,
  )
