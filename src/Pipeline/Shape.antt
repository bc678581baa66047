-- ===== src/Pipeline/Shape.antt =====
-- internal/handler/linked_pipeline.go: a linked pipeline and what one inserted node makes of it.
use simple_go_server.Common.{
  ℕ, ◌+◌, ◌≡◌, refl, ap, ◌∙◌, false, Option, none, some, List, [], ◌∷◌, ◌++◌, arith, if◌then◌else◌,
  ◌==◌, nat_eq, string_eq, beq_refl, length,
}
use simple_go_server.Common.Dict.{Dict, lookup, lookup-insert}
use simple_go_server.Pipeline.{
  Handler, Node, Pipeline, set_next, set_prev, next_of, prev_of, new_node_context, insert_behind,
  add_last_one,
}
use simple_go_server.Pipeline.Linked.{
  Place, first_of, IsLinked, IsAway, IsDistinct, IsBelow, IsSpliced, IsLinked-splice,
  lookup-set_next, lookup-set_prev, IsAway-right, same_false,
}

-- The nodes of a pipeline, in the order of the list.
pub record IsShape (p : Pipeline) (places : List Place) : Type 0 where
  pub linked : IsLinked p.nodes none places
  pub distinct : IsDistinct places
  pub below : IsBelow p.allocated places
  pub counted : p.size ≡ length places

-- Putting a node `new` behind the place `p`.
module _ (new : ℕ) (h : Option Handler) where
  IsAway-put :
      (k : ℕ)
      → k == new ≡ false
      → (xs : List Place) (p : Place) (zs : List Place) → IsAway k (xs ++ p ∷ zs)
      → IsAway k (xs ++ p ∷ (new, h) ∷ zs)
  IsAway-put k e [] p zs d = (d.0, (e, d.1))
  IsAway-put k e (x ∷ xs) p zs d = (d.0, IsAway-put k e xs p zs d.1)

  IsDistinct-put :
      (xs : List Place) (p : Place) (zs : List Place)
      → IsAway new (xs ++ p ∷ zs)
      → IsDistinct (xs ++ p ∷ zs)
      → IsDistinct (xs ++ p ∷ (new, h) ∷ zs)
  IsDistinct-put [] (i, g) zs w d = ((ground (arith, w.0), d.0), (w.1, d.1))
  IsDistinct-put ((i, g) ∷ xs) p zs w d =
      (IsAway-put i (ground (arith, w.0)) xs p zs d.0, IsDistinct-put xs p zs w.1 d.1)

IsBelow-more : (k : ℕ) (zs : List Place) → IsBelow k zs → IsBelow (k + 1) zs
IsBelow-more k [] b = tt
IsBelow-more k (z ∷ zs) b = (omega (arith, b.0), IsBelow-more k zs b.1)

IsBelow-put :
    (k : ℕ) (h : Option Handler) (xs : List Place) (p : Place) (zs : List Place)
    → IsBelow k (xs ++ p ∷ zs)
    → IsBelow (k + 1) (xs ++ p ∷ (k, h) ∷ zs)
IsBelow-put k h [] p zs b = (omega (arith, b.0), (omega arith, IsBelow-more k zs b.1))
IsBelow-put k h (x ∷ xs) p zs b = (omega (arith, b.0), IsBelow-put k h xs p zs b.1)

IsBelow-IsAway : (k : ℕ) (xs : List Place) → IsBelow k xs → IsAway k xs
IsBelow-IsAway k [] b = tt
IsBelow-IsAway k (x ∷ xs) b = (ground (arith, b.0), IsBelow-IsAway k xs b.1)

length-put :
    (n p : Place) (xs zs : List Place) → length (xs ++ p ∷ n ∷ zs) ≡ length (xs ++ p ∷ zs) + 1
length-put n p [] zs = omega arith
length-put n p (x ∷ xs) zs = omega (arith, length-put n p xs zs)

pub IsLinked-right :
    (nodes : Dict ℕ Node) (before : Option ℕ) (xs ys : List Place)
    → IsLinked nodes before (xs ++ ys)
    → (b : Option ℕ) × IsLinked nodes b ys
unfolding IsLinked
IsLinked-right nodes before [] ys l = (before, l)
IsLinked-right nodes before ((i, g) ∷ xs) ys l = IsLinked-right nodes (some i) xs ys l.1

pub IsDistinct-right : (xs ys : List Place) → IsDistinct (xs ++ ys) → IsDistinct ys
IsDistinct-right [] ys d = d
IsDistinct-right (x ∷ xs) ys d = IsDistinct-right xs ys d.1

-- What the three writes of an insertion leave, in either order of the two links.
module _ (old : Dict ℕ Node) (a b new : ℕ) (h : Option Handler) (na nb : Node) where
  abbrev with_new : Dict ℕ Node
  with_new = new_node_context h (some a) (some b) new old

  module _ (ea : lookup a old ≡ some na) (eb : lookup b old ≡ some nb) (ab : a == b ≡ false)
      (wa : new == a ≡ false) (wb : new == b ≡ false) where
    lookup-fresh : (j : ℕ) → new == j ≡ false → lookup j with_new ≡ lookup j old
    lookup-fresh j w =
        lookup-insert new j record { handler = h; prev = some a; next = some b } old ∙ rw w refl

    lookup-linked_forward :
        (j : ℕ)
        → lookup j (set_prev b (some new) (set_next a (some new) with_new)) ≡ (
            if b == j
            then some record { handler = nb.handler; prev = some new; next = nb.next }
            else if a == j
            then some record { handler = na.handler; prev = na.prev; next = some new }
            else lookup j with_new)
    lookup-linked_forward j =
        let next = λ (k : ℕ). lookup-set_next a k (some new) with_new na (lookup-fresh a wa ∙ ea) in
        lookup-set_prev b j (some new) (set_next a (some new) with_new) nb
          (next b ∙ rw ab (lookup-fresh b wb ∙ eb))
        ∙ rw (next j) refl

    lookup-linked_backward :
        (j : ℕ)
        → lookup j (set_next a (some new) (set_prev b (some new) with_new)) ≡ (
            if a == j
            then some record { handler = na.handler; prev = na.prev; next = some new }
            else if b == j
            then some record { handler = nb.handler; prev = some new; next = nb.next }
            else lookup j with_new)
    lookup-linked_backward j =
        let prev = λ (k : ℕ). lookup-set_prev b k (some new) with_new nb (lookup-fresh b wb ∙ eb) in
        lookup-set_next a j (some new) (set_prev b (some new) with_new) na
          (prev a ∙ rw (same_false a b ab) (lookup-fresh a wa ∙ ea))
        ∙ rw (prev j) refl

    pub forward-IsSpliced :
        IsSpliced old (set_prev b (some new) (set_next a (some new) with_new)) a b new h
    forward-IsSpliced = record {
      left = λ n e. lookup-linked_forward a ∙ ground (arith, ab, e, ea);
      right = λ n e. lookup-linked_forward b ∙ ground (arith, ab, e, eb);
      middle =
          lookup-linked_forward new
          ∙ rw (same_false new b wb, same_false new a wa)
              (lookup-insert new new record { handler = h; prev = some a; next = some b } old
                ∙ rw (beq_refl new) refl);
      others = λ j da db dn. lookup-linked_forward j ∙ rw (db, da) (lookup-fresh j dn);
    }

    pub backward-IsSpliced :
        IsSpliced old (set_next a (some new) (set_prev b (some new) with_new)) a b new h
    backward-IsSpliced = record {
      left = λ n e. lookup-linked_backward a ∙ ground (arith, ab, e, ea);
      right = λ n e. lookup-linked_backward b ∙ ground (arith, ab, e, eb);
      middle =
          lookup-linked_backward new
          ∙ rw (same_false new b wb, same_false new a wa)
              (lookup-insert new new record { handler = h; prev = some a; next = some b } old
                ∙ rw (beq_refl new) refl);
      others = λ j da db dn. lookup-linked_backward j ∙ rw (da, db) (lookup-fresh j dn);
    }

-- A pipeline that inserted a node has the places with the node's among them.
pub record Inserted (p : Pipeline) (r : Option Pipeline) (places : List Place) : Type 0 where
  pub result : Pipeline
  pub gives : r ≡ some result
  pub shape : IsShape result places
  pub same_head : result.head ≡ p.head
  pub same_tail : result.tail ≡ p.tail

module _ (p : Pipeline) (xs : List Place) (a b : ℕ) (ga gb : Option Handler) (ys : List Place)
    (s : IsShape p (xs ++ (a, ga) ∷ (b, gb) ∷ ys)) where
  abbrev two_places : List Place
  two_places = (a, ga) ∷ (b, gb) ∷ ys

  local_links : (before : Option ℕ) × IsLinked p.nodes before two_places
  local_links = IsLinked-right p.nodes none xs two_places s.linked

  apart : a == b ≡ false
  apart = (IsDistinct-right xs two_places s.distinct).0.0

  is_new : IsAway p.allocated (xs ++ two_places)
  is_new = IsBelow-IsAway p.allocated (xs ++ two_places) s.below

  new_local : IsAway p.allocated two_places
  new_local = IsAway-right p.allocated xs two_places is_new

  link_a : lookup a p.nodes ≡ some record { handler = ga; prev = local_links.0; next = some b }
  unfolding IsLinked
  link_a = local_links.1.0

  link_b : lookup b p.nodes ≡ some record { handler = gb; prev = some a; next = first_of ys }
  unfolding IsLinked
  link_b = local_links.1.1.0

  -- A result whose nodes are spliced and whose other fields grow by one.
  spliced-Inserted :
      (h : Option Handler) (after : Dict ℕ Node)
      → IsSpliced p.nodes after a b p.allocated h
      → IsShape
          record {
            nodes = after;
            allocated = p.allocated + 1;
            head = p.head;
            tail = p.tail;
            size = p.size + 1;
          }
          (xs ++ (a, ga) ∷ (p.allocated, h) ∷ (b, gb) ∷ ys)
  spliced-Inserted h after spliced = record {
    linked =
        IsLinked-splice p.nodes after a b p.allocated h spliced none xs ga gb ys s.distinct is_new
          s.linked;
    distinct = IsDistinct-put p.allocated h xs (a, ga) ((b, gb) ∷ ys) is_new s.distinct;
    below = IsBelow-put p.allocated h xs (a, ga) ((b, gb) ∷ ys) s.below;
    counted = omega (arith, s.counted, length-put (p.allocated, h) (a, ga) xs ((b, gb) ∷ ys));
  }

  pub next_a : next_of p.nodes a ≡ some b
  unfolding next_of
  next_a = rw (next_of, link_a) refl

  prev_b : prev_of p.nodes b ≡ some a
  unfolding prev_of
  prev_b = rw (prev_of, link_b) refl

  pub insert_behind-Inserted :
      (h : Option Handler)
      → Inserted p (insert_behind a h p) (xs ++ (a, ga) ∷ (p.allocated, h) ∷ (b, gb) ∷ ys)
  unfolding insert_behind
  insert_behind-Inserted h = record {
    result = _;
    gives = rw (insert_behind, next_a) refl;
    shape = spliced-Inserted h _ (
        forward-IsSpliced p.nodes a b p.allocated h _ _ link_a link_b apart new_local.0
          new_local.1.0);
    same_head = refl;
    same_tail = refl;
  }

  pub add_last_one-Inserted :
      (h : Option Handler)
      → p.tail ≡ b
      → Inserted p (add_last_one h p) (xs ++ (a, ga) ∷ (p.allocated, h) ∷ (b, gb) ∷ ys)
  unfolding add_last_one
  add_last_one-Inserted h e = record {
    result = _;
    gives =
        rw (add_last_one, ap (prev_of p.nodes) e ∙ prev_b)
          (ap
            (λ t. some record {
              nodes = set_next a (some p.allocated) (
                  set_prev t (some p.allocated)
                    (new_node_context h (some a) (some t) p.allocated p.nodes));
              allocated = p.allocated + 1;
              head = p.head;
              tail = p.tail;
              size = p.size + 1;
            })
            e);
    shape = spliced-Inserted h _ (
        backward-IsSpliced p.nodes a b p.allocated h _ _ link_a link_b apart new_local.0
          new_local.1.0);
    same_head = refl;
    same_tail = refl;
  }
