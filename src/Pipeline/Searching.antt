-- ===== src/Pipeline/Searching.antt =====
-- internal/handler/linked_pipeline.go: what IndexOf and LastIndexOf find.
use simple_go_server.Common.{
  ℕ, zero, suc, ◌+◌, ◌<◌, ◌≡◌, refl, sym, ap, ◌∙◌, subst, inl, inr, Bool, true, false, Option, none,
  some, List, [], ◌∷◌, ◌++◌, append-nil, append_assoc, arith, leb, nat_eq, string_eq, Bool-cases,
  length, All, length-append, All-append,
}
use simple_go_server.Common.Int.{ℤ, pos, negsuc}
use simple_go_server.Pipeline.{
  Handler, Pipeline, walk_to, context_at, next_of, prev_of, handler_of, head_handler, tail_header,
}
use simple_go_server.Pipeline.Linked.{Place, first_of, IsLinked}
use simple_go_server.Pipeline.Shape.{IsLinked-right}
use simple_go_server.Pipeline.Positions.{walk_to-place}
use simple_go_server.Pipeline.Adding.{whole, Represents}
use simple_go_server.Pipeline.Walks.{index_from, last_index_from, index_of, last_index_of, down}
use simple_go_server.Pipeline.Passing.{IsChain, turned}
use simple_go_server.Pipeline.Writing.{length-turned, turned-append, ahead, back, sized}

module _ (f : Option Handler → Bool) where
  abbrev pub Missed : List Place → Type 0
  Missed places = All (λ place. f place.1 ≡ false) places

  -- The first place that passes is at this index; -1 is none at all.
  pub record FirstAt (places : List Place) (k : ℕ) : Type 0 where
    pub front : List Place
    pub at : Place
    pub behind : List Place
    pub joined : places ≡ front ++ at ∷ behind
    pub counted : length front ≡ k
    pub hit : f at.1 ≡ true
    pub missed : Missed front

  abbrev pub IsFirst : List Place → ℤ → Type 0
  IsFirst places (pos k) = FirstAt places k
  IsFirst places (negsuc zero) = Missed places
  IsFirst places (negsuc (suc n)) = ⊥

  pub record LastAt (places : List Place) (k : ℕ) : Type 0 where
    pub front : List Place
    pub at : Place
    pub behind : List Place
    pub joined : places ≡ front ++ at ∷ behind
    pub counted : length front ≡ k
    pub hit : f at.1 ≡ true
    pub missed : Missed behind

  abbrev pub IsLast : List Place → ℤ → Type 0
  IsLast places (pos k) = LastAt places k
  IsLast places (negsuc zero) = Missed places
  IsLast places (negsuc (suc n)) = ⊥

  -- The loops on the places.
  unfoldable first_index : ℕ → List Place → ℤ
  first_index i [] = negsuc 0
  first_index i ((n, g) ∷ rest) = elim (f g) [ true ↦ pos i | false ↦ first_index (i + 1) rest ]

  unfoldable last_index : List Place → ℤ
  last_index [] = negsuc 0
  last_index ((n, g) ∷ rest) = elim (f g) [ true ↦ pos (length rest) | false ↦ last_index rest ]

  index_from_lem :
      (p : Pipeline) (fuel i cur : ℕ) (g : Option Handler) (rest : List Place)
      → IsChain (next_of p.nodes) (handler_of p.nodes) ((cur, g) ∷ rest)
      → length rest < fuel
      → index_from f p fuel i cur ≡ some (first_index i ((cur, g) ∷ rest))
  unfolding index_from first_index
  index_from_lem p zero i cur g rest c h = absurd (omega arith)
  index_from_lem p (suc fuel) i cur g [] (e, held, c) h = elim (Bool-cases (f g)) [
    | inl hit ↦ rw (index_from, first_index, held, hit) refl
    | inr miss ↦ rw (index_from, first_index, held, miss, e) refl
  ]
  index_from_lem p (suc fuel) i cur g ((j, k) ∷ more) (e, held, c) h = elim (Bool-cases (f g)) [
    | inl hit ↦ rw (index_from, first_index, held, hit) refl
    | inr miss ↦
        rw (index_from, first_index, held, miss, e)
          (index_from_lem p fuel (i + 1) j k more c (omega (arith, h)))
  ]

  last_index_from_lem :
      (p : Pipeline) (fuel cur : ℕ) (g : Option Handler) (rest : List Place)
      → IsChain (prev_of p.nodes) (handler_of p.nodes) ((cur, g) ∷ rest)
      → length rest < fuel
      → last_index_from f p fuel (pos (length rest)) cur ≡ some (last_index ((cur, g) ∷ rest))
  unfolding last_index_from last_index
  last_index_from_lem p zero cur g rest c h = absurd (omega arith)
  last_index_from_lem p (suc fuel) cur g [] (e, held, c) h = elim (Bool-cases (f g)) [
    | inl hit ↦ rw (last_index_from, last_index, held, hit) refl
    | inr miss ↦ rw (last_index_from, last_index, held, miss, e) refl
  ]
  last_index_from_lem p (suc fuel) cur g ((j, k) ∷ more) (e, held, c) h = elim (Bool-cases (f g)) [
    | inl hit ↦ rw (last_index_from, last_index, held, hit) refl
    | inr miss ↦
        rw (last_index_from, last_index, held, miss, e)
          (last_index_from_lem p fuel j k more c (omega (arith, h)))
  ]

  first_index-IsFirst :
      (places seen : List Place) (i : ℕ)
      → length seen ≡ i
      → Missed seen
      → IsFirst (seen ++ places) (first_index i places)
  unfolding first_index
  first_index-IsFirst [] seen i e m = subst Missed (sym (append-nil seen)) m
  first_index-IsFirst ((n, g) ∷ rest) seen i e m = elim (Bool-cases (f g)) [
    | inl hit ↦
        rw (first_index, hit)
          record {
            front = seen;
            at = (n, g);
            behind = rest;
            joined = refl;
            counted = e;
            hit = hit;
            missed = m;
          }
    | inr miss ↦
        rw (first_index, miss)
          (subst (λ l. IsFirst l (first_index (i + 1) rest)) (append_assoc seen ((n, g) ∷ []) rest)
            (first_index-IsFirst rest (seen ++ (n, g) ∷ []) (i + 1)
              (omega (arith, length-append seen ((n, g) ∷ []), e))
              (All-append (λ place. f place.1 ≡ false) seen ((n, g) ∷ []) m (miss, tt))))
  ]

  IsLast-append :
      (seen : List Place) (x : Place) (i : ℤ)
      → f x.1 ≡ false
      → IsLast seen i
      → IsLast (seen ++ x ∷ []) i
  IsLast-append seen x (pos k) miss l = record {
    front = l.front;
    at = l.at;
    behind = l.behind ++ x ∷ [];
    joined = ap (λ xs. xs ++ x ∷ []) l.joined ∙ append_assoc l.front (l.at ∷ l.behind) (x ∷ []);
    counted = l.counted;
    hit = l.hit;
    missed = All-append (λ place. f place.1 ≡ false) l.behind (x ∷ []) l.missed (miss, tt);
  }
  IsLast-append seen x (negsuc zero) miss l =
      All-append (λ place. f place.1 ≡ false) seen (x ∷ []) l (miss, tt)
  IsLast-append seen x (negsuc (suc n)) miss l = elim l [ ]

  last_index-IsLast :
      (places seen done : List Place)
      → length seen ≡ length done
      → IsLast seen (last_index done)
      → IsLast (seen ++ places) (last_index (turned places done))
  unfolding last_index turned
  last_index-IsLast [] seen done e l =
      subst (λ xs. IsLast xs (last_index done)) (sym (append-nil seen)) l
  last_index-IsLast ((n, g) ∷ rest) seen done e l =
      subst (λ xs. IsLast xs (last_index (turned rest ((n, g) ∷ done))))
        (append_assoc seen ((n, g) ∷ []) rest)
        (last_index-IsLast rest (seen ++ (n, g) ∷ []) ((n, g) ∷ done)
          (omega (arith, length-append seen ((n, g) ∷ []), e))
          (elim (Bool-cases (f g)) [
            | inl hit ↦
                rw (last_index, hit)
                  record {
                    front = seen;
                    at = (n, g);
                    behind = [];
                    joined = refl;
                    counted = e;
                    hit = hit;
                    missed = tt;
                  }
            | inr miss ↦ rw (last_index, miss) (IsLast-append seen (n, g) (last_index done) miss l)
          ]))

-- IndexOf and LastIndexOf end on every pipeline that additions lead to, and answer the index of the
-- first and of the last node of the list, head and tail included, whose handler passes the test; -1
-- exactly if none does. Both count from the head.
pub indices_of-IsFirst :
    (f : Option Handler → Bool) (p : Pipeline) (held : List (Option Handler))
    (r : Represents p held)
    → ((i : ℤ) × (index_of f p ≡ some i) × IsFirst f (whole p r.mid) i)
      × ((j : ℤ) × (last_index_of f p ≡ some j) × IsLast f (whole p r.mid) j)
unfolding index_of last_index_of turned last_index
indices_of-IsFirst f p held r =
    let end : Place = (p.tail, some tail_header) in
    let top : Place = (p.head, some head_handler) in
    let mid = length-append r.mid (end ∷ []) in
    let done = turned (top ∷ r.mid) [] in
    let size = sized p held r in
    let counts : p.size ≡ suc (length done) = omega (arith, size, length-turned (top ∷ r.mid) []) in
    (
      (
        first_index f 0 (whole p r.mid),
        index_from_lem f p p.size 0 p.head (some head_handler) (r.mid ++ end ∷ []) (ahead p held r)
            (omega (arith, size, mid)),
        first_index-IsFirst f (whole p r.mid) [] 0 refl tt,
      ),
      (
        last_index f (end ∷ done),
        ap (λ i. last_index_from f p p.size i p.tail) (ap (λ n. down (pos n)) counts)
            ∙ last_index_from_lem f p p.size p.tail (some tail_header) done (back p held r)
                (omega (arith, size, length-turned (top ∷ r.mid) [])),
        subst (λ l. IsLast f (whole p r.mid) (last_index f l))
            (turned-append (top ∷ r.mid) (end ∷ []) [])
            (last_index-IsLast f (whole p r.mid) [] [] refl tt),
      ),
    )

-- A place of a linked list, reached from its first node.
walk_to-split :
    (p : Pipeline) (x : Place) (rest front : List Place) (at : Place) (behind : List Place)
    → IsLinked p.nodes none (x ∷ rest)
    → x ∷ rest ≡ front ++ at ∷ behind
    → walk_to p.nodes (length front) x.0 ≡ some at.0
unfolding walk_to
walk_to-split p x rest [] at behind l e = ap first_of e
walk_to-split p x rest (y ∷ front) at behind l e =
    subst
      (λ o. elim o [
        | none ↦ Unit {0}
        | some i ↦ walk_to p.nodes (suc (length front)) i ≡ some at.0
      ])
      (sym (ap first_of e))
      (walk_to-place p.nodes none y front at behind (subst (IsLinked p.nodes none) e l))

-- For an index that IndexOf answers and that is not -1, ContextAt answers a node, and the handler of
-- that node passes the test of IndexOf.
pub context_at-index_of :
    (f : Option Handler → Bool) (p : Pipeline) (held : List (Option Handler))
    → Represents p held
    → (k : ℕ) → index_of f p ≡ some (pos k)
    → (n : ℕ) × (context_at (pos k) p ≡ some n) × (f (handler_of p.nodes n) ≡ true)
unfolding context_at IsLinked handler_of
context_at-index_of f p held r k e =
    let ((i, found, first), rest) = indices_of-IsFirst f p held r in
    let at : FirstAt f (whole p r.mid) k =
      subst (λ o. elim o [ none ↦ Unit {0} | some j ↦ IsFirst f (whole p r.mid) j ]) (sym found ∙ e)
        first in
    let (before, l) =
      IsLinked-right p.nodes none at.front (at.at ∷ at.behind)
        (subst (IsLinked p.nodes none) at.joined r.shape.linked) in
    let inside : leb p.size k ≡ false = ground (
      arith,
      ap length at.joined,
      length-append at.front (at.at ∷ at.behind),
      at.counted,
      r.shape.counted,
    ) in
    let walked : walk_to p.nodes k p.head ≡ some at.at.0 =
      subst (λ n. walk_to p.nodes n p.head ≡ some at.at.0) at.counted
        (walk_to-split p (p.head, some head_handler) (r.mid ++ (p.tail, some tail_header) ∷ [])
          at.front at.at at.behind r.shape.linked at.joined) in
    (at.at.0, rw (context_at, inside) walked, rw (handler_of, l.0) at.hit)
