-- ===== src/Pipeline/Writing.antt =====
-- internal/handler/linked_pipeline.go and node_context.go: what the events of a linked pipeline
-- reach, all the way and for a write.
use simple_go_server.Common.{
  ℕ, ◌+◌, ◌<◌, ◌≡◌, refl, ap, ◌∙◌, subst, inl, inr, Bool, Option, none, some, List, [], ◌∷◌, ◌++◌,
  arith, if◌then◌else◌, nat_eq, string_eq, Bool-cases, length, length-append,
}
use simple_go_server.Common.Dict.{Dict}
use simple_go_server.Pipeline.{
  Handler, Node, Pipeline, next_of, prev_of, handler_of, head_handler, tail_header,
}
use simple_go_server.Pipeline.Linked.{Place, first_of, IsLinked}
use simple_go_server.Pipeline.Adding.{whole, Represents}
use simple_go_server.Pipeline.Walks.{
  implements, inward, outward, handle_write, fire_exception, visits, write, wrote, excepted,
}
use simple_go_server.Pipeline.Passing.{
  IsChain, turned, forward-IsChain, backward-IsChain, first_capable, capable, reach_lem,
  chain-Serves, visits_lem,
}

pub length-turned : (xs done : List Place) → length (turned xs done) ≡ length xs + length done
unfolding turned
length-turned [] done = omega arith
length-turned (x ∷ xs) done = omega (arith, length-turned xs (x ∷ done))

pub turned-append : (xs ys done : List Place) → turned (xs ++ ys) done ≡ turned ys (turned xs done)
unfolding turned
turned-append [] ys done = refl
turned-append (x ∷ xs) ys done = turned-append xs ys (x ∷ done)

abbrev end_of : Pipeline → Place
end_of p = (p.tail, some tail_header)

module _ (p : Pipeline) (held : List (Option Handler)) (r : Represents p held) where
  pub sized : p.size ≡ length r.mid + 2
  sized = omega (arith, r.shape.counted, length-append r.mid (end_of p ∷ []))

  abbrev top : Place
  top = (p.head, some head_handler)

  pub ahead : IsChain (next_of p.nodes) (handler_of p.nodes) (whole p r.mid)
  ahead = forward-IsChain p.nodes none (whole p r.mid) r.shape.linked

  pub back : IsChain (prev_of p.nodes) (handler_of p.nodes) (end_of p ∷ turned (top ∷ r.mid) [])
  unfolding turned
  back =
      subst (IsChain (prev_of p.nodes) (handler_of p.nodes))
        (turned-append (top ∷ r.mid) (end_of p ∷ []) [])
        (backward-IsChain p.nodes (whole p r.mid) [] r.shape.linked tt)

  -- An event that every handler passes on visits, from the head, exactly the nodes whose handlers
  -- implement its interface, in their order, down to the tail; and a write that is passed on visits,
  -- from the tail, those that implement the interface of a write in the opposite order, up to the head.
  pub passed_on_visits_all :
      (can : Handler → Bool)
      → (visits (λ n. inward p n can) p.size p.head
          ≡ capable (implements can) (r.mid ++ (p.tail, some tail_header) ∷ []))
        × (visits (λ n. outward p n can) p.size p.tail
            ≡ capable (implements can) (turned ((p.head, some head_handler) ∷ r.mid) []))
  passed_on_visits_all can =
      let behind = length-append r.mid (end_of p ∷ []) in
      let before = length-turned (top ∷ r.mid) [] in
      (
        visits_lem (implements can) (λ n. inward p n can) p.size p.head (some head_handler)
            (r.mid ++ end_of p ∷ [])
            (chain-Serves (implements can) (next_of p.nodes) (handler_of p.nodes) (p.size + 1)
              (whole p r.mid) ahead (omega (arith, sized, behind)))
            (omega (arith, sized, behind)),
        visits_lem (implements can) (λ n. outward p n can) p.size p.tail (some tail_header)
            (turned (top ∷ r.mid) [])
            (chain-Serves (implements can) (prev_of p.nodes) (handler_of p.nodes) (p.size + 1)
              (end_of p ∷ turned (top ∷ r.mid) []) back (omega (arith, sized, before)))
            (omega (arith, sized, before)),
      )

-- The links back from a node and from all before it.
links_back :
    (nodes : Dict ℕ Node) (us done : List Place) (n : ℕ) (g : Option Handler) (vs : List Place)
    → IsLinked nodes (first_of done) (us ++ (n, g) ∷ vs)
    → IsChain (prev_of nodes) (handler_of nodes) done
    → (prev_of nodes n ≡ first_of (turned us done))
      × IsChain (prev_of nodes) (handler_of nodes) (turned us done)
unfolding IsLinked prev_of handler_of turned
links_back nodes [] done n g vs l c = (rw (prev_of, l.0) refl, c)
links_back nodes ((i, h) ∷ us) done n g vs l c =
    links_back nodes us ((i, h) ∷ done) n g vs l.1
      (rw (prev_of, l.0) refl, rw (handler_of, l.0) refl, c)

-- With a capable node at the far end somebody is reached.
first_capable-turned :
    (can : Option Handler → Bool) (us done : List Place) (j : ℕ)
    → first_capable can done ≡ some j
    → (k : ℕ) × (first_capable can (turned us done) ≡ some k)
unfolding turned first_capable
first_capable-turned can [] done j e = (j, e)
first_capable-turned can ((i, g) ∷ us) done j e = elim (Bool-cases (can g)) [
  | inl hit ↦ first_capable-turned can us ((i, g) ∷ done) i (rw (first_capable, hit) refl)
  | inr miss ↦ first_capable-turned can us ((i, g) ∷ done) j (rw (first_capable, miss) e)
]

first_capable-append :
    (can : Option Handler → Bool) (us vs : List Place) (j : ℕ)
    → first_capable can vs ≡ some j
    → (k : ℕ) × (first_capable can (us ++ vs) ≡ some k)
unfolding first_capable
first_capable-append can [] vs j e = (j, e)
first_capable-append can ((i, g) ∷ us) vs j e = elim (Bool-cases (can g)) [
  | inl hit ↦ (i, rw (first_capable, hit) refl)
  | inr miss ↦ let (k, f) = first_capable-append can us vs j e in (k, rw (first_capable, miss) f)
]

-- What a write from a node behind `us` comes to.
pub record IsAnswered (panics : ℕ → Bool) (p : Pipeline) (mid us : List Place) (n : ℕ)
    : Type 0 where
  pub writer : ℕ
  pub guard : ℕ
  pub nearest : first_capable (implements (λ h. h.outbound)) (turned us []) ≡ some writer
  pub foremost :
      first_capable (implements (λ h. h.exception)) (mid ++ (p.tail, some tail_header) ∷ [])
      ≡ some guard
  pub calls :
      write panics p n ≡ some (wrote writer ∷ (if panics writer then excepted guard ∷ [] else []))

write_calls :
    (panics : ℕ → Bool) (p : Pipeline) (n writer guard : ℕ)
    → handle_write p n ≡ some (some writer)
    → fire_exception p ≡ some (some guard)
    → write panics p n ≡ some (wrote writer ∷ (if panics writer then excepted guard ∷ [] else []))
unfolding write
write_calls panics p n writer guard e f = elim (Bool-cases (panics writer)) [
  | inl hit ↦ rw (write, e, hit, f) refl
  | inr miss ↦ rw (write, e, miss) refl
]

-- A write from any node of a pipeline but its head, whatever the handlers are, ends and calls exactly
-- one outbound handler: the nearest before that node. If that one panics, exactly one exception
-- handler is called, the first of the pipeline behind the head; there always is one.
pub write-IsAnswered :
    (panics : ℕ → Bool) (p : Pipeline) (held : List (Option Handler)) (r : Represents p held)
    (us vs : List Place) (n : ℕ) (g : Option Handler)
    → whole p r.mid ≡ (p.head, some head_handler) ∷ us ++ (n, g) ∷ vs
    → IsAnswered panics p r.mid ((p.head, some head_handler) ∷ us) n
unfolding first_capable turned
write-IsAnswered panics p held r us vs n g e =
    let top : Place = (p.head, some head_handler) in
    let end = end_of p in
    let outbound = implements (λ h. h.outbound) in
    let exception = implements (λ h. h.exception) in
    let (prev, chain) =
      links_back p.nodes (top ∷ us) [] n g vs (subst (IsLinked p.nodes none) e r.shape.linked) tt in
    let (writer, nearest) = first_capable-turned outbound us (top ∷ []) p.head refl in
    let (guard, foremost) = first_capable-append exception r.mid (end ∷ []) p.tail refl in
    let all = ap length e in
    let short : length (turned (top ∷ us) []) < p.size + 1 = omega (
      arith,
      length-turned (top ∷ us) [],
      sized p held r,
      all,
      r.shape.counted,
      length-append us ((n, g) ∷ vs),
    ) in
    record {
      writer = writer;
      guard = guard;
      nearest = nearest;
      foremost = foremost;
      calls =
          write_calls panics p n writer guard
            (rw prev (
              reach_lem outbound (prev_of p.nodes) (handler_of p.nodes) (p.size + 1)
                (turned (top ∷ us) []) chain short
              ∙ ap some nearest))
            (rw (ahead p held r).0 (
              reach_lem exception (next_of p.nodes) (handler_of p.nodes) (p.size + 1)
                (r.mid ++ end ∷ []) (ahead p held r).2
                (omega (arith, sized p held r, length-append r.mid (end ∷ [])))
              ∙ ap some foremost));
    }
