-- ===== src/Balancer/Tests.antt =====
-- The balancers on small inputs: backends that are their own ids.
use simple_go_server.Common.{
  ℕ, ◌-◌, ◌<◌, String, ◌≡◌, refl, ◌≢◌, ◌⊎◌, Bool, true, some, List, [], ◌∷◌, ◌++◌, map, arith, ltb,
  if◌then◌else◌, ◌==◌, nat_eq, string_eq, length, get_elem?, take, drop,
}
use simple_go_server.Common.Int.{ℤ, pos, add_int}
use simple_go_server.Balancer.{Backend, ok, err, no_backends, at, iterate}
use simple_go_server.Balancer.RoundRobin
use simple_go_server.Balancer.Random
use simple_go_server.Balancer.LeastConnections
use simple_go_server.Balancer.Adaptive
use simple_go_server.Balancer.Contract.{Op, join, leave, Keeps}
use simple_go_server.Balancer.Contract.Plain.{
  round_robin, random, adaptive, least_connections, list_balancers_keep_members,
}
use simple_go_server.Balancer.RoundRobin.Fairness.{round_serves_each}
use simple_go_server.Balancer.WeightedRoundRobin
use simple_go_server.Balancer.WeightedRandom
use simple_go_server.Balancer.IpHashing
use simple_go_server.Balancer.IpHashing.Ring.{register_all, registered_ring_serves}
use simple_go_server.Common.Dict.{lookup}
use simple_go_server.Balancer.WeightedRandom.{build_pre_sum}
use simple_go_server.Balancer.WeightedRandom.Shares.{next_by_weight}
use simple_go_server.Balancer.WeightedRoundRobin.Spread.{IsHonest, expand, round_serves_by_weight}
use simple_go_server.Balancer.LeastConnections.Least.{IsLeast, next-IsLeast}
use simple_go_server.Balancer.LeastConnections.Level.{IsLevel, next-IsLevel}
use simple_go_server.Balancer.Adaptive.Lowest.{IsOrder, Lowest, next-Lowest}

instance abbrev by_name : Backend String
by_name = record { id = λ s. s }

abbrev three : List String
three = "x" ∷ "y" ∷ "z" ∷ []

abbrev turning : RoundRobin.RoundRobin String
turning = record { backends = three; current = 1 }

round_serves_each_example :
    (RoundRobin.picks turning ("a" ∷ "b" ∷ "c" ∷ [])).0 ≡ map ok (drop 1 three ++ take 1 three)
round_serves_each_example = round_serves_each turning ("a" ∷ "b" ∷ "c" ∷ []) (omega arith) refl

-- The counts of the test: the backend `y` has two connections, the others have one more.
abbrev counts : String → ℤ
counts s = if s == "y" then pos 2 else pos 3

abbrev counting : LeastConnections.LeastConnections String
counting = record { backends = three; update_count = true; counts = counts }

next-IsLeast_example :
    (t : String) × ((LeastConnections.next counting "k").0 ≡ ok t)
    × IsLeast counting t
    × ((LeastConnections.next counting "k").1.backends ≡ three)
    × ((LeastConnections.next counting "k").1.counts t ≡ add_int (counts t) (pos 1))
    × ((x : String) → x ≢ t → (LeastConnections.next counting "k").1.counts x ≡ counts x)
next-IsLeast_example = next-IsLeast counting "k" (omega arith)

level_at : (s : String) → (counts s ≡ pos 2) ⊎ (counts s ≡ pos 3)
level_at s = ground arith

counting-IsLevel : IsLevel counting
counting-IsLevel i j x y gx gy = ground (arith, level_at x, level_at y)

next-IsLevel_example : IsLevel (LeastConnections.next counting "k").1
next-IsLevel_example = next-IsLevel counting "k" (omega arith) (ground arith) counting-IsLevel

ltb-IsOrder : IsOrder ltb (λ a b. a == b)
ltb-IsOrder = record {
  irreflexive = λ a. ground arith;
  transitive = λ a b c h k. ground arith;
  eq_right = λ a b c h. ground arith;
}

next-Lowest_example :
    (t : String) × (Adaptive.next ltb
        (λ a b. a == b)
        (λ i. 5 - i)
        (λ i. 0)
        (record { backends = three })
        "k"
      ≡ ok t)
    × Lowest ltb (λ a b. a == b) ltb-IsOrder (λ i. 5 - i) (λ i. 0) three t 3
next-Lowest_example =
    next-Lowest ltb (λ a b. a == b) ltb-IsOrder (λ i. 5 - i) (λ i. 0) (record { backends = three })
      "k" (omega arith)

abbrev calls : List (Op String)
calls = join "x" ∷ join "y" ∷ join "x" ∷ leave "y" ∷ []

list_balancers_keep_members_example :
    Keeps round_robin calls
    × Keeps random calls
    × Keeps adaptive calls
    × Keeps (least_connections true counts) calls
list_balancers_keep_members_example = list_balancers_keep_members true counts calls

-- What a client sees that stops at the second backend.
abbrev note : String → List String → Bool × List String
note s seen = (length seen == 0, s ∷ seen)

visits :
    (RoundRobin.visit turning note [] ≡ "y" ∷ "x" ∷ [])
    × (Random.visit (record { backends = three }) note [] ≡ "y" ∷ "x" ∷ [])
    × (Adaptive.visit (record { backends = three }) note [] ≡ "y" ∷ "x" ∷ [])
    × (LeastConnections.visit counting note [] ≡ "y" ∷ "x" ∷ [])
unfolding iterate
visits = (refl, refl, refl, refl)

-- Two backends of weights two and one.
abbrev weights : String → ℕ
weights s = if s == "x" then 2 else 1

abbrev weighted : WeightedRoundRobin.WeightedRoundRobin String
weighted = record {
  backends = "x" ∷ "y" ∷ [];
  current_weight = pos 2;
  total_weight = pos 3;
  weights = λ s. pos (weights s);
}

weighted-IsHonest : IsHonest weights weighted
unfolding expand
weighted-IsHonest = record {
  weights = λ x. refl;
  total = refl;
  positive = omega arith;
  fits = omega arith;
  position = 2;
  current = refl;
  inside = omega arith;
}

round_serves_by_weight_example :
    (WeightedRoundRobin.picks weighted ("a" ∷ "b" ∷ "c" ∷ [])).0 ≡ ok "x" ∷ ok "x" ∷ ok "y" ∷ []
unfolding expand weighted-IsHonest
round_serves_by_weight_example =
    round_serves_by_weight weights weighted ("a" ∷ "b" ∷ "c" ∷ []) weighted-IsHonest (omega arith)
      refl

abbrev drawing : WeightedRandom.WeightedRandom String
drawing = record {
  backends = "x" ∷ "y" ∷ [];
  pre_sum = pos 0 ∷ pos 2 ∷ pos 3 ∷ [];
  weights = λ s. pos (weights s);
}

weights-positive : (s : String) → 0 < weights s
weights-positive s = ground arith

drawing_built : drawing.pre_sum ≡ build_pre_sum drawing.weights (pos 0) drawing.backends
unfolding build_pre_sum add_int
drawing_built = refl

next_by_weight_example : WeightedRandom.next drawing "k" 1 ≡ at ("x" ∷ "x" ∷ "y" ∷ []) 1
unfolding expand
next_by_weight_example =
    next_by_weight weights drawing "k" 1 (λ x. refl) weights-positive drawing_built (omega arith)
      (omega arith)

-- A hash under which all replicas collide.
abbrev one_place : String → ℕ
one_place key = if key == "k" then 5 else 7

abbrev two : List String
two = "x" ∷ "y" ∷ []

abbrev ring : IpHashing.IpHashing String
ring = register_all one_place (λ id i. id) (IpHashing.new 3) two

registered_ring_serves_example :
    ((two ≡ []) × (IpHashing.next one_place (λ id i. id) ring "k" ≡ err no_backends))
    ⊎ ((t : String) × (i : ℕ) × (get_elem? two i ≡ some t)
        × (IpHashing.next one_place (λ id i. id) ring "k" ≡ ok (some t))
        × (lookup t ring.members ≡ some t))
registered_ring_serves_example = registered_ring_serves one_place (λ id i. id) 3 two "k"
