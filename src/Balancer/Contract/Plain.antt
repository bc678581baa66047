-- ===== src/Balancer/Contract/Plain.antt =====
-- pkg/balancer.go: the contract filled by the balancers that keep a plain list.
use simple_go_server.Common.{
  ◌≡◌, refl, ◌⊎◌, inl, inr, Bool, true, false, none, some, List, [], ◌∷◌, arith, Eq, ◌==◌, nat_eq,
  string_eq, Bool-cases,
}
use simple_go_server.Common.Int.{ℤ}
use simple_go_server.Balancer.{Backend, registered}
use simple_go_server.Balancer.Contract.{Membership, Op, Keeps, run-Keeps}
use simple_go_server.Balancer.Contract.Lists.{by_list, enroll}
use simple_go_server.Balancer.RoundRobin
use simple_go_server.Balancer.Random
use simple_go_server.Balancer.Adaptive
use simple_go_server.Balancer.LeastConnections

module _ {T : Type 0} ⦃b : Backend T⦄ where
  pub round_robin-enroll :
      (s : RoundRobin.RoundRobin T) (t : T)
      → (RoundRobin.register s t).backends ≡ enroll t s.backends
  unfolding RoundRobin.register
  round_robin-enroll s t = ground arith

  abbrev pub round_robin : Membership T
  unfolding RoundRobin.new RoundRobin.unregister
  round_robin =
      by_list (RoundRobin.RoundRobin T) RoundRobin.new RoundRobin.register RoundRobin.unregister
        (λ s. s.backends) RoundRobin.size (λ s. refl) refl round_robin-enroll (λ s t. refl)

  pub random-enroll :
      (s : Random.Random T) (t : T) → (Random.register s t).backends ≡ enroll t s.backends
  unfolding Random.register
  random-enroll s t = ground arith

  pub adaptive-enroll :
      (s : Adaptive.Adaptive T) (t : T) → (Adaptive.register s t).backends ≡ enroll t s.backends
  unfolding Adaptive.register
  adaptive-enroll s t = ground arith

  pub find-registered :
      (t : T) (xs : List T)
      → ((LeastConnections.find t xs ≡ none) × (registered t xs ≡ false))
        ⊎ ((x : T) × (LeastConnections.find t xs ≡ some x) × (registered t xs ≡ true))
  unfolding LeastConnections.find registered
  find-registered t [] = inl (refl, refl)
  find-registered t (x ∷ xs) = elim (Bool-cases (b.id x == b.id t)) [
    | inl hit ↦ rw hit (inr (x, refl, refl))
    | inr miss ↦ rw miss (find-registered t xs)
  ]

  abbrev pub random : Membership T
  unfolding Random.new Random.unregister
  random =
      by_list (Random.Random T) Random.new Random.register Random.unregister (λ s. s.backends)
        Random.size (λ s. refl) refl random-enroll (λ s t. refl)

  abbrev pub adaptive : Membership T
  unfolding Adaptive.new Adaptive.unregister
  adaptive =
      by_list (Adaptive.Adaptive T) Adaptive.new Adaptive.register Adaptive.unregister
        (λ s. s.backends) Adaptive.size (λ s. refl) refl adaptive-enroll (λ s t. refl)

  module _ ⦃e : Eq T⦄ where
    pub least_connections-enroll :
        (s : LeastConnections.LeastConnections T) (t : T)
        → (LeastConnections.register s t).backends ≡ enroll t s.backends
    unfolding LeastConnections.register
    least_connections-enroll s t = ground (arith, find-registered t s.backends)

    abbrev pub least_connections : Bool → (T → ℤ) → Membership T
    unfolding LeastConnections.new LeastConnections.unregister
    least_connections up counts =
        by_list (LeastConnections.LeastConnections T) (LeastConnections.new up counts)
          LeastConnections.register LeastConnections.unregister (λ s. s.backends)
          LeastConnections.size (λ s. refl) refl least_connections-enroll (λ s t. refl)

    -- After any calls of `Register` and `Unregister` on a new balancer that keeps a plain list
    -- (round robin, random, adaptive, least connections): no id is registered twice, an id is
    -- registered exactly if the last call that names it was `Register`, and `Size` is the number
    -- of registered ids.
    pub list_balancers_keep_members :
        (update_count : Bool) (counts : T → ℤ) (ops : List (Op T))
        → Keeps round_robin ops
          × Keeps random ops
          × Keeps adaptive ops
          × Keeps (least_connections update_count counts) ops
    list_balancers_keep_members update_count counts ops = (
      run-Keeps round_robin ops,
      run-Keeps random ops,
      run-Keeps adaptive ops,
      run-Keeps (least_connections update_count counts) ops,
    )
