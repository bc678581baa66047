-- ===== src/Balancer/RoundRobin/Fairness.antt =====
-- internal/balancer/round_robin.go: the results of consecutive calls of Next.
use simple_go_server.Common.{
  ◌+◌, ◌%◌, ◌<◌, ◌≡◌, refl, ap, String, List, [], ◌∷◌, ◌++◌, map, length, take, drop, nat_eq, arith,
  sym, ◌∙◌,
}
use simple_go_server.Balancer.{ok, at}
use simple_go_server.Balancer.Cycle.{cycle, cycle-mod, cycle_round}
use simple_go_server.Balancer.RoundRobin.{RoundRobin, next, picks}
use native.Mathlib.Nat.{mod-add-mod, mod-lt, mod-mod}

module _ {ℓ} {T : Type ℓ} where
  -- With backends there, `next` reads the current one and moves on by one.
  pub next_lem :
      (s : RoundRobin T) (key : String)
      → 0 < length s.backends
      → next s key ≡ (
        at s.backends (s.current % length s.backends),
        record s { current = (s.current % length s.backends + 1) % length s.backends },
      )
  unfolding next
  next_lem s key h = ground arith

  picks-cycle :
      (s : RoundRobin T) (keys : List String)
      → 0 < length s.backends
      → (picks s keys).0 ≡ cycle s.backends s.current (length keys)
  unfolding picks cycle
  picks-cycle s [] h = refl
  picks-cycle s (key ∷ keys) h =
      let n = length s.backends in
      let c = (s.current % n + 1) % n in
      rw (next_lem s key h) (
        ap (◌∷◌ (at s.backends (s.current % n))) (
          picks-cycle (record s { current = c }) keys h
          ∙ cycle-mod s.backends c (s.current + 1) (length keys)
              (mod-mod (s.current % n + 1) n ∙ mod-add-mod s.current n 1)))

  -- From any state with backends, as many calls as there are backends serve each registered
  -- backend exactly once, in the registered order from the current position round to it.
  pub round_serves_each :
      (s : RoundRobin T) (keys : List String)
      → 0 < length s.backends
      → length keys ≡ length s.backends
      → let i = s.current % length s.backends in
        (picks s keys).0 ≡ map ok (drop i s.backends ++ take i s.backends)
  round_serves_each s keys h k =
      let n = length s.backends in
      picks-cycle s keys h
      ∙ rw k (
          cycle-mod s.backends s.current (s.current % n) n (sym (mod-mod s.current n))
          ∙ cycle_round s.backends (s.current % n) (mod-lt s.current h))
