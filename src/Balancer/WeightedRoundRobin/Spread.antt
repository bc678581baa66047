-- ===== src/Balancer/WeightedRoundRobin/Spread.antt =====
-- internal/balancer/weighted_round_robin.go: the results of consecutive calls of Next.
use simple_go_server.Common.{
  ℕ, zero, suc, ◌+◌, ◌-◌, ◌%◌, ◌≤◌, ◌<◌, String, ◌≡◌, refl, sym, ap, ◌∙◌, inl, inr, false, List, [],
  ◌∷◌, ◌++◌, map, arith, ◌==◌, nat_eq, string_eq, Bool-cases, length, take, drop, length-append,
}
use simple_go_server.Common.Int.{ℤ, pos, ltb_ℤ, rem_int, int_max, add_int-pos, sub_int-pos}
use simple_go_server.Balancer.{Result, ok, at}
use simple_go_server.Balancer.Cycle.{cycle, cycle-mod, cycle_round}
use simple_go_server.Balancer.WeightedRoundRobin.{WeightedRoundRobin, walk, next, picks, same_int}
use native.Mathlib.Nat.{mod-mod, mod-add-mod, mod-lt}

module _ {T : Type 0} (weight : T → ℕ) where
  abbrev pub repeat : ℕ → T → List T
  repeat zero x = []
  repeat (suc n) x = x ∷ repeat n x

  -- Each backend as often as its weight says.
  unfoldable pub expand : List T → List T
  expand [] = []
  expand (x ∷ xs) = repeat (weight x) x ++ expand xs

  pub length-repeat : (n : ℕ) (x : T) → length (repeat n x) ≡ n
  length-repeat zero x = refl
  length-repeat (suc n) x = omega (arith, length-repeat n x)

  pub at-here : (n c : ℕ) (x : T) (ys : List T) → c < n → at (repeat n x ++ ys) c ≡ ok x
  unfolding at
  at-here zero c x ys h = absurd (omega arith)
  at-here (suc n) zero x ys h = refl
  at-here (suc n) (suc c) x ys h = at-here n c x ys (omega arith)

  pub at-there : (n c : ℕ) (x : T) (ys : List T) → n ≤ c → at (repeat n x ++ ys) c ≡ at ys (c - n)
  unfolding at
  at-there zero c x ys h = let e : c - 0 ≡ c = omega arith in rw e refl
  at-there (suc n) zero x ys h = absurd (omega arith)
  at-there (suc n) (suc c) x ys h =
      let e : suc c - suc n ≡ c - n = omega arith in rw e (at-there n c x ys (omega arith))

  walk_lem :
      (w : T → ℤ)
      → ((x : T) → w x ≡ pos (weight x))
      → (fallback : Result T) (c : ℕ) (xs : List T) → c < length (expand xs)
      → length (expand xs) < int_max
      → walk w fallback (pos c) xs ≡ at (expand xs) c
  unfolding walk expand
  walk_lem w e fallback c [] h k = absurd (omega arith)
  walk_lem w e fallback c (x ∷ xs) h k =
      let size = length-append (repeat (weight x) x) (expand xs) in
      let own = length-repeat (weight x) x in
      elim (Bool-cases (ltb_ℤ (pos c) (pos (weight x)))) [
        | inl mine ↦ rw (e x, mine) (sym (at-here (weight x) c x (expand xs) (ground arith)))
        | inr later ↦
            let le : weight x ≤ c = ground arith in
            rw
              (
                e x,
                later,
                sub_int-pos c (weight x) le (omega arith),
                at-there (weight x) c x (expand xs) le,
              )
              (walk_lem w e fallback (c - weight x) xs (omega arith) (omega arith))
      ]

  -- The total is what the weights add up to, positive and in an int, and the position is in it.
  pub record IsHonest (s : WeightedRoundRobin T) : Type 0 where
    pub weights : (x : T) → s.weights x ≡ pos (weight x)
    pub total : s.total_weight ≡ pos (length (expand s.backends))
    pub positive : 0 < length (expand s.backends)
    pub fits : length (expand s.backends) < int_max
    pub position : ℕ
    pub current : s.current_weight ≡ pos position
    pub inside : position < length (expand s.backends)

  next_lem :
      (s : WeightedRoundRobin T) (key : String)
      → (h : IsHonest s) → 2 ≤ length s.backends
      → let n = length (expand s.backends) in
        next s key ≡ (
          at (expand s.backends) ((h.position + 1) % n),
          record s { current_weight = pos ((h.position + 1) % n) },
        )
  unfolding next rem_int
  next_lem s key h two =
      let n = length (expand s.backends) in
      let many : (length s.backends == 0) ≡ false = ground arith in
      let more : (length s.backends == 1) ≡ false = ground arith in
      let some_total : same_int (pos n) (pos 0) ≡ false = ground (arith, h.positive) in
      let low = mod-lt (h.position + 1) h.positive in
      let plain : n + 0 ≡ n = omega arith in
      rw
        (
          h.total,
          h.current,
          many,
          more,
          some_total,
          add_int-pos h.position 1 (omega (arith, h.inside, h.fits)),
          plain,
        )
        (ap
          (λ r. (r, record s { current_weight = pos ((h.position + 1) % n); total_weight = pos n }))
          (walk_lem s.weights h.weights (at s.backends 0) ((h.position + 1) % n) s.backends low
            h.fits))

  moved-IsHonest :
      (s : WeightedRoundRobin T) (h : IsHonest s)
      → IsHonest (record s { current_weight = pos ((h.position + 1) % length (expand s.backends)) })
  moved-IsHonest s h = record {
    weights = h.weights;
    total = h.total;
    positive = h.positive;
    fits = h.fits;
    position = (h.position + 1) % length (expand s.backends);
    current = refl;
    inside = mod-lt (h.position + 1) h.positive;
  }

  picks-cycle :
      (s : WeightedRoundRobin T) (keys : List String)
      → (h : IsHonest s) → 2 ≤ length s.backends
      → (picks s keys).0 ≡ cycle (expand s.backends) (h.position + 1) (length keys)
  unfolding picks cycle moved-IsHonest
  picks-cycle s [] h two = refl
  picks-cycle s (key ∷ keys) h two =
      let n = length (expand s.backends) in
      let c = (h.position + 1) % n in
      rw (next_lem s key h two) (
        ap (◌∷◌ (at (expand s.backends) c)) (
          picks-cycle (record s { current_weight = pos c }) keys (moved-IsHonest s h) two
          ∙ cycle-mod (expand s.backends) (c + 1) (h.position + 1 + 1) (length keys)
              (mod-add-mod (h.position + 1) n 1)))

  -- With two backends or more, weights that are positive in sum and add up to the total in an int,
  -- and a position inside it: as many calls as the total serve each backend as often as its weight
  -- says, its turns in one run, from the place behind the current one round to it.
  pub round_serves_by_weight :
      (s : WeightedRoundRobin T) (keys : List String)
      → (h : IsHonest s) → 2 ≤ length s.backends
      → length keys ≡ length (expand s.backends)
      → let i = (h.position + 1) % length (expand s.backends) in
        (picks s keys).0 ≡ map ok (drop i (expand s.backends) ++ take i (expand s.backends))
  round_serves_by_weight s keys h two k =
      let n = length (expand s.backends) in
      picks-cycle s keys h two
      ∙ rw k (
          cycle-mod (expand s.backends) (h.position + 1) ((h.position + 1) % n) n
            (sym (mod-mod (h.position + 1) n))
          ∙ cycle_round (expand s.backends) ((h.position + 1) % n)
              (mod-lt (h.position + 1) h.positive))
