-- ===== src/Balancer/WeightedRandom/Shares.antt =====
-- internal/balancer/weighted_random.go: the draws of Next and the weights.
use simple_go_server.Common.{
  ℕ, suc, ◌+◌, ◌-◌, ◌≤◌, ◌<◌, String, ◌≡◌, refl, sym, ap, ◌∙◌, subst, true, false, List, [], ◌∷◌,
  arith, ltb, ◌==◌, nat_eq, string_eq, length, length-append,
}
use simple_go_server.Common.Int.{ℤ, pos, ltb_ℤ, leb_ℤ, add_int, int_max, add_int-pos}
use simple_go_server.Balancer.{ok, at}
use native.Mathlib.Decide.{dec_lt}
use simple_go_server.Balancer.WeightedRandom.{
  WeightedRandom, strictly_increasing, search, build_pre_sum, pick, next,
}
use simple_go_server.Balancer.WeightedRoundRobin.Spread.{
  repeat, expand, length-repeat, at-here, at-there,
}

module _ {T : Type 0} (weight : T → ℕ) (w : T → ℤ) (e : (x : T) → w x ≡ pos (weight x))
    (positive : (x : T) → 0 < weight x) where
  length-expand_cons :
      (x : T) (xs : List T) → length (expand weight (x ∷ xs)) ≡ weight x + length (expand weight xs)
  unfolding expand
  length-expand_cons x xs = omega (
    arith,
    length-append (repeat weight (weight x) x) (expand weight xs),
    length-repeat weight (weight x) x,
  )

  total_lem :
      (a : ℕ) (xs : List T)
      → a + length (expand weight xs) < int_max
      → at (build_pre_sum w (pos a) xs) (length xs) ≡ ok (pos (a + length (expand weight xs)))
  unfolding build_pre_sum at expand
  total_lem a [] h = ap (λ n. ok (pos n)) (omega arith)
  total_lem a (x ∷ xs) h =
      let size = length-expand_cons x xs in
      rw (e x, add_int-pos a (weight x) (omega arith))
        (total_lem (a + weight x) xs (omega arith) ∙ ap (λ n. ok (pos n)) (omega arith))

  increasing_lem :
      (a : ℕ) (xs : List T)
      → a + length (expand weight xs) < int_max
      → strictly_increasing (build_pre_sum w (pos a) xs) ≡ true
  unfolding build_pre_sum strictly_increasing
  increasing_lem a [] h = refl
  increasing_lem a (x ∷ []) h =
      let size = length-expand_cons x [] in
      rw (e x, add_int-pos a (weight x) (omega arith)) (ground (arith, positive x))
  increasing_lem a (x ∷ y ∷ ys) h =
      let size = length-expand_cons x (y ∷ ys) in
      let up : leb_ℤ (pos (a + weight x)) (pos a) ≡ false = ground (arith, positive x) in
      let sum : add_int (pos a) (w x) ≡ pos (a + weight x) =
        rw (e x) (add_int-pos a (weight x) (omega arith)) in
      subst (λ z. strictly_increasing (pos a ∷ build_pre_sum w z (y ∷ ys)) ≡ true) (sym sum)
        (rw up (increasing_lem (a + weight x) (y ∷ ys) (omega arith)))

  -- A sum above the draw is found at once.
  search-above :
      (draw a : ℕ) (xs : List T)
      → draw < a
      → search (λ p. ltb_ℤ (pos draw) p) (build_pre_sum w (pos a) xs) ≡ 0
  unfolding search build_pre_sum
  search-above draw a [] h = ground arith
  search-above draw a (x ∷ xs) h = let hit : ltb draw a ≡ true = ground arith in ground arith

  search-below :
      (draw a : ℕ) (x : T) (xs : List T)
      → a ≤ draw
      → a + weight x < int_max
      → search (λ p. ltb_ℤ (pos draw) p) (build_pre_sum w (pos a) (x ∷ xs))
        ≡ suc (search (λ p. ltb_ℤ (pos draw) p) (build_pre_sum w (pos (a + weight x)) xs))
  unfolding search build_pre_sum
  search-below draw a x xs h k =
      let miss : ltb_ℤ (pos draw) (pos a) ≡ false = ground arith in
      rw (e x, add_int-pos a (weight x) k, miss) refl

  pick_lem :
      (draw a : ℕ) (xs : List T)
      → a ≤ draw
      → draw < a + length (expand weight xs)
      → a + length (expand weight xs) < int_max
      → at xs (search (λ p. ltb_ℤ (pos draw) p) (build_pre_sum w (pos a) xs) - 1)
        ≡ at (expand weight xs) (draw - a)
  unfolding expand
  pick_lem draw a [] low high fits = absurd (omega arith)
  pick_lem draw a (x ∷ xs) low high fits =
      let size = length-expand_cons x xs in
      let found = search (λ p. ltb_ℤ (pos draw) p) (build_pre_sum w (pos (a + weight x)) xs) in
      let one : suc found - 1 ≡ found = omega arith in
      rw (search-below draw a x xs low (omega arith), one)
        (elim (dec_lt draw (a + weight x)) [
          | yes mine ↦ rw (search-above draw (a + weight x) xs mine) (
              at-first x xs
              ∙ sym (at-here weight (weight x) (draw - a) x (expand weight xs) (omega arith)))
          | no later ↦
              let (k, q) =
                search-suc draw (a + weight x) xs (omega arith) (omega arith) (omega arith) in
              let back : k ≡ found - 1 = omega (arith, q) in
              rw
                (
                  q,
                  at-next x xs k,
                  back,
                  at-there weight (weight x) (draw - a) x (expand weight xs) (omega arith),
                )
                (pick_lem draw (a + weight x) xs (omega arith) (omega arith) (omega arith)
                  ∙ ap (at (expand weight xs)) (omega arith))
        ])
    where
      at-first : (x : T) (xs : List T) → at (x ∷ xs) 0 ≡ ok x
      at-first x xs = unfold at in refl

      at-next : (x : T) (xs : List T) (k : ℕ) → at (x ∷ xs) (suc k) ≡ at xs k
      at-next x xs k = unfold at in refl

      search-suc :
          (draw a : ℕ) (xs : List T)
          → a ≤ draw
          → draw < a + length (expand weight xs)
          → a + length (expand weight xs) < int_max
          → (k : ℕ) × (search (λ p. ltb_ℤ (pos draw) p) (build_pre_sum w (pos a) xs) ≡ suc k)
      search-suc draw a [] low high fits = absurd (omega arith)
      search-suc draw a (x ∷ xs) low high fits = (
        search (λ p. ltb_ℤ (pos draw) p) (build_pre_sum w (pos (a + weight x)) xs),
        search-below draw a x xs low (omega (arith, length-expand_cons x xs)),
      )

module _ {T : Type 0} (weight : T → ℕ) where
  no_draw : (xs : List T) → length xs ≡ 0 → length (expand weight xs) ≡ 0
  no_draw [] h = unfold expand in refl
  no_draw (x ∷ xs) h = absurd (omega arith)

  -- With positive weights that add up to an int, and prefix sums that `buildPreSum` has built: each
  -- draw below the sum of the weights, which is what `rand.Intn` promises, gives the backend at that
  -- place of the list in which each backend stands as often as its weight says.
  pub next_by_weight :
      (s : WeightedRandom T) (key : String) (draw : ℕ)
      → ((x : T) → s.weights x ≡ pos (weight x))
      → ((x : T) → 0 < weight x)
      → s.pre_sum ≡ build_pre_sum s.weights (pos 0) s.backends
      → length (expand weight s.backends) < int_max
      → draw < length (expand weight s.backends)
      → next s key draw ≡ at (expand weight s.backends) draw
  unfolding next pick
  next_by_weight s key draw e positive built fits low =
      let n = length (expand weight s.backends) in
      let room : 0 + n < int_max = omega arith in
      let total = total_lem weight s.weights e positive 0 s.backends room in
      let up = increasing_lem weight s.weights e positive 0 s.backends room in
      let some_backend : (length s.backends == 0) ≡ false = ground (arith, no_draw s.backends) in
      let some_total : leb_ℤ (pos (0 + n)) (pos 0) ≡ false = ground arith in
      let whole : draw - 0 ≡ draw = omega arith in
      rw (some_backend, built, total, some_total, built, up)
        (pick_lem weight s.weights e positive draw 0 s.backends (omega arith) (omega arith) room
          ∙ ap (at (expand weight s.backends)) whole)
