-- ===== src/Balancer/WeightedRandom.antt =====
-- internal/balancer/weighted_random.go. The weights are a field of the references. What `rand.Intn`
-- answers is the argument `draw`. `sort.Search` is the first index that passes the test, which is
-- what it is documented to find where the test fails on a prefix and passes behind it.
pub mod Shares
use simple_go_server.Common.{
  ℕ, zero, suc, ◌+◌, ◌-◌, ◌*◌, ◌/◌, ◌%◌, ◌^◌, ◌≤◌, ◌<◌, min, String, ◌≡◌, refl, sym, ap, ◌∙◌, subst,
  ◌≢◌, ◌↔◌, ◌⊎◌, inl, inr, Bool, true, false, not, ◌&&◌, ◌||◌, Option, none, some, List, [], ◌∷◌,
  ◌++◌, map, append-nil, append_assoc, arith, ltb, leb, if◌then◌else◌, Eq, ◌==◌, nat_eq, string_eq,
  nat_beq_iff, beq_refl, Bool-cases, Option-cases, length, get_elem?, get_or, take, drop, All,
  length-append, length-take, length-drop, take-append-drop, take-length-append, drop-length-append,
  get_elem?-lt, lt_of_get_elem?, All-append, All-get, take_all, drop_all,
}
use simple_go_server.Common.Int.{ℤ, pos, ltb_ℤ, leb_ℤ, add_int}
use simple_go_server.Balancer.{
  Backend, Result, ok, err, no_backends, invalid_weight, total_not_positive, weight_mutated, at,
  registered, remove, iterate,
}

pub record WeightedRandom {ℓ} (T : Type ℓ) : Type ℓ where
  pub backends : List T
  pub pre_sum : List ℤ
  pub weights : T → ℤ

unfoldable pub new {ℓ} : {T : Type ℓ} → (T → ℤ) → WeightedRandom T
new weights = record { backends = []; pre_sum = []; weights = weights }

-- The check of `Next` that every prefix is larger than the one before.
unfoldable pub strictly_increasing : List ℤ → Bool
strictly_increasing [] = true
strictly_increasing (a ∷ []) = true
strictly_increasing (a ∷ b ∷ sums) = if leb_ℤ b a then false else strictly_increasing (b ∷ sums)

unfoldable pub search : (ℤ → Bool) → List ℤ → ℕ
search test [] = 0
search test (a ∷ sums) = let rest = search test sums in if test a then 0 else suc rest

module _ {ℓ} {T : Type ℓ} where
  -- The loop of `buildPreSum`, from a sum on.
  unfoldable pub build_pre_sum : (T → ℤ) → ℤ → List T → List ℤ
  build_pre_sum weight sum [] = sum ∷ []
  build_pre_sum weight sum (x ∷ xs) = sum ∷ build_pre_sum weight (add_int sum (weight x)) xs

  -- `Next` once there is a total.
  unfoldable pub pick : WeightedRandom T → ℤ → ℕ → Result T
  pick s total draw =
      if leb_ℤ total (pos 0)
      then err total_not_positive
      else if not (strictly_increasing s.pre_sum)
      then err weight_mutated
      else at s.backends (search (λ p. ltb_ℤ (pos draw) p) s.pre_sum - 1)

  unfoldable pub next : WeightedRandom T → String → ℕ → Result T
  next s key draw =
      if length s.backends == 0
      then err no_backends
      else elim (at s.pre_sum (length s.backends)) [ ok total ↦ pick s total draw | err e ↦ err e ]

  abbrev size : WeightedRandom T → ℕ
  size s = length s.backends

  abbrev pub rebuilt : WeightedRandom T → List T → WeightedRandom T
  rebuilt s backends = record s {
    backends = backends;
    pre_sum = build_pre_sum s.weights (pos 0) backends;
  }

module _ {ℓ} {T : Type ℓ} ⦃b : Backend T⦄ where
  unfoldable pub register : WeightedRandom T → T → Result (WeightedRandom T)
  register s t =
      if leb_ℤ (s.weights t) (pos 0)
      then err invalid_weight
      else if registered t s.backends
      then ok s
      else ok (rebuilt s (s.backends ++ (t ∷ [])))

  unfoldable pub unregister : WeightedRandom T → T → WeightedRandom T
  unregister s t = rebuilt s (remove t s.backends)

  abbrev visit {κ} : {S : Type κ} → WeightedRandom T → (T → S → Bool × S) → S → S
  visit s f acc = iterate f s.backends acc
