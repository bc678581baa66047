-- ===== src/Balancer/WeightedRoundRobin.antt =====
-- internal/balancer/weighted_round_robin.go. The weights of the backends live in the backends, which
-- others hold too: the state has them as a field of the references.
pub mod Spread
use simple_go_server.Common.{
  ℕ, zero, suc, ◌+◌, ◌-◌, ◌*◌, ◌/◌, ◌%◌, ◌^◌, ◌≤◌, ◌<◌, min, String, ◌≡◌, refl, sym, ap, ◌∙◌, subst,
  ◌≢◌, ◌↔◌, ◌⊎◌, inl, inr, Bool, true, false, not, ◌&&◌, ◌||◌, Option, none, some, List, [], ◌∷◌,
  ◌++◌, map, append-nil, append_assoc, arith, ltb, leb, if◌then◌else◌, Eq, ◌==◌, nat_eq, string_eq,
  nat_beq_iff, beq_refl, Bool-cases, Option-cases, length, get_elem?, get_or, take, drop, All,
  length-append, length-take, length-drop, take-append-drop, take-length-append, drop-length-append,
  get_elem?-lt, lt_of_get_elem?, All-append, All-get, take_all, drop_all,
}
use simple_go_server.Common.Int.{ℤ, pos, ltb_ℤ, leb_ℤ, add_int, sub_int, rem_int}
use simple_go_server.Balancer.{
  Backend, Result, ok, err, no_backends, invalid_weight, panic, at, remove, iterate, set_field,
}

pub record WeightedRoundRobin {ℓ} (T : Type ℓ) : Type ℓ where
  pub backends : List T
  pub current_weight : ℤ
  pub total_weight : ℤ
  pub weights : T → ℤ

unfoldable pub new {ℓ} : {T : Type ℓ} → (T → ℤ) → WeightedRoundRobin T
new weights = record {
  backends = [];
  current_weight = pos 0;
  total_weight = pos 0;
  weights = weights;
}

abbrev pub same_int : ℤ → ℤ → Bool
same_int a b = leb_ℤ a b && leb_ℤ b a

module _ {ℓ} {T : Type ℓ} where
  -- The loop of `Next`, with the result behind it.
  unfoldable pub walk : (T → ℤ) → Result T → ℤ → List T → Result T
  walk weight fallback current [] = fallback
  walk weight fallback current (x ∷ xs) =
      if ltb_ℤ current (weight x)
      then ok x
      else walk weight fallback (sub_int current (weight x)) xs

  -- A remainder by zero is a run-time panic.
  unfoldable pub next : WeightedRoundRobin T → String → Result T × WeightedRoundRobin T
  next s key =
      let current = rem_int (add_int s.current_weight (pos 1)) s.total_weight in
      if length s.backends == 0
      then (err no_backends, s)
      else if length s.backends == 1
      then (at s.backends 0, s)
      else if same_int s.total_weight (pos 0)
      then (err panic, s)
      else (
        walk s.weights (at s.backends 0) current s.backends,
        record s { current_weight = current },
      )

  abbrev size : WeightedRoundRobin T → ℕ
  size s = length s.backends

  -- The results of consecutive calls, and the state that they leave.
  unfoldable pub picks : WeightedRoundRobin T → List String → List (Result T) × WeightedRoundRobin T
  picks s [] = ([], s)
  picks s (key ∷ keys) = let (r, s') = next s key in let (rs, s'') = picks s' keys in (r ∷ rs, s'')

module _ {ℓ} {T : Type ℓ} ⦃b : Backend T⦄ where
  -- The entry of the same id.
  unfoldable find : T → List T → Option T
  find t [] = none
  find t (x ∷ xs) = if b.id x == b.id t then some x else find t xs

  unfoldable register : ⦃e : Eq T⦄ → WeightedRoundRobin T → T → Result (WeightedRoundRobin T)
  register s t =
      if leb_ℤ (s.weights t) (pos 0) then err invalid_weight else elim (find t s.backends) [
        | none ↦ ok (record s {
          backends = s.backends ++ (t ∷ []);
          total_weight = add_int s.total_weight (s.weights t);
        })
        | some x ↦
            if same_int (s.weights x) (s.weights t)
            then ok s
            else ok (record s {
              total_weight = sub_int s.total_weight (sub_int (s.weights x) (s.weights t));
              weights = set_field s.weights x (s.weights t);
            })
      ]

  unfoldable unregister : WeightedRoundRobin T → T → WeightedRoundRobin T
  unregister s t = elim (find t s.backends) [
    | none ↦ s
    | some x ↦ record s {
      backends = remove t s.backends;
      total_weight = sub_int s.total_weight (s.weights x);
    }
  ]

  abbrev visit {κ} : {S : Type κ} → WeightedRoundRobin T → (T → S → Bool × S) → S → S
  visit s f acc = iterate f s.backends acc
