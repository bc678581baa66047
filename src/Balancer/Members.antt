-- ===== src/Balancer/Members.antt =====
-- The registered list as a set of ids, for every balancer that keeps a plain list.
use simple_go_server.Common.{
  String, true, false, ◌≡◌, refl, ◌⊎◌, ◌↔◌, List, [], ◌∷◌, ◌++◌, ◌==◌, if◌then◌else◌, arith,
  string_eq, ap,
}
use simple_go_server.Balancer.{Backend, registered, remove, ids}

-- Membership of an id, by recursion on the list.
abbrev pub HasId : String → List String → Type 0
HasId i [] = ⊥
HasId i (j ∷ js) = (j ≡ i) ⊎ HasId i js

-- No id occurs twice.
abbrev pub Distinct : List String → Type 0
Distinct [] = Unit {0}
Distinct (i ∷ is) = (¬ HasId i is) × Distinct is

-- The ids without the first occurrence of one.
pub drop_id : String → List String → List String
drop_id i [] = []
drop_id i (j ∷ js) = if j == i then js else j ∷ drop_id i js

HasId-drop_id : (i j : String) (js : List String) → HasId j (drop_id i js) → HasId j js
unfolding drop_id
HasId-drop_id i j [] h = h
HasId-drop_id i j (k ∷ js) h = ground (arith, HasId-drop_id i j js)

pub drop_id-Distinct : (i : String) (js : List String) → Distinct js → Distinct (drop_id i js)
unfolding drop_id
drop_id-Distinct i [] d = d
drop_id-Distinct i (j ∷ js) d = ground (arith, HasId-drop_id i j js, drop_id-Distinct i js)

-- With distinct ids, exactly the named one goes.
pub HasId-drop_id_iff :
    (i j : String) (js : List String)
    → Distinct js
    → (HasId j (drop_id i js) → HasId j js × (¬ (j ≡ i)))
      × (HasId j js → ¬ (j ≡ i) → HasId j (drop_id i js))
unfolding drop_id
HasId-drop_id_iff i j [] d = ((λ h. absurd h), λ h n. h)
HasId-drop_id_iff i j (k ∷ js) d =
    ground (arith, string_eq.beq_iff k i, HasId-drop_id_iff i j js d.1)

HasId-append : (j k : String) (js : List String) → HasId j (js ++ (k ∷ [])) → HasId j js ⊎ (k ≡ j)
HasId-append j k [] h = ground arith
HasId-append j k (l ∷ js) h = ground (arith, HasId-append j k js)

pub append-Distinct :
    (i : String) (js : List String) → ¬ HasId i js → Distinct js → Distinct (js ++ (i ∷ []))
append-Distinct i [] n d = ground arith
append-Distinct i (j ∷ js) n d = ground (arith, HasId-append j i js, append-Distinct i js)

pub HasId-add :
    (i j : String) (js : List String) → HasId j (js ++ (i ∷ [])) ↔ ((i ≡ j) ⊎ HasId j js)
HasId-add i j [] = ground arith
HasId-add i j (k ∷ js) = ground (arith, HasId-add i j js)

module _ {ℓ} {T : Type ℓ} ⦃b : Backend T⦄ where
  pub registered-HasId : (t : T) (xs : List T) → registered t xs ≡ true → HasId (b.id t) (ids xs)
  unfolding registered
  registered-HasId t [] h = ground arith
  registered-HasId t (x ∷ xs) h =
      ground (arith, string_eq.beq_iff (b.id x) (b.id t), registered-HasId t xs)

  pub not_registered : (t : T) (xs : List T) → registered t xs ≡ false → ¬ HasId (b.id t) (ids xs)
  unfolding registered
  not_registered t [] h = λ k. k
  not_registered t (x ∷ xs) h =
      ground (arith, string_eq.beq_iff (b.id x) (b.id t), not_registered t xs)

  pub ids-remove : (t : T) (xs : List T) → ids (remove t xs) ≡ drop_id (b.id t) (ids xs)
  unfolding remove drop_id
  ids-remove t [] = refl
  ids-remove t (x ∷ xs) = ground (arith, ids-remove t xs)

  pub ids-append : (t : T) (xs : List T) → ids (xs ++ (t ∷ [])) ≡ ids xs ++ (b.id t ∷ [])
  ids-append t [] = refl
  ids-append t (x ∷ xs) = ap (◌∷◌ (b.id x)) (ids-append t xs)
