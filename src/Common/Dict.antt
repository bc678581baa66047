-- ===== src/Common/Dict.antt =====
-- Go maps as association lists with one entry for each key. `lookup` of a missing key is `none`;
-- `delete` of one changes nothing. Go iterates a map in no fixed order: what the development states
-- of an iteration does not depend on the order of the list, or takes the order as it comes.
use simple_go_server.Common.Lists.{length}
use simple_go_server.Common.Tests.{Bool-cases, Eq, ◌==◌, if◌then◌else◌}
use Prim.Native.Nat.{ℕ, ◌≤◌, ◌<◌}
use mathlib.Core.Logic.{inl, inr}
use mathlib.Core.Bool.{Bool, true, false}
use mathlib.Core.Path.{◌≡◌, refl, sym, ap}
use mathlib.Core.Option.{Option, none, some}
use mathlib.Core.List.{List, [], ◌∷◌}
use native.Mathlib.Omega.{arith}

abbrev pub IsAbsent {ℓ} : {A : Type ℓ} → Option A → Type 0
IsAbsent none = Unit {0}
IsAbsent (some a) = ⊥

abbrev pub Dict {ℓ κ} : Type ℓ → Type κ → Type (ℓ ⊔ κ)
Dict K V = List (K × V)

swap_false {ℓ} : {K : Type ℓ} ⦃e : Eq K⦄ (k j : K) → (k == j) ≡ false → (j == k) ≡ false
swap_false ⦃e⦄ k j h = elim (Bool-cases (j == k)) [
  | inl hit ↦ absurd (cc (h, (e.beq_iff k j).1 (sym ((e.beq_iff j k).0 hit))))
  | inr miss ↦ miss
]

module _ {ℓ κ} {K : Type ℓ} {V : Type κ} ⦃e : Eq K⦄ where
  unfoldable pub lookup : K → Dict K V → Option V
  lookup key [] = none
  lookup key ((other, held) ∷ rest) = if other == key then some held else lookup key rest

  unfoldable pub insert : K → V → Dict K V → Dict K V
  insert key value [] = (key, value) ∷ []
  insert key value ((other, held) ∷ rest) =
      if other == key then (key, value) ∷ rest else (other, held) ∷ insert key value rest

  unfoldable pub delete : K → Dict K V → Dict K V
  delete k [] = []
  delete k ((j, w) ∷ m) = if j == k then delete k m else (j, w) ∷ delete k m

  pub lookup-insert :
      (key asked : K) (value : V) (dict : Dict K V)
      → lookup asked (insert key value dict)
        ≡ (if key == asked then some value else lookup asked dict)
  unfolding lookup insert
  lookup-insert key asked value [] = refl
  lookup-insert key asked value ((other, held) ∷ rest) = ground (
    arith,
    e.beq_iff key asked,
    e.beq_iff other key,
    e.beq_iff other asked,
    lookup-insert key asked value rest,
  )

  pub lookup-delete :
      (k j : K) (m : Dict K V) → lookup j (delete k m) ≡ (if k == j then none else lookup j m)
  unfolding lookup delete
  lookup-delete k j [] = ground arith
  lookup-delete k j ((i, w) ∷ m) =
      ground (arith, e.beq_iff k j, e.beq_iff i k, e.beq_iff i j, lookup-delete k j m)

  -- One entry for each key.
  abbrev pub IsMap : Dict K V → Type 0
  IsMap [] = Unit {0}
  IsMap ((k, v) ∷ m) = IsAbsent (lookup k m) × IsMap m

  pub insert-IsMap : (k : K) (v : V) (m : Dict K V) → IsMap m → IsMap (insert k v m)
  unfolding insert lookup
  insert-IsMap k v [] u = (tt, tt)
  insert-IsMap k v ((i, w) ∷ m) (fresh, u) = elim (Bool-cases (i == k)) [
    | inl hit ↦ rw (hit, ← (e.beq_iff i k).0 hit) (fresh, u)
    | inr miss ↦
        rw miss (rw (lookup-insert k i v m, swap_false i k miss) fresh, insert-IsMap k v m u)
  ]

  pub delete-IsMap : (k : K) (m : Dict K V) → IsMap m → IsMap (delete k m)
  unfolding delete
  delete-IsMap k [] u = tt
  delete-IsMap k ((i, w) ∷ m) (fresh, u) = elim (Bool-cases (i == k)) [
    | inl hit ↦ rw hit (delete-IsMap k m u)
    | inr miss ↦ rw miss (rw (lookup-delete k i m, swap_false i k miss) fresh, delete-IsMap k m u)
  ]

  -- What is absent is deleted without effect.
  pub delete-absent : (k : K) (m : Dict K V) → IsAbsent (lookup k m) → delete k m ≡ m
  unfolding delete lookup
  delete-absent k [] a = refl
  delete-absent k ((i, w) ∷ m) a = elim (Bool-cases (i == k)) [
    | inl hit ↦ absurd (rw (hit, lookup) at a)
    | inr miss ↦ rw miss (ap (◌∷◌ (i, w)) (delete-absent k m (rw (miss, lookup) at a)))
  ]

  pub length-delete-le : (k : K) (m : Dict K V) → length (delete k m) ≤ length m
  unfolding delete
  length-delete-le k [] = omega arith
  length-delete-le k ((i, w) ∷ m) = elim (Bool-cases (i == k)) [
    | inl hit ↦ rw hit (omega (arith, length-delete-le k m))
    | inr miss ↦ rw miss (omega (arith, length-delete-le k m))
  ]

  pub length-delete-lt :
      (k : K) (m : Dict K V) (v : V) → lookup k m ≡ some v → length (delete k m) < length m
  unfolding lookup delete
  length-delete-lt k [] v h = absurd (cc h)
  length-delete-lt k ((i, w) ∷ m) v h = elim (Bool-cases (i == k)) [
    | inl hit ↦ rw hit (omega (arith, length-delete-le k m))
    | inr miss ↦ rw miss (omega (arith, length-delete-lt k m v (rw miss at h)))
  ]

-- A Go map of numbers answers zero for a missing key; `or_zero` and `or_empty` are such defaults.
abbrev pub or_zero : Option ℕ → ℕ
or_zero none = 0
or_zero (some n) = n

abbrev pub or_empty {ℓ} : {A : Type ℓ} → Option (List A) → List A
or_empty none = []
or_empty (some xs) = xs

-- A set of keys: `map[K]struct{}`.
module _ {ℓ} {K : Type ℓ} ⦃e : Eq K⦄ where
  unfoldable pub elem : K → List K → Bool
  elem k [] = false
  elem k (j ∷ js) = if j == k then true else elem k js

  unfoldable pub add : K → List K → List K
  add k js = if elem k js then js else k ∷ js

  unfoldable pub remove : K → List K → List K
  remove k [] = []
  remove k (j ∷ js) = if j == k then remove k js else j ∷ remove k js

  pub elem-add : (k j : K) (js : List K) → elem j (add k js) ≡ (if k == j then true else elem j js)
  unfolding elem add
  elem-add k j js = ground (arith, e.beq_iff k j)

  pub elem-remove :
      (k j : K) (js : List K) → elem j (remove k js) ≡ (if k == j then false else elem j js)
  unfolding elem remove
  elem-remove k j [] = ground arith
  elem-remove k j (i ∷ js) =
      ground (arith, e.beq_iff k j, e.beq_iff i k, e.beq_iff i j, elem-remove k j js)

  pub length-remove-le : (k : K) (js : List K) → length (remove k js) ≤ length js
  unfolding remove
  length-remove-le k [] = omega arith
  length-remove-le k (j ∷ js) = elim (Bool-cases (j == k)) [
    | inl hit ↦ rw hit (omega (arith, length-remove-le k js))
    | inr miss ↦ rw miss (omega (arith, length-remove-le k js))
  ]

  pub length-remove-lt : (k : K) (js : List K) → elem k js ≡ true → length (remove k js) < length js
  unfolding elem remove
  length-remove-lt k [] h = absurd (cc h)
  length-remove-lt k (j ∷ js) h = elim (Bool-cases (j == k)) [
    | inl hit ↦ rw hit (omega (arith, length-remove-le k js))
    | inr miss ↦ rw miss (omega (arith, length-remove-lt k js (rw miss at h)))
  ]
