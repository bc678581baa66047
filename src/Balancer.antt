-- ===== src/Balancer.antt =====
-- pkg/balancer.go, and what the balancers of internal/balancer share: the contract of a backend, the
-- errors, and the loops over the registered list, which each balancer writes out anew. A backend is
-- a reference of type `T`; what `Id()` answers for it never changes. Each method holds the lock for
-- its whole body, so one call is one step.
mod Tests
pub mod Members
pub mod Cycle
pub mod Contract
pub mod RoundRobin
pub mod WeightedRoundRobin
pub mod WeightedRandom
pub mod Random
pub mod LeastConnections
pub mod Adaptive
pub mod IpHashing
use simple_go_server.Common.{
  String, Bool, true, false, List, [], ◌∷◌, map, ℕ, none, some, Eq, get_elem?, ◌==◌, if◌then◌else◌,
  string_eq, ◌≡◌, refl,
}

pub record Backend {ℓ} (T : Type ℓ) : Type ℓ where
  pub id : T → String

-- The reasons for which a balancer refuses. `panic` is a Go run-time panic.
pub data Error : Type 0 where
  no_backends invalid_weight total_not_positive weight_mutated panic : Error

pub data Result {ℓ} (A : Type ℓ) : Type ℓ where
  ok : A → Result A
  err : Error → Result A

-- An index into a slice: Go panics out of range.
unfoldable pub at {ℓ} : {A : Type ℓ} → List A → ℕ → Result A
at xs i = elim (get_elem? xs i) [ none ↦ err panic | some x ↦ ok x ]

pub at-get {ℓ} :
    {A : Type ℓ} (xs : List A) (i : ℕ) {x : A} → get_elem? xs i ≡ some x → at xs i ≡ ok x
unfolding at
at-get xs i e = rw (e, at) refl

module _ {ℓ} {T : Type ℓ} ⦃b : Backend T⦄ where
  -- The loop with which `Register` looks for a backend of the same id.
  unfoldable pub registered : T → List T → Bool
  registered t [] = false
  registered t (x ∷ xs) = if b.id x == b.id t then true else registered t xs

  -- `append(backends[:i], backends[i+1:]...)` at the first backend of the same id, if there is one.
  unfoldable pub remove : T → List T → List T
  remove t [] = []
  remove t (x ∷ xs) = if b.id x == b.id t then xs else x ∷ remove t xs

  abbrev pub ids : List T → List String
  ids = map b.id

-- `Iterate`: the callback sees the backends in order until it answers false. Its own state is
-- threaded through.
unfoldable pub iterate {ℓ κ} : {T : Type ℓ} {S : Type κ} → (T → S → Bool × S) → List T → S → S
iterate f [] s = s
iterate f (x ∷ xs) s = let (go, s') = f x s in let rest = iterate f xs s' in if go then rest else s'

-- A field of the objects behind the references: what a getter answers, and what a setter leaves.
unfoldable pub set_field {ℓ κ} : {T : Type ℓ} {V : Type κ} ⦃e : Eq T⦄ → (T → V) → T → V → T → V
set_field f t v x = if x == t then v else f x
