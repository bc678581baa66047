-- ===== src/Balancer/Adaptive.antt =====
-- internal/balancer/adaptive.go. A `float64` load is a value of a type `L` with the two comparisons
-- that the source uses. `Load()` is live: what the read of the i-th backend answers is `load i`. What
-- `random.Intn` answers at the i-th backend is `draw i`.
pub mod Lowest
use simple_go_server.Common.{
  ℕ, suc, ◌+◌, String, Bool, true, false, List, [], ◌∷◌, ◌++◌, length, ◌==◌, nat_eq, if◌then◌else◌,
  string_eq,
}
use simple_go_server.Balancer.{Backend, Result, ok, err, no_backends, registered, remove, iterate}

pub record Adaptive {ℓ} (T : Type ℓ) : Type ℓ where
  pub backends : List T

unfoldable pub new {ℓ} : {T : Type ℓ} → Adaptive T
new = record { backends = [] }

module _ {ℓ} {T : Type ℓ} {L : Type 0} (lt eq : L → L → Bool) (load : ℕ → L) (draw : ℕ → ℕ) where
  -- The loop from position `i` on.
  unfoldable pub scan : L → T → ℕ → ℕ → List T → T
  scan best picked ties i [] = picked
  scan best picked ties i (x ∷ xs) = elim (lt (load i) best) [
    | true ↦ scan (load i) x 1 (i + 1) xs
    | false ↦ elim (eq (load i) best) [
      | true ↦ scan best (if draw i == 0 then x else picked) (ties + 1) (i + 1) xs
      | false ↦ scan best picked ties (i + 1) xs
    ]
  ]

  unfoldable pub next : Adaptive T → String → Result T
  next s key = elim s.backends [
    | [] ↦ err no_backends
    | x ∷ xs ↦ if length xs == 0 then ok x else ok (scan (load 0) x 1 1 xs)
  ]

module _ {ℓ} {T : Type ℓ} where
  abbrev pub size : Adaptive T → ℕ
  size s = length s.backends

module _ {ℓ} {T : Type ℓ} ⦃b : Backend T⦄ where
  unfoldable pub register : Adaptive T → T → Adaptive T
  register s t =
      if registered t s.backends then s else record s { backends = s.backends ++ (t ∷ []) }

  unfoldable pub unregister : Adaptive T → T → Adaptive T
  unregister s t = record s { backends = remove t s.backends }

  abbrev pub visit {κ} : {S : Type κ} → Adaptive T → (T → S → Bool × S) → S → S
  visit s f acc = iterate f s.backends acc
