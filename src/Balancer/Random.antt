-- ===== src/Balancer/Random.antt =====
-- internal/balancer/random.go. What `rand.Intn` answers is the argument `draw`.
use simple_go_server.Common.{
  ℕ, String, Bool, List, [], ◌∷◌, ◌++◌, length, ◌==◌, nat_eq, if◌then◌else◌,
}
use simple_go_server.Balancer.{Backend, Result, err, no_backends, at, registered, remove, iterate}

pub record Random {ℓ} (T : Type ℓ) : Type ℓ where
  pub backends : List T

unfoldable pub new {ℓ} : {T : Type ℓ} → Random T
new = record { backends = [] }

module _ {ℓ} {T : Type ℓ} where
  unfoldable pub next : Random T → String → ℕ → Result T
  next s key draw =
      if length s.backends == 0
      then err no_backends
      else if length s.backends == 1
      then at s.backends 0
      else at s.backends draw

  abbrev pub size : Random T → ℕ
  size s = length s.backends

module _ {ℓ} {T : Type ℓ} ⦃b : Backend T⦄ where
  unfoldable pub register : Random T → T → Random T
  register s t =
      if registered t s.backends then s else record s { backends = s.backends ++ (t ∷ []) }

  unfoldable pub unregister : Random T → T → Random T
  unregister s t = record s { backends = remove t s.backends }

  abbrev pub visit {κ} : {S : Type κ} → Random T → (T → S → Bool × S) → S → S
  visit s f acc = iterate f s.backends acc
