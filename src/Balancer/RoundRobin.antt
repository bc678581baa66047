-- ===== src/Balancer/RoundRobin.antt =====
-- internal/balancer/round_robin.go. `current` only ever takes remainders by the size, so it is
-- never negative and cannot overflow.
pub mod Fairness
use simple_go_server.Common.{
  ℕ, zero, suc, ◌+◌, ◌%◌, String, Bool, List, [], ◌∷◌, ◌++◌, length, ◌==◌, nat_eq, if◌then◌else◌,
}
use simple_go_server.Balancer.{
  Backend, Result, ok, err, no_backends, at, registered, remove, iterate,
}

pub record RoundRobin {ℓ} (T : Type ℓ) : Type ℓ where
  pub backends : List T
  pub current : ℕ

unfoldable pub new {ℓ} : {T : Type ℓ} → RoundRobin T
new = record { backends = []; current = 0 }

module _ {ℓ} {T : Type ℓ} where
  -- The key is not looked at.
  unfoldable pub next : RoundRobin T → String → Result T × RoundRobin T
  next s key =
      let size = length s.backends in
      let current = s.current % size in
      if size == 0
      then (err no_backends, s)
      else (at s.backends current, record s { current = (current + 1) % size })

  abbrev pub size : RoundRobin T → ℕ
  size s = length s.backends

  -- The results of consecutive calls, and the state that they leave.
  unfoldable pub picks : RoundRobin T → List String → List (Result T) × RoundRobin T
  picks s [] = ([], s)
  picks s (key ∷ keys) = let (r, s') = next s key in let (rs, s'') = picks s' keys in (r ∷ rs, s'')

module _ {ℓ} {T : Type ℓ} ⦃b : Backend T⦄ where
  unfoldable pub register : RoundRobin T → T → RoundRobin T
  register s t =
      if registered t s.backends then s else record s { backends = s.backends ++ (t ∷ []) }

  unfoldable pub unregister : RoundRobin T → T → RoundRobin T
  unregister s t = record s { backends = remove t s.backends }

  abbrev pub visit {κ} : {S : Type κ} → RoundRobin T → (T → S → Bool × S) → S → S
  visit s f acc = iterate f s.backends acc
