-- ===== src/Balancer/LeastConnections.antt =====
-- internal/balancer/least_connections.go. The counts of the backends live in the backends, which
-- others hold too: the state has them as a field of the references.
pub mod Least
pub mod Level
use simple_go_server.Common.{
  ℕ, suc, ◌+◌, String, Bool, List, [], ◌∷◌, ◌++◌, length, ◌==◌, Eq, nat_eq, if◌then◌else◌, Option,
  none, some, string_eq,
}
use simple_go_server.Common.Int.{ℤ, pos, add_int, ltb_ℤ}
use simple_go_server.Balancer.{
  Backend, Result, ok, err, no_backends, at, registered, remove, iterate, set_field,
}

pub record LeastConnections {ℓ} (T : Type ℓ) : Type ℓ where
  pub backends : List T
  pub update_count : Bool
  pub counts : T → ℤ

unfoldable pub new {ℓ} : {T : Type ℓ} → Bool → (T → ℤ) → LeastConnections T
new update_count counts = record { backends = []; update_count = update_count; counts = counts }

module _ {ℓ} {T : Type ℓ} where
  -- The loop from position `i` on: the position of the least count, the first one on a tie.
  unfoldable pub least_index : (T → ℤ) → ℤ → ℕ → ℕ → List T → ℕ
  least_index count least idx i [] = idx
  least_index count least idx i (x ∷ xs) =
      if ltb_ℤ (count x) least
      then least_index count (count x) i (i + 1) xs
      else least_index count least idx (i + 1) xs

  -- `next` before its deferred bookkeeping.
  unfoldable pub choose : LeastConnections T → Result T
  choose s = elim s.backends [
    | [] ↦ err no_backends
    | x ∷ xs ↦
        if length xs == 0 then ok x else at (x ∷ xs) (least_index s.counts (s.counts x) 0 1 xs)
  ]

  abbrev pub size : LeastConnections T → ℕ
  size s = length s.backends

module _ {ℓ} {T : Type ℓ} ⦃e : Eq T⦄ where
  -- The deferred function, which runs once a backend is chosen.
  unfoldable pub count_up : LeastConnections T → T → LeastConnections T
  unfolding set_field
  count_up s t =
      if s.update_count
      then record s { counts = set_field s.counts t (add_int (s.counts t) (pos 1)) }
      else s

  unfoldable pub next : LeastConnections T → String → Result T × LeastConnections T
  unfolding count_up
  next s key = elim (choose s) [ ok t ↦ (ok t, count_up s t) | err x ↦ (err x, s) ]

module _ {ℓ} {T : Type ℓ} ⦃b : Backend T⦄ where
  -- The entry of the same id, whose count a second registration sets.
  unfoldable pub find : T → List T → Option T
  find t [] = none
  find t (x ∷ xs) = if b.id x == b.id t then some x else find t xs

  unfoldable pub register : ⦃e : Eq T⦄ → LeastConnections T → T → LeastConnections T
  unfolding set_field
  register s t = elim (find t s.backends) [
    | none ↦ record s { backends = s.backends ++ (t ∷ []) }
    | some x ↦ if s.update_count then record s { counts = set_field s.counts x (s.counts t) } else s
  ]

  unfoldable pub unregister : LeastConnections T → T → LeastConnections T
  unregister s t = record s { backends = remove t s.backends }

  abbrev pub visit {κ} : {S : Type κ} → LeastConnections T → (T → S → Bool × S) → S → S
  visit s f acc = iterate f s.backends acc
