-- ===== src/Balancer/LeastConnections/Level.antt =====
-- internal/balancer/least_connections.go: the counts under repeated calls of Next.
use simple_go_server.Common.{
  ℕ, ◌+◌, ◌-◌, ◌^◌, ◌≤◌, ◌<◌, String, ◌≡◌, subst, inl, inr, some, arith, Eq, ◌==◌, nat_eq,
  string_eq, Bool-cases, length, get_elem?, All, All-get,
}
use simple_go_server.Common.Int.{ℤ, pos, negsuc, pos_part, neg_part, add_int, ◌≤ℤ◌}
use simple_go_server.Balancer.LeastConnections.{LeastConnections, next}
use simple_go_server.Balancer.LeastConnections.Least.{next-IsLeast}

-- Below the largest int the increment does not wrap.
add_int-one :
    (a : ℤ)
    → a ≤ℤ pos (2 ^ 63 - 2)
    → negsuc (2 ^ 63 - 1) ≤ℤ a
    → pos_part (add_int a (pos 1)) + neg_part a ≡ pos_part a + neg_part (add_int a (pos 1)) + 1
unfolding add_int
add_int-one a h l = ground arith

module _ {T : Type 0} where
  -- No two registered counts are more than one apart.
  abbrev pub IsLevel : LeastConnections T → Type 0
  IsLevel s =
      (i j : ℕ) (x y : T)
      → get_elem? s.backends i ≡ some x
      → get_elem? s.backends j ≡ some y
      → pos_part (s.counts x) + neg_part (s.counts y)
        ≤ pos_part (s.counts y) + neg_part (s.counts x) + 1

  -- The registered counts are ints that can still grow.
  abbrev pub HasRoom : LeastConnections T → Type 0
  HasRoom s =
      All (λ x. (s.counts x ≤ℤ pos (2 ^ 63 - 2)) × (negsuc (2 ^ 63 - 1) ≤ℤ s.counts x)) s.backends

  -- A call of `next` on level counts, none of them the largest int, leaves them level.
  pub next-IsLevel :
      ⦃e : Eq T⦄
      → (s : LeastConnections T) (key : String) → 0 < length s.backends
      → HasRoom s
      → IsLevel s
      → IsLevel (next s key).1
  next-IsLevel ⦃e⦄ s key h room level i j x y gx gy =
      let (t, _, least, same, bumped, others) = next-IsLeast s key h in
      let hx : get_elem? s.backends i ≡ some x = subst (λ l. get_elem? l i ≡ some x) same gx in
      let hy : get_elem? s.backends j ≡ some y = subst (λ l. get_elem? l j ≡ some y) same gy in
      let (k, ht) = least.0 in
      let low_y = All-get (λ z. s.counts t ≤ℤ s.counts z) s.backends j least.1 hy in
      let roomy =
        All-get (λ z. (s.counts z ≤ℤ pos (2 ^ 63 - 2)) × (negsuc (2 ^ 63 - 1) ≤ℤ s.counts z))
          s.backends k room ht in
      let grown = add_int-one (s.counts t) roomy.0 roomy.1 in
      let apart = level i j x y hx hy in
      elim (Bool-cases (x == t)) [
        | inl ex ↦ elim (Bool-cases (y == t)) [
          | inl ey ↦ rw ((e.beq_iff x t).0 ex, (e.beq_iff y t).0 ey) (omega arith)
          | inr ny ↦
              rw ((e.beq_iff x t).0 ex, bumped, others y (λ p. cc (ny, (e.beq_iff y t).1 p)))
                (ground arith)
        ]
        | inr nx ↦ elim (Bool-cases (y == t)) [
          | inl ey ↦
              rw ((e.beq_iff y t).0 ey, bumped, others x (λ p. cc (nx, (e.beq_iff x t).1 p)))
                (ground (arith, level i k x t hx ht))
          | inr ny ↦
              rw
                (
                  others x (λ p. cc (nx, (e.beq_iff x t).1 p)),
                  others y (λ p. cc (ny, (e.beq_iff y t).1 p)),
                )
                apart
        ]
      ]
