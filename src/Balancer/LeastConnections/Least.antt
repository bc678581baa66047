-- ===== src/Balancer/LeastConnections/Least.antt =====
-- internal/balancer/least_connections.go: the backend that Next returns.
use simple_go_server.Common.{
  ℕ, suc, ◌+◌, ◌<◌, String, ◌≡◌, refl, subst, ◌≢◌, ◌⊎◌, inl, inr, some, List, [], ◌∷◌, arith,
  if◌then◌else◌, Eq, nat_eq, string_eq, Bool-cases, length, get_elem?, All,
}
use simple_go_server.Common.Int.{ℤ, pos, add_int, ltb_ℤ, ◌≤ℤ◌}
use simple_go_server.Balancer.{ok, at, at-get}
use simple_go_server.Balancer.LeastConnections.{LeastConnections, least_index, choose, next}

module _ {T : Type 0} (count : T → ℤ) where
  -- Where the loop stops: at the position it came with, if nothing is below `least`, or at an
  -- element of the rest that is below it and below all elements before.
  abbrev Stops : ℤ → ℕ → ℕ → List T → ℕ → Type 0
  Stops least idx i xs j =
      ((j ≡ idx) × All (λ x. least ≤ℤ count x) xs)
      ⊎ ((k : ℕ) × (x : T) × (j ≡ i + k)
          × (get_elem? xs k ≡ some x)
          × (¬ (least ≤ℤ count x))
          × All (λ y. count x ≤ℤ count y) xs)

  All-mono :
      (a b : ℤ) (xs : List T) → a ≤ℤ b → All (λ x. b ≤ℤ count x) xs → All (λ x. a ≤ℤ count x) xs
  All-mono a b [] h p = tt
  All-mono a b (x ∷ xs) h p = (omega arith, All-mono a b xs h p.1)

  taken :
      (least : ℤ) (idx i j : ℕ) (x : T) (xs : List T)
      → ¬ (least ≤ℤ count x)
      → Stops (count x) i (i + 1) xs j
      → Stops least idx i (x ∷ xs) j
  taken least idx i j x xs n (inl (e, all)) = inr (0, x, omega arith, refl, n, (omega arith, all))
  taken least idx i j x xs n (inr (k, y, e, g, m, all)) =
      inr (suc k, y, omega arith, g, (λ h. m (omega arith)), (omega arith, all))

  passed :
      (least : ℤ) (idx i j : ℕ) (x : T) (xs : List T)
      → least ≤ℤ count x
      → Stops least idx (i + 1) xs j
      → Stops least idx i (x ∷ xs) j
  passed least idx i j x xs h (inl (e, all)) = inl (e, (h, all))
  passed least idx i j x xs h (inr (k, y, e, g, m, all)) =
      inr (suc k, y, omega arith, g, m, (omega arith, all))

  least_index-Stops :
      (least : ℤ) (idx i : ℕ) (xs : List T)
      → Stops least idx i xs (least_index count least idx i xs)
  unfolding least_index
  least_index-Stops least idx i [] = inl (refl, tt)
  least_index-Stops least idx i (x ∷ xs) = elim (Bool-cases (ltb_ℤ (count x) least)) [
    | inl below ↦
        subst (Stops least idx i (x ∷ xs)) (rw below refl)
          (taken least idx i _ x xs (λ h. ground arith) (least_index-Stops (count x) i (i + 1) xs))
    | inr not_below ↦
        subst (Stops least idx i (x ∷ xs)) (rw not_below refl)
          (passed least idx i _ x xs (ground arith) (least_index-Stops least idx (i + 1) xs))
  ]

  -- What the loop over `x ∷ xs`, begun at its second element, finds there.
  IsLeastAt : List T → ℕ → Type 0
  IsLeastAt xs j = (t : T) × (get_elem? xs j ≡ some t) × All (λ y. count t ≤ℤ count y) xs

  least_index-IsLeastAt :
      (x : T) (xs : List T) → IsLeastAt (x ∷ xs) (least_index count (count x) 0 1 xs)
  unfolding IsLeastAt
  least_index-IsLeastAt x xs = at_stop (least_index-Stops (count x) 0 1 xs)
    where
      at_stop : {j : ℕ} → Stops (count x) 0 1 xs j → IsLeastAt (x ∷ xs) j
      at_stop (inl (e, all)) = (x, rw e refl, (omega arith, all))
      at_stop (inr (k, y, e, g, m, all)) =
          let e' : 1 + k ≡ suc k = omega arith in (y, rw (e, e') g, (omega arith, all))

module _ {T : Type 0} where
  -- The backend that is returned is registered, and no registered one has a smaller count.
  abbrev pub IsLeast : LeastConnections T → T → Type 0
  IsLeast s t =
      ((j : ℕ) × (get_elem? s.backends j ≡ some t)) × All (λ y. s.counts t ≤ℤ s.counts y) s.backends

  choose_list :
      (s : LeastConnections T) (bs : List T)
      → s.backends ≡ bs
      → 0 < length bs
      → (t : T) × (choose s ≡ ok t) × IsLeast s t
  unfolding choose IsLeastAt at
  choose_list s [] e h = elim h [ ]
  choose_list s (x ∷ []) e h = (x, rw e refl, ((0, rw e refl), rw e (omega arith, tt)))
  choose_list s (x ∷ y ∷ ys) e h =
      let (t, g, all) = least_index-IsLeastAt s.counts x (y ∷ ys) in
      (
        t,
        ground (arith, at-get (x ∷ y ∷ ys) _ g),
        ((least_index s.counts (s.counts x) 0 1 (y ∷ ys), rw e g), rw e all),
      )

  pub choose-IsLeast :
      (s : LeastConnections T) → 0 < length s.backends → (t : T) × (choose s ≡ ok t) × IsLeast s t
  choose-IsLeast s h = choose_list s s.backends refl h

  module _ ⦃e : Eq T⦄ where
    -- With a backend registered, `next` returns a registered one whose count no other undercuts.
    -- If the balancer keeps the counts, that backend's count and no other goes up by one, wrapped
    -- to an int; if it does not, the counts stay. The registered list stays in either case.
    pub next-IsLeast :
        (s : LeastConnections T) (key : String)
        → 0 < length s.backends
        → (t : T) × ((next s key).0 ≡ ok t)
          × IsLeast s t
          × ((next s key).1.backends ≡ s.backends)
          × ((next s key).1.counts t
              ≡ (if s.update_count then add_int (s.counts t) (pos 1) else s.counts t))
          × ((x : T) → x ≢ t → (next s key).1.counts x ≡ s.counts x)
    unfolding next
    next-IsLeast s key h =
        let (t, g, least) = choose-IsLeast s h in
        (
          t,
          ground arith,
          least,
          ground arith,
          ground (arith, e.beq_iff t t),
          λ x n. ground (arith, e.beq_iff x t),
        )
