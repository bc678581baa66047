-- ===== src/Balancer/Cycle.antt =====
-- Reading a list round and round, from a position on.
use simple_go_server.Common.{
  ℕ, zero, suc, ◌+◌, ◌%◌, ◌<◌, ◌≡◌, refl, sym, ap, ◌∙◌, subst, List, [], ◌∷◌, ◌++◌, map, arith,
  length, take, drop, append-nil, append_assoc, length-append, length-take, length-drop,
  take-append-drop,
}
use simple_go_server.Balancer.{Result, ok, at}
use mathlib.Core.List.{map-append}
use mathlib.Core.Path.{ap₂}
use native.Mathlib.Nat.{mod-add-mod, add-mod_right, mod-eq_of_lt}

succ_mod : (n i j : ℕ) → i % n ≡ j % n → (i + 1) % n ≡ (j + 1) % n
succ_mod n i j e = rw (← mod-add-mod i n 1, e) (mod-add-mod j n 1)

self_mod : (n : ℕ) → n % n ≡ 0 % n
self_mod n = subst (λ k. k % n ≡ 0 % n) (omega arith) (add-mod_right 0 n)

module _ {ℓ} {A : Type ℓ} where
  -- `k` elements of `xs`, from position `i` on, going back to the start at the end.
  unfoldable pub cycle : List A → ℕ → ℕ → List (Result A)
  cycle xs i zero = []
  cycle xs i (suc k) = at xs (i % length xs) ∷ cycle xs (i + 1) k

  -- The start counts modulo the length only.
  pub cycle-mod :
      (xs : List A) (i j k : ℕ) → i % length xs ≡ j % length xs → cycle xs i k ≡ cycle xs j k
  unfolding cycle
  cycle-mod xs i j zero e = refl
  cycle-mod xs i j (suc k) e = rw e (
      ap (◌∷◌ (at xs (j % length xs)))
        (cycle-mod xs (i + 1) (j + 1) k (succ_mod (length xs) i j e)))

  cycle-add : (xs : List A) (i k l : ℕ) → cycle xs i (k + l) ≡ cycle xs i k ++ cycle xs (i + k) l
  unfolding cycle
  cycle-add xs i zero l =
      let e : 0 + l ≡ l = omega arith in let f : i + 0 ≡ i = omega arith in rw (e, f)
  cycle-add xs i (suc k) l =
      let e : suc k + l ≡ suc (k + l) = omega arith in
      let f : i + suc k ≡ i + 1 + k = omega arith in
      rw (e, f) (ap (◌∷◌ (at xs (i % length xs))) (cycle-add xs (i + 1) k l))

  at-append : (ps : List A) (y : A) (qs : List A) → at (ps ++ (y ∷ qs)) (length ps) ≡ ok y
  unfolding at
  at-append [] y qs = refl
  at-append (p ∷ ps) y qs = at-append ps y qs

  -- A stretch that does not pass the end.
  cycle-append : (ps ys qs : List A) → cycle (ps ++ (ys ++ qs)) (length ps) (length ys) ≡ map ok ys
  unfolding cycle
  cycle-append ps [] qs = refl
  cycle-append ps (y ∷ ys) qs =
      let lt : length ps < length (ps ++ (y ∷ ys ++ qs)) = rw length-append (omega arith) in
      let e : length ps + 1 ≡ length (ps ++ (y ∷ [])) = rw length-append (omega arith) in
      rw (mod-eq_of_lt lt, at-append ps y (ys ++ qs), e)
        (subst (λ l. ok y ∷ cycle l (length (ps ++ (y ∷ []))) (length ys) ≡ ok y ∷ map ok ys)
          (append_assoc ps (y ∷ []) (ys ++ qs))
          (ap (◌∷◌ (ok y)) (cycle-append (ps ++ (y ∷ [])) ys qs)))

  cycle-rotate :
      (ys zs : List A) → cycle (ys ++ zs) (length ys) (length zs + length ys) ≡ map ok (zs ++ ys)
  cycle-rotate ys zs =
      cycle-add (ys ++ zs) (length ys) (length zs) (length ys)
      ∙ ap₂ ◌++◌
          (subst (λ l. cycle (ys ++ l) (length ys) (length zs) ≡ map ok zs) (append-nil zs)
            (cycle-append ys zs []))
          (cycle-mod (ys ++ zs) (length ys + length zs) 0 (length ys)
              (rw length-append (self_mod (length ys + length zs)))
            ∙ cycle-append [] ys zs)
      ∙ sym (map-append ok zs ys)

  -- One full round from a position inside the list meets each element once, in order.
  pub cycle_round :
      (xs : List A) (i : ℕ)
      → i < length xs
      → cycle xs i (length xs) ≡ map ok (drop i xs ++ take i xs)
  cycle_round xs i h =
      let t : length (take i xs) ≡ i = rw length-take (omega arith) in
      let d : length (drop i xs) + length (take i xs) ≡ length xs =
        rw (length-take, length-drop) (omega arith) in
      let e = cycle-rotate (take i xs) (drop i xs) in rw (take-append-drop i xs, d, t) at e
