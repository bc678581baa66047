-- ===== src/Balancer/Adaptive/Lowest.antt =====
-- internal/balancer/adaptive.go: the loads behind the backend that Next returns.
use simple_go_server.Common.{
  ℕ, suc, ◌+◌, ◌<◌, String, ◌≡◌, refl, sym, ◌∙◌, subst, inl, inr, Bool, true, false, some, List, [],
  ◌∷◌, arith, if◌then◌else◌, ◌==◌, nat_eq, string_eq, Bool-cases, length, get_elem?,
}
use native.Mathlib.Decide.{dec_lt}
use simple_go_server.Balancer.{ok}
use simple_go_server.Balancer.Adaptive.{Adaptive, scan, next}

-- What the comparisons of loads have to be: those of numbers, with no NaN among them.
pub record IsOrder {L : Type 0} (lt eq : L → L → Bool) : Type 0 where
  pub irreflexive : (a : L) → lt a a ≡ false
  pub transitive : (a b c : L) → lt a b ≡ true → lt b c ≡ true → lt a c ≡ true
  pub eq_right : (a b c : L) → eq a b ≡ true → lt c a ≡ lt c b

module _ {T L : Type 0} (lt eq : L → L → Bool) (o : IsOrder lt eq) (load : ℕ → L)
    (draw : ℕ → ℕ) where
  -- The picked element is that of some position, and no load read up to `n` is below its own.
  abbrev pub Lowest : List T → T → ℕ → Type 0
  Lowest bs t n =
      (j : ℕ) × (get_elem? bs j ≡ some t) × ((k : ℕ) → k < n → lt (load k) (load j) ≡ false)

  -- The same of the loop's state, where `best` compares as the picked element's load.
  abbrev Good : List T → L → T → ℕ → Type 0
  Good bs best t n =
      (j : ℕ) × (get_elem? bs j ≡ some t)
      × ((c : L) → lt c (load j) ≡ lt c best)
      × ((k : ℕ) → k < n → lt (load k) best ≡ false)

  here :
      (bs xs : List T) (x : T) (i : ℕ)
      → ((k : ℕ) → get_elem? (x ∷ xs) k ≡ get_elem? bs (i + k))
      → get_elem? bs i ≡ some x
  here bs xs x i at = subst (λ n. get_elem? bs n ≡ some x) (omega arith) (sym (at 0))

  there :
      (bs xs : List T) (x : T) (i : ℕ)
      → ((k : ℕ) → get_elem? (x ∷ xs) k ≡ get_elem? bs (i + k))
      → (k : ℕ) → get_elem? xs k ≡ get_elem? bs (i + 1 + k)
  there bs xs x i at k = subst (λ n. get_elem? xs k ≡ get_elem? bs n) (omega arith) (at (suc k))

  -- A load below the best so far becomes the best.
  Good-below :
      (bs xs : List T) (best : L) (t x : T) (i : ℕ)
      → get_elem? bs i ≡ some x
      → lt (load i) best ≡ true
      → Good bs best t i
      → Good bs (load i) x (i + 1)
  Good-below bs xs best t x i g below (j, _, same, low) = (
    i,
    g,
    (λ c. refl),
    λ k h. elim (Bool-cases (lt (load k) (load i))) [
      | inl less ↦ elim (dec_lt k i) [
        | yes p ↦ ground (arith, o.transitive (load k) (load i) best, low k p)
        | no p ↦ let e : k ≡ i = omega arith in rw e (o.irreflexive (load i))
      ]
      | inr no_less ↦ no_less
    ],
  )

  -- A load that is not below it leaves it.
  Good-above :
      (bs : List T) (best : L) (t : T) (i : ℕ)
      → lt (load i) best ≡ false
      → Good bs best t i
      → Good bs best t (i + 1)
  Good-above bs best t i above (j, g, same, low) = (
    j,
    g,
    same,
    λ k h. elim (dec_lt k i) [ yes p ↦ low k p | no p ↦ let e : k ≡ i = omega arith in rw e above ],
  )

  -- On a tie either element will do.
  Good-tie :
      (bs : List T) (best : L) (t x : T) (i : ℕ) (take_it : Bool)
      → get_elem? bs i ≡ some x
      → lt (load i) best ≡ false
      → eq (load i) best ≡ true
      → Good bs best t i
      → Good bs best (if take_it then x else t) (i + 1)
  Good-tie bs best t x i true g above tie good =
      let (_, _, _, low') = Good-above bs best t i above good in
      let (_, _, same, _) = good in (i, g, (λ c. o.eq_right (load i) best c tie), low')
  Good-tie bs best t x i false g above tie good = Good-above bs best t i above good

  scan-Good :
      (bs xs : List T) (best : L) (t : T) (ties i : ℕ)
      → ((k : ℕ) → get_elem? xs k ≡ get_elem? bs (i + k))
      → Good bs best t i
      → Lowest bs (scan lt eq load draw best t ties i xs) (i + length xs)
  unfolding scan
  scan-Good bs [] best t ties i at (j, g, same, low) =
      (j, g, λ k h. same (load k) ∙ low k (omega arith))
  scan-Good bs (x ∷ xs) best t ties i at good =
      let g = here bs xs x i at in
      let at' = there bs xs x i at in
      let n : i + 1 + length xs ≡ i + suc (length xs) = omega arith in
      subst (Lowest bs (scan lt eq load draw best t ties i (x ∷ xs))) n
        (elim (Bool-cases (lt (load i) best)) [
          | inl below ↦
              rw (below, scan)
                (scan-Good bs xs (load i) x 1 (i + 1) at'
                  (Good-below bs xs best t x i g below good))
          | inr above ↦ elim (Bool-cases (eq (load i) best)) [
            | inl tie ↦
                rw (above, tie, scan)
                  (scan-Good bs xs best (if draw i == 0 then x else t) (ties + 1) (i + 1) at'
                    (Good-tie bs best t x i (draw i == 0) g above tie good))
            | inr other ↦
                rw (above, other, scan)
                  (scan-Good bs xs best t ties (i + 1) at' (Good-above bs best t i above good))
          ]
        ])

  Good-first : (x : T) (xs : List T) → Good (x ∷ xs) (load 0) x 1
  Good-first x xs =
      (0, refl, (λ c. refl), λ k h. let e : k ≡ 0 = omega arith in rw e (o.irreflexive (load 0)))

  next_list :
      (s : Adaptive T) (key : String) (bs : List T)
      → s.backends ≡ bs
      → 0 < length bs
      → (t : T) × (next lt eq load draw s key ≡ ok t) × Lowest bs t (length bs)
  unfolding next scan
  next_list s key [] e h = elim h [ ]
  next_list s key (x ∷ []) e h = (
    x,
    ground arith,
    (0, refl, λ k p. let z : k ≡ 0 = omega arith in rw z (o.irreflexive (load 0))),
  )
  next_list s key (x ∷ y ∷ ys) e h =
      let n : 1 + length (y ∷ ys) ≡ length (x ∷ y ∷ ys) = omega arith in
      let picked : T = scan lt eq load draw (load 0) x 1 1 (y ∷ ys) in
      let low : Lowest (x ∷ y ∷ ys) picked (1 + length (y ∷ ys)) =
        scan-Good (x ∷ y ∷ ys) (y ∷ ys) (load 0) x 1 1
          (λ k. let z : 1 + k ≡ suc k = omega arith in rw z refl) (Good-first x (y ∷ ys)) in
      (picked, rw (e, next) (ground arith), subst (Lowest (x ∷ y ∷ ys) picked) n low)

  -- With backends registered, and loads that compare as numbers do, `next` returns the backend at
  -- some position, and no backend's observed load is below the load observed at that position,
  -- whatever the draws that break ties.
  pub next-Lowest :
      (s : Adaptive T) (key : String)
      → 0 < length s.backends
      → (t : T) × (next lt eq load draw s key ≡ ok t) × Lowest s.backends t (length s.backends)
  next-Lowest s key h = next_list s key s.backends refl h
