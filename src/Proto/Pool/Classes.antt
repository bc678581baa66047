-- ===== src/Proto/Pool/Classes.antt =====
-- pkg/proto/pool.go: which class serves a size, and where a buffer goes back.
use simple_go_server.Common.{
  ℕ, zero, suc, ◌+◌, ◌^◌, ◌≤◌, ◌<◌, ◌≡◌, refl, ap, ◌∙◌, ◌⊎◌, inl, inr, false, Option, some, List,
  [], ◌∷◌, arith, leb, ◌==◌, nat_eq, string_eq, Bool-cases, get_elem?, take, All,
}
use simple_go_server.Proto.Pool.{
  payload_classes, first_fitting, class_index_for_size, last_fitting, class_index_for_cap,
}

-- The first class that holds a size.
record Fitting (size i : ℕ) (cs : List ℕ) (found : Option ℕ) : Type 0 where
  k : ℕ
  c : ℕ
  index : found ≡ some (i + k)
  at : get_elem? cs k ≡ some c
  holds : size ≤ c
  before : All (λ d. d < size) (take k cs)

first_fitting-cases :
    (size i : ℕ) (cs : List ℕ)
    → (All (λ d. d < size) cs) ⊎ Fitting size i cs (first_fitting size i cs)
unfolding first_fitting
first_fitting-cases size i [] = inl tt
first_fitting-cases size i (c ∷ cs) = elim (Bool-cases (leb size c)) [
  | inl hit ↦ inr record {
    k = 0;
    c = c;
    index = rw (first_fitting, hit) (ap some (omega arith));
    at = refl;
    holds = ground (arith, hit);
    before = tt;
  }
  | inr miss ↦
      let small : c < size = ground (arith, miss) in
      elim (first_fitting-cases size (i + 1) cs) [
        | inl all ↦ inl (small, all)
        | inr f ↦ inr record {
          k = suc f.k;
          c = f.c;
          index = rw (first_fitting, miss) (f.index ∙ ap some (omega arith));
          at = f.at;
          holds = f.holds;
          before = (small, f.before);
        }
      ]
]

own_class : (i c : ℕ) → get_elem? payload_classes i ≡ some c → class_index_for_cap c ≡ some i
unfolding class_index_for_cap last_fitting
own_class zero c e = ground (arith, e)
own_class (suc zero) c e = ground (arith, e)
own_class (suc (suc zero)) c e = ground (arith, e)
own_class (suc (suc (suc zero))) c e = ground (arith, e)
own_class (suc (suc (suc (suc zero)))) c e = ground (arith, e)
own_class (suc (suc (suc (suc (suc zero))))) c e = ground (arith, e)
own_class (suc (suc (suc (suc (suc (suc zero)))))) c e = ground (arith, e)
own_class (suc (suc (suc (suc (suc (suc (suc n))))))) c e = absurd (cc e)

-- For each payload size from 1 to the frame limit there is a class, the least one that holds the size,
-- and a buffer of exactly that class's capacity goes back to the same class.
pub size_class-IsLeast :
    (size : ℕ)
    → 0 < size
    → size ≤ 2 ^ 20
    → (i : ℕ) × (c : ℕ) × (class_index_for_size size ≡ some i)
      × (get_elem? payload_classes i ≡ some c)
      × (size ≤ c)
      × All (λ d. d < size) (take i payload_classes)
      × (class_index_for_cap c ≡ some i)
unfolding class_index_for_size
size_class-IsLeast size h k = elim (first_fitting-cases size 0 payload_classes) [
  | inl all ↦ absurd (omega (arith, all.1.1.1.1.1.1.0, k))
  | inr f ↦
      let positive : size == 0 ≡ false = ground (arith, h) in
      (
        f.k,
        f.c,
        rw (class_index_for_size, positive) (f.index ∙ ap some (omega arith)),
        f.at,
        f.holds,
        f.before,
        own_class f.k f.c f.at,
      )
]
