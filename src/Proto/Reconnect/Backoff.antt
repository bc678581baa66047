-- ===== src/Proto/Reconnect/Backoff.antt =====
-- pkg/proto/resilient.go: the waits of reconnectLoop.
use simple_go_server.Common.{
  ℕ, zero, suc, ◌+◌, ◌*◌, ◌^◌, ◌<◌, min, ◌≡◌, sym, ap, ◌∙◌, inl, inr, arith, leb, nat_eq, string_eq,
  Bool-cases,
}
use simple_go_server.Common.Int.{pos, add_int-pos}
use simple_go_server.Proto.Reconnect.{
  ResilientOptions, backoff_start, backoff_max, next_backoff, backoff_from, wait,
}

next_backoff-pos : (m b : ℕ) → b < 2 ^ 62 → next_backoff (pos m) (pos b) ≡ pos (min (b + b) m)
unfolding next_backoff
next_backoff-pos m b h = rw (next_backoff, add_int-pos b b (omega (arith, h))) (ground arith)

doubled : (b y m : ℕ) → min (min (b + b) m * suc y) m ≡ min (b * (suc y * 2)) m
doubled b y m = elim (Bool-cases (leb (b + b) m)) [
  | inl under ↦ let same : min (b + b) m ≡ b + b = ground (arith, under) in rw same (omega arith)
  | inr over ↦
      let capped : min (b + b) m ≡ m = ground (arith, over) in
      let beyond : m < b + b = ground (arith, over) in rw capped (omega (arith, beyond))
]

positive : (n : ℕ) → (y : ℕ) × (2 ^ n ≡ suc y)
positive zero = (0, omega arith)
positive (suc n) = let (y, e) = positive n in (suc (y + y), omega (arith, e))

backoff_from-pos :
    (m : ℕ)
    → m < 2 ^ 62
    → (n b : ℕ) → b < 2 ^ 62
    → backoff_from (pos m) (pos b) (suc n) ≡ pos (min (b * 2 ^ suc n) m)
unfolding backoff_from
backoff_from-pos m bound zero b h = next_backoff-pos m b h ∙ ap pos (omega arith)
backoff_from-pos m bound (suc n) b h =
    let (y, e) = positive (suc n) in
    let twice : 2 ^ suc (suc n) ≡ suc y * 2 = omega (arith, e) in
    let same : min (min (b + b) m * 2 ^ suc n) m ≡ min (b * 2 ^ suc (suc n)) m =
      ap (λ x. min (min (b + b) m * x) m) e ∙ doubled b y m ∙ ap (λ x. min (b * x) m) (sym twice) in
    ap (λ w. backoff_from (pos m) w (suc n)) (next_backoff-pos m b h)
    ∙ backoff_from-pos m bound n (min (b + b) m) (omega (arith, bound))
    ∙ ap pos same

-- With a first wait and a cap that are over zero and below 2^62 nanoseconds: the first wait of
-- reconnectLoop is the one of the options, whatever the cap is, and the wait after each further failed
-- attempt is the first doubled as often as attempts failed, or the cap if that is less.
pub wait_doubles :
    (o : ResilientOptions) (first cap : ℕ)
    → o.start ≡ pos (suc first)
    → o.max ≡ pos (suc cap)
    → suc first < 2 ^ 62
    → suc cap < 2 ^ 62
    → (wait o 0 ≡ pos (suc first))
      × ((n : ℕ) → wait o (suc n) ≡ pos (min (suc first * 2 ^ suc n) (suc cap)))
unfolding backoff_from
wait_doubles o first cap e f below bound =
    let start : backoff_start o ≡ pos (suc first) = rw e (ground arith) in
    let max : backoff_max o ≡ pos (suc cap) = rw f (ground arith) in
    (
      start,
      λ n.
          ap (λ w. backoff_from (backoff_max o) w (suc n)) start
          ∙ ap (λ m. backoff_from m (pos (suc first)) (suc n)) max
          ∙ backoff_from-pos (suc cap) bound n (suc first) below,
    )
