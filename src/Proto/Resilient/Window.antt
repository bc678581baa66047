-- ===== src/Proto/Resilient/Window.antt =====
-- pkg/proto/resilient.go: one topic's cursor and accepted set under acknowledgePublish.
use simple_go_server.Common.{
  ℕ, zero, suc, ◌+◌, ◌^◌, ◌≤◌, ◌<◌, String, ◌≡◌, refl, ap, ◌∙◌, inl, inr, Bool, true, ◌||◌, List,
  [], ◌∷◌, arith, leb, ◌==◌, nat_eq, string_eq, Bool-cases, length,
}
use simple_go_server.Common.Dict.{elem, add, remove, elem-add, elem-remove, length-remove-lt}
use simple_go_server.Proto.Resilient.{Replay, cursor, beyond, next_seq, advance, acknowledge_window}

abbrev pub window : Replay → String → ℕ × List ℕ
window rc topic = (cursor rc topic, beyond rc topic)

-- Whether a number counts as received.
abbrev pub seen : ℕ × List ℕ → ℕ → Bool
seen (c, pending) x = leb x c || elem x pending

-- The numbers beyond the cursor leave a gap behind it, and all are uint32.
pub record IsTight (w : ℕ × List ℕ) : Type 0 where
  pub cursor_fits : w.0 < 2 ^ 32
  pub gap : (x : ℕ) → elem x w.1 ≡ true → (w.0 + 1 < x) × (x < 2 ^ 32)

-- All of a set lies beyond a number.
abbrev Beyond : ℕ → List ℕ → Type 0
Beyond c pending = (y : ℕ) → elem y pending ≡ true → (c < y) × (y < 2 ^ 32)

next_seq-suc : (c : ℕ) → c < 2 ^ 32 → next_seq c ≡ c + 1
next_seq-suc c h = omega arith

Beyond-remove :
    (c : ℕ) (pending : List ℕ) → Beyond c pending → Beyond (c + 1) (remove (c + 1) pending)
Beyond-remove c pending g y e = ground (arith, elem-remove (c + 1) y pending, g y)

seen-remove :
    (c x : ℕ) (pending : List ℕ)
    → elem (c + 1) pending ≡ true
    → seen (c + 1, remove (c + 1) pending) x ≡ seen (c, pending) x
seen-remove c x pending e = elim (Bool-cases (c + 1 == x)) [
  | inl same ↦
      let q : c + 1 ≡ x = ground arith in
      let e' : elem x pending ≡ true = rw q at e in ground (arith, elem-remove (c + 1) x pending)
  | inr other ↦ ground (arith, elem-remove (c + 1) x pending)
]

advance-seen :
    (fuel c : ℕ) (pending : List ℕ) (x : ℕ)
    → c < 2 ^ 32
    → Beyond c pending
    → seen (advance fuel c pending) x ≡ seen (c, pending) x
unfolding advance
advance-seen zero c pending x h g = refl
advance-seen (suc fuel) c pending x h g =
    rw (next_seq-suc c h) (elim (Bool-cases (elem (c + 1) pending)) [
      | inl hit ↦ rw hit (
          advance-seen fuel (c + 1) (remove (c + 1) pending) x (omega (arith, g (c + 1) hit))
            (Beyond-remove c pending g)
          ∙ seen-remove c x pending hit)
      | inr miss ↦ rw miss refl
    ])

advance-IsTight :
    (fuel c : ℕ) (pending : List ℕ)
    → length pending ≤ fuel
    → c < 2 ^ 32
    → Beyond c pending
    → IsTight (advance fuel c pending)
unfolding advance
advance-IsTight zero c [] l h g = record {
  cursor_fits = h;
  gap = λ x e. absurd (unfold elem in cc e);
}
advance-IsTight zero c (y ∷ ys) l h g = absurd (omega arith)
advance-IsTight (suc fuel) c pending l h g =
    rw (next_seq-suc c h) (elim (Bool-cases (elem (c + 1) pending)) [
      | inl hit ↦ rw hit (
          advance-IsTight fuel (c + 1) (remove (c + 1) pending)
            (omega (arith, length-remove-lt (c + 1) pending hit)) (omega (arith, g (c + 1) hit))
            (Beyond-remove c pending g))
      | inr miss ↦ rw miss (record { cursor_fits = h; gap = λ y e. ground (arith, g y) })
    ])

-- The three ways of an acknowledgement: an old number, one that leaves a gap, the next one.
data Ack (c : ℕ) (pending : List ℕ) (seq : ℕ) : Type 0 where
  old : seq ≤ c → acknowledge_window (c, pending) seq ≡ (c, pending) → Ack c pending seq
  ahead :
      c + 1 < seq → acknowledge_window (c, pending) seq ≡ (c, add seq pending) → Ack c pending seq
  next :
      seq ≡ c + 1
      → acknowledge_window (c, pending) seq ≡ advance (length pending) (c + 1) pending
      → Ack c pending seq

ack : (c : ℕ) (pending : List ℕ) (seq : ℕ) → c < 2 ^ 32 → Ack c pending seq
unfolding acknowledge_window
ack c pending seq h = elim (Bool-cases (leb seq c)) [
  | inl le ↦ old (ground arith) (rw le refl)
  | inr gt ↦ elim (Bool-cases (seq == c + 1)) [
    | inl eq ↦
        let q : seq ≡ c + 1 = ground arith in
        next q (rw (gt, next_seq-suc c h, eq) (ap (λ z. advance (length pending) z pending) q))
    | inr ne ↦ ahead (ground arith) (rw (gt, next_seq-suc c h, ne) refl)
  ]
]

Beyond-gap : (c : ℕ) (pending : List ℕ) → IsTight (c, pending) → Beyond (c + 1) pending
Beyond-gap c pending t y e = ground (arith, t.gap y e)

-- An acknowledged number counts as received from then on, and no other does that did not before.
pub acknowledge_window-seen :
    (w : ℕ × List ℕ) (seq x : ℕ)
    → seq < 2 ^ 32
    → IsTight w
    → seen (acknowledge_window w seq) x ≡ (seq == x || seen w x)
acknowledge_window-seen (c, pending) seq x s t = elim (ack c pending seq t.cursor_fits) [
  | old le q ↦ rw q (ground arith)
  | ahead lt q ↦ rw q (ground (arith, elem-add seq x pending))
  | next e q ↦
      rw (q, e)
        (advance-seen (length pending) (c + 1) pending x (omega arith) (Beyond-gap c pending t)
          ∙ ground arith)
]

pub acknowledge_window-IsTight :
    (w : ℕ × List ℕ) (seq : ℕ) → seq < 2 ^ 32 → IsTight w → IsTight (acknowledge_window w seq)
acknowledge_window-IsTight (c, pending) seq s t = elim (ack c pending seq t.cursor_fits) [
  | old le q ↦ rw q t
  | ahead lt q ↦ rw q (record {
    cursor_fits = t.cursor_fits;
    gap = λ x e. ground (arith, elem-add seq x pending, t.gap x);
  })
  | next e q ↦ rw q (
      advance-IsTight (length pending) (c + 1) pending (omega arith) (omega arith)
        (Beyond-gap c pending t))
]
