-- ===== src/Proto/Pool/Releases.antt =====
-- pkg/proto/pool.go: what a released frame puts back, and where.
use simple_go_server.Common.{
  ℕ, suc, ◌+◌, ◌^◌, ◌≤◌, ◌<◌, ◌≡◌, refl, sym, ◌∙◌, subst, ◌⊎◌, inl, inr, Bool, true, false, ◌&&◌,
  ◌||◌, Option, none, some, List, [], ◌∷◌, ◌++◌, arith, ltb, leb, if◌then◌else◌, ◌==◌, nat_eq,
  string_eq, Bool-cases, get_elem?, drop, append-nil, All, All-append,
}
use simple_go_server.Proto.Pool.{
  payload_classes, last_fitting, class_index_for_cap, Slice, PooledFrame, Put, put_frame, put_cell,
  boxed, put_payload_array, same_backing, release_payload, release,
}

-- A class that is missing, or over a capacity.
abbrev pub Over : ℕ → Option ℕ → Type 0
Over capacity none = Unit {0}
Over capacity (some c) = capacity < c

-- The class of a put is the last one within the capacity of what is put there.
abbrev pub IsWithin : Put → Type 0
IsWithin put_frame = Unit {0}
IsWithin (put_cell i s) =
    (c : ℕ) × (get_elem? payload_classes i ≡ some c)
    × (c ≤ s.capacity)
    × Over s.capacity (get_elem? payload_classes (suc i))

-- How often an array is put, and how often a frame.
unfoldable pub times : ℕ → List Put → ℕ
times array [] = 0
times array (put_frame ∷ puts) = times array puts
times array (put_cell i s ∷ puts) =
    let rest = times array puts in if s.array == array then suc rest else rest

unfoldable pub frames : List Put → ℕ
frames [] = 0
frames (put_frame ∷ puts) = suc (frames puts)
frames (put_cell i s ∷ puts) = frames puts

-- A slice of an array that the classes can serve: from 256 bytes to 2^20.
abbrev pub serves : ℕ → Option Slice → Bool
serves array none = false
serves array (some s) = (s.array == array) && (leb 256 s.capacity && leb s.capacity (2 ^ 20))

-- The payload and the cell of a frame are not empty, and slices of one array have its capacity.
abbrev pub IsOwned : Option Slice → Option Slice → Type 0
IsOwned none cell = Unit {0}
IsOwned (some s) none = Unit {0}
IsOwned (some s) (some cell) =
    (0 < s.len) × (0 < cell.len) × (s.array ≡ cell.array → s.capacity ≡ cell.capacity)

-- A class of the list, or what was found before; the one behind it is too large.
last_fitting-within :
    (capacity i j : ℕ) (found : Option ℕ) (cs : List ℕ)
    → last_fitting capacity i found cs ≡ some j
    → ((found ≡ some j) × Over capacity (get_elem? cs 0))
      ⊎ ((k : ℕ) × (c : ℕ) × (j ≡ i + k)
          × (get_elem? cs k ≡ some c)
          × (c ≤ capacity)
          × Over capacity (get_elem? cs (suc k)))
unfolding last_fitting
last_fitting-within capacity i j found [] e = inl (e, tt)
last_fitting-within capacity i j found (c ∷ cs) e = elim (Bool-cases (ltb capacity c)) [
  | inl hit ↦ inl (rw (last_fitting, hit) at e, ground (arith, hit))
  | inr miss ↦
      elim (last_fitting-within capacity (i + 1) j (some i) cs (rw (last_fitting, miss) at e)) [
        | inl (here, over) ↦ inr (0, c, ground (arith, here), refl, ground (arith, miss), over)
        | inr (k, d, index, at, within, over) ↦
            inr (suc k, d, omega (arith, index), at, within, over)
      ]
]

cap_class-within :
    (capacity j : ℕ)
    → class_index_for_cap capacity ≡ some j
    → (c : ℕ) × (get_elem? payload_classes j ≡ some c)
      × (c ≤ capacity)
      × Over capacity (get_elem? payload_classes (suc j))
unfolding class_index_for_cap
cap_class-within capacity j e = elim (Bool-cases (ltb capacity 256 || ltb 1048576 capacity)) [
  | inl out ↦ absurd (cc (rw (class_index_for_cap, out) at e))
  | inr fits ↦
      elim (last_fitting-within capacity 0 j none payload_classes
        (rw (class_index_for_cap, fits) at e)) [
          | inl (nowhere, over) ↦ absurd (cc nowhere)
          | inr (k, c, index, at, within, over) ↦
              let same : k ≡ j = omega (arith, index) in
              (
                c,
                subst (λ i. get_elem? payload_classes i ≡ some c) same at,
                within,
                subst (λ i. Over capacity (get_elem? payload_classes (suc i))) same over,
              )
        ]
]

-- What was found is not lost.
last_fitting-some :
    (capacity i j : ℕ) (cs : List ℕ) → (k : ℕ) × (last_fitting capacity i (some j) cs ≡ some k)
unfolding last_fitting
last_fitting-some capacity i j [] = (j, refl)
last_fitting-some capacity i j (c ∷ cs) = elim (Bool-cases (ltb capacity c)) [
  | inl hit ↦ (j, rw (last_fitting, hit) refl)
  | inr miss ↦
      let (k, e) = last_fitting-some capacity (i + 1) i cs in (k, rw (last_fitting, miss) e)
]

-- Every capacity within the bounds has a class, and no other.
cap_class-cases :
    (capacity : ℕ)
    → (((leb 256 capacity && leb capacity (2 ^ 20)) ≡ false)
        × (class_index_for_cap capacity ≡ none))
      ⊎ (((leb 256 capacity && leb capacity (2 ^ 20)) ≡ true)
          × ((i : ℕ) × (class_index_for_cap capacity ≡ some i)))
unfolding class_index_for_cap last_fitting
cap_class-cases capacity = elim (Bool-cases (ltb capacity 256 || ltb 1048576 capacity)) [
  | inl out ↦ inl (ground (arith, out), rw (class_index_for_cap, out) refl)
  | inr fits ↦
      let large : ltb capacity 256 ≡ false = ground (arith, fits) in
      let (i, e) = last_fitting-some capacity 1 0 (drop 1 payload_classes) in
      inr (ground (arith, fits), (i, rw (class_index_for_cap, fits, last_fitting, large) e))
]

times-append :
    (array : ℕ) (xs ys : List Put) → times array (xs ++ ys) ≡ times array xs + times array ys
unfolding times
times-append array [] ys = omega arith
times-append array (put_frame ∷ xs) ys = times-append array xs ys
times-append array (put_cell i s ∷ xs) ys = elim (Bool-cases (s.array == array)) [
  | inl hit ↦ rw (times, hit) (omega (arith, times-append array xs ys))
  | inr miss ↦ rw (times, miss) (times-append array xs ys)
]

frames-append : (xs ys : List Put) → frames (xs ++ ys) ≡ frames xs + frames ys
unfolding frames
frames-append [] ys = omega arith
frames-append (put_frame ∷ xs) ys = omega (arith, frames-append xs ys)
frames-append (put_cell i s ∷ xs) ys = frames-append xs ys

abbrev one_if : Bool → ℕ
one_if test = if test then 1 else 0

-- Puts without a frame, among which an array is as often as a test wants.
abbrev Puts : ℕ → Bool → List Put → Type 0
Puts array wanted puts = All IsWithin puts × (frames puts ≡ 0) × (times array puts ≡ one_if wanted)

append-Puts :
    (array : ℕ) (one other : Bool) (xs ys : List Put)
    → Puts array one xs
    → Puts array other ys
    → (one ≡ true → other ≡ true → ⊥)
    → Puts array (one || other) (xs ++ ys)
append-Puts array one other xs ys (w, f, t) (w', f', t') apart = (
  All-append IsWithin xs ys w w',
  omega (arith, frames-append xs ys, f, f'),
  times-append array xs ys ∙ ground (arith, t, t', apart),
)

put_array-Puts :
    (array : ℕ) (arr : Slice) (cell : Option Slice)
    → (boxed arr cell).array ≡ arr.array
    → (boxed arr cell).capacity ≡ arr.capacity
    → Puts array (serves array (some arr)) (put_payload_array (some arr) cell)
unfolding put_payload_array times frames
put_array-Puts array arr cell same size = elim (cap_class-cases arr.capacity) [
  | inl (out, nowhere) ↦ rw (put_payload_array, nowhere) (tt, refl, ground (arith, out))
  | inr (fits, (i, e)) ↦
      let (c, at, within, over) = cap_class-within arr.capacity i e in
      rw (put_payload_array, e)
        (((c, at, rw size within, rw size over), tt), refl, rw (same, fits) (ground arith))
]

payload-Puts :
    (array : ℕ) (payload cell : Option Slice)
    → IsOwned payload cell
    → Puts array (serves array payload || serves array cell) (release_payload payload cell)
unfolding release_payload same_backing put_payload_array times frames
payload-Puts array none none owned = (tt, refl, refl)
payload-Puts array (some s) none owned =
    let (w, f, t) = put_array-Puts array s none refl refl in (w, f, ground (arith, t))
payload-Puts array none (some cell) owned =
    rw (append-nil (put_payload_array (some cell) (some cell)))
      (put_array-Puts array cell (some cell) refl refl)
payload-Puts array (some s) (some cell) (some_payload, some_cell, one_array) =
    elim (Bool-cases (s.array == cell.array)) [
      | inl hit ↦
          let same : s.array ≡ cell.array = (nat_eq.beq_iff s.array cell.array).0 hit in
          let size = one_array same in
          let backing : same_backing s cell ≡ true = ground (arith, hit, some_payload, some_cell) in
          let (w, f, t) = put_array-Puts array s (some cell) (sym same) (sym size) in
          rw (release_payload, backing) (w, f, rw (sym same, sym size) (ground (arith, t)))
      | inr miss ↦
          let backing : same_backing s cell ≡ false = ground (arith, miss) in
          let (w, f, t) =
            append-Puts array (serves array (some cell)) (serves array (some s)) _ _
              (put_array-Puts array cell (some cell) refl refl)
              (put_array-Puts array s none refl refl)
              (λ one other. absurd (ground (arith, one, other, miss))) in
          rw (release_payload, backing) (w, f, ground (arith, t))
    ]

-- A released frame with a payload and a cell that are not empty, where slices of one array have one
-- capacity: each array of 256 to 2^20 bytes that the payload or the cell views is put back once, no
-- other array is, each into the last class that its capacity can serve; the frame itself is put back
-- once; and a second release puts nothing back.
pub release_returns_each :
    (f : PooledFrame)
    → f.from_pool ≡ true
    → f.released ≡ false
    → IsOwned f.payload f.payload_cell
    → All IsWithin (release f).1
      × (frames (release f).1 ≡ 1)
      × ((array : ℕ)
          → times array (release f).1
            ≡ (if serves array f.payload || serves array f.payload_cell then 1 else 0))
      × ((release (release f).0).1 ≡ [])
unfolding release times frames
release_returns_each f pooled live owned =
    let ran = release_payload f.payload f.payload_cell in
    let puts : (array : ℕ)
        → Puts array (serves array f.payload || serves array f.payload_cell) ran =
      λ array. payload-Puts array f.payload f.payload_cell owned in
    rw (pooled, live, release)
      (
        All-append IsWithin ran (put_frame ∷ []) (puts 0).0 (tt, tt),
        omega (arith, frames-append ran (put_frame ∷ []), (puts 0).1),
        λ array. times-append array ran (put_frame ∷ []) ∙ omega (arith, (puts array).2),
        refl,
      )
