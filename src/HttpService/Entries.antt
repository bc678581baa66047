-- ===== src/HttpService/Entries.antt =====
-- http-service/service.go: which entries a store comes to hold.
use simple_go_server.Common.{
  ℕ, ◌≤◌, ◌≡◌, refl, ap, subst, inl, inr, Bool, true, none, some, List, [], ◌∷◌, ◌||◌, ltb, All,
  arith, ◌==◌, nat_eq, string_eq, Bool-cases, Option-cases, length,
}
use simple_go_server.Common.Int.{ℤ, pos, pos_part, add_int, ltb_ℤ, ◌≤ℤ◌}
use simple_go_server.HttpService.{
  max_key_len, printable, bytes_eq, Body, Request, health, get, delete, put, Result, ok, err,
  valid_key, read_limited, Store, checked, service_put, service_delete, handle, serve,
}

printable-All : (key : List ℕ) → printable key ≡ true → All (λ c. (33 ≤ c) × (c ≤ 126)) key
unfolding printable
printable-All [] e = tt
printable-All (c ∷ cs) e = elim (Bool-cases (ltb c 33 || ltb 126 c)) [
  | inl out ↦ absurd (cc (rw (printable, out) at e))
  | inr fits ↦
      let first : (33 ≤ c) × (c ≤ 126) = ground (arith, fits) in
      (first, printable-All cs (rw (printable, fits) at e))
]

-- What the key check lets through.
pub valid_key-bounds :
    (key : List ℕ)
    → valid_key key ≡ true
    → (1 ≤ length key) × (length key ≤ 128) × All (λ c. (33 ≤ c) × (c ≤ 126)) key
unfolding valid_key
valid_key-bounds key e = elim (Bool-cases ((length key == 0) || ltb max_key_len (length key))) [
  | inl out ↦ absurd (cc (rw (valid_key, out) at e))
  | inr fits ↦
      let size : (1 ≤ length key) × (length key ≤ 128) = ground (arith, fits) in
      (size.0, size.1, printable-All key (rw (valid_key, fits) at e))
]

or_raw : List ℕ → Result (List ℕ) → List ℕ
or_raw raw (ok bytes) = bytes
or_raw raw (err e) = raw

ok-path : (bytes raw : List ℕ) → ok bytes ≡ ok raw → bytes ≡ raw
unfolding or_raw
ok-path bytes raw e = ap (or_raw raw) e

module _ {S : Type 0} (m : Store S) (valid_json : List ℕ → Bool) (max_value : ℤ) where
  -- An entry that the service lets in.
  pub record IsEntry (key value : List ℕ) : Type 0 where
    pub some_key : 1 ≤ length key
    pub short_key : length key ≤ 128
    pub printable_key : All (λ c. (33 ≤ c) × (c ≤ 126)) key
    pub good_value : valid_json value ≡ true
    pub small : pos (length value) ≤ℤ max_value

  abbrev IsSound : S → Type 0
  IsSound s = (key value : List ℕ) → m.fetch key s ≡ some value → IsEntry key value

  checked-IsEntry :
      (key : List ℕ) (body : Body) (raw : List ℕ)
      → checked m valid_json max_value key body ≡ ok raw
      → IsEntry key raw
  unfolding checked
  checked-IsEntry key body raw e = elim (Bool-cases (valid_key key)) [
    | inr bad ↦ absurd (cc (rw (checked, bad) at e))
    | inl good ↦ elim (Option-cases (read_limited (pos_part (add_int max_value (pos 1))) body)) [
      | inl broken ↦ absurd (cc (rw (checked, good, broken) at e))
      | inr (bytes, came) ↦ elim (Bool-cases (ltb_ℤ max_value (pos (length bytes)))) [
        | inl large ↦ absurd (cc (rw (checked, good, came, large) at e))
        | inr fits ↦ elim (Bool-cases (valid_json bytes)) [
          | inr invalid ↦ absurd (cc (rw (checked, good, came, fits, invalid) at e))
          | inl valid ↦
              let kept : ok bytes ≡ ok raw = rw (checked, good, came, fits, valid) at e in
              let (some_key, short_key, printable_key) = valid_key-bounds key good in
              subst (IsEntry key) (ok-path bytes raw kept) record {
                some_key = some_key;
                short_key = short_key;
                printable_key = printable_key;
                good_value = valid;
                small = ground (arith, fits);
              }
        ]
      ]
    ]
  ]

  stored-IsSound :
      (key : List ℕ) (body : Body) (s : S) (result : Result (List ℕ))
      → checked m valid_json max_value key body ≡ result
      → IsSound s
      → IsSound
          (elim result as (λ r. S × Result Bool) [
            | err e ↦ (s, err e)
            | ok raw ↦ ((m.store key raw s).0, ok (m.store key raw s).1)
          ]).0
  stored-IsSound key body s (err e) ran sound asked value f = sound asked value f
  stored-IsSound key body s (ok raw) ran sound asked value f = elim (Bool-cases (key == asked)) [
    | inl hit ↦
        let held : some raw ≡ some value = rw (m.fetch-store key asked raw s, hit) at f in
        subst (λ o. elim o [ none ↦ Unit {0} | some v ↦ IsEntry asked v ]) held
          (subst (λ k. IsEntry k raw) ((bytes_eq.beq_iff key asked).0 hit)
            (checked-IsEntry key body raw ran))
    | inr miss ↦ sound asked value (rw (m.fetch-store key asked raw s, miss) at f)
  ]

  removed-IsSound : (key : List ℕ) (s : S) → IsSound s → IsSound (m.remove key s).0
  removed-IsSound key s sound asked value f = elim (Bool-cases (key == asked)) [
    | inl hit ↦ absurd (cc (rw (m.fetch-remove key asked s, hit) at f))
    | inr miss ↦ sound asked value (rw (m.fetch-remove key asked s, miss) at f)
  ]

  delete-IsSound :
      (key : List ℕ) (s : S) → IsSound s → IsSound (service_delete m valid_json max_value key s).0
  unfolding service_delete
  delete-IsSound key s sound = elim (Bool-cases (valid_key key)) [
    | inl good ↦ rw (service_delete, good) (removed-IsSound key s sound)
    | inr bad ↦ rw (service_delete, bad) sound
  ]

  handle-IsSound : (r : Request) (s : S) → IsSound s → IsSound (handle m valid_json max_value r s).0
  unfolding handle service_put
  handle-IsSound health s sound = sound
  handle-IsSound (get key) s sound = sound
  handle-IsSound (put key body) s sound =
      stored-IsSound key body s (checked m valid_json max_value key body) refl sound
  handle-IsSound (delete key) s sound = delete-IsSound key s sound

  serve-IsSound :
      (requests : List Request) (s : S)
      → IsSound s
      → IsSound (serve m valid_json max_value requests s).0
  unfolding serve
  serve-IsSound [] s sound = sound
  serve-IsSound (r ∷ rest) s sound =
      serve-IsSound rest (handle m valid_json max_value r s).0 (handle-IsSound r s sound)

-- Over any store that keeps the laws of a finite map, from a state without entries, whatever the
-- requests are: each entry that the store comes to hold has a key of 1 to 128 bytes from 33 to 126
-- and a value that is valid JSON and within the limit of the service.
pub entries-IsEntry :
    {S : Type 0} (m : Store S) (valid_json : List ℕ → Bool) (max_value : ℤ) (s : S)
    → ((key : List ℕ) → m.fetch key s ≡ none)
    → (requests : List Request) (key value : List ℕ)
    → m.fetch key (serve m valid_json max_value requests s).0 ≡ some value
    → IsEntry m valid_json max_value key value
entries-IsEntry m valid_json max_value s fresh requests =
    serve-IsSound m valid_json max_value requests s (λ key value e. absurd (cc (e, fresh key)))
