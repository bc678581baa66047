-- ===== src/HttpService.antt =====
-- http-service: the routes of handler.go, the rules of service.go and the store of store.go. A string is
-- its bytes. `json.Valid` is the parameter `valid_json`; the store is an interface with laws.
pub mod Memory
pub mod Contract
pub mod Entries
pub mod Putting
pub mod Tests
use simple_go_server.Common.{
  ℕ, zero, suc, ◌+◌, ◌-◌, ◌*◌, ◌/◌, ◌%◌, ◌^◌, ◌≤◌, ◌<◌, min, String, ◌≡◌, refl, sym, ap, ◌∙◌, subst,
  ◌≢◌, ◌↔◌, ◌⊎◌, inl, inr, Bool, true, false, not, ◌&&◌, ◌||◌, Option, none, some, List, [], ◌∷◌,
  ◌++◌, map, append-nil, append_assoc, arith, ltb, leb, if◌then◌else◌, Eq, ◌==◌, nat_eq, string_eq,
  nat_beq_iff, beq_refl, Bool-cases, Option-cases, length, get_elem?, get_or, take, drop, All,
  length-append, length-take, length-drop, take-append-drop, take-length-append, drop-length-append,
  get_elem?-lt, lt_of_get_elem?, All-append, All-get, take_all, drop_all,
}
use simple_go_server.Common.Int.{ℤ, pos, pos_part, add_int, ltb_ℤ}

abbrev pub same_bytes : List ℕ → List ℕ → Bool
same_bytes [] [] = true
same_bytes [] (y ∷ ys) = false
same_bytes (x ∷ xs) [] = false
same_bytes (x ∷ xs) (y ∷ ys) = if x == y then same_bytes xs ys else false

same_bytes_sound : (xs ys : List ℕ) → same_bytes xs ys ≡ true → xs ≡ ys
same_bytes_sound [] [] e = refl
same_bytes_sound [] (y ∷ ys) e = absurd (cc e)
same_bytes_sound (x ∷ xs) [] e = absurd (cc e)
same_bytes_sound (x ∷ xs) (y ∷ ys) e = elim (Bool-cases (x == y)) [
  | inl hit ↦
      let tails = same_bytes_sound xs ys (rw hit at e) in
      ap (◌∷◌ x) tails ∙ ap (λ c. c ∷ ys) ((nat_eq.beq_iff x y).0 hit)
  | inr miss ↦ absurd (cc (rw miss at e))
]

same_bytes_refl : (xs : List ℕ) → same_bytes xs xs ≡ true
same_bytes_refl [] = refl
same_bytes_refl (x ∷ xs) = rw (beq_refl x) (same_bytes_refl xs)

pub same_bytes_iff : (xs ys : List ℕ) → (same_bytes xs ys ≡ true) ↔ (xs ≡ ys)
same_bytes_iff xs ys =
    (same_bytes_sound xs ys, λ e. subst (λ zs. same_bytes xs zs ≡ true) e (same_bytes_refl xs))

-- Two keys are one if they have the same bytes.
instance abbrev pub bytes_eq : Eq (List ℕ)
bytes_eq = record { beq = same_bytes; beq_iff = same_bytes_iff }

-- A body: the bytes that come, and whether it breaks off behind them.
pub record Body : Type 0 where
  pub bytes : List ℕ
  pub breaks : Bool

pub data Request : Type 0 where
  health : Request
  get delete : List ℕ → Request
  put : List ℕ → Body → Request

pub data Error : Type 0 where
  not_found key_invalid value_invalid value_too_large read_failed : Error

pub data Result {ℓ} (A : Type ℓ) : Type ℓ where
  ok : A → Result A
  err : Error → Result A

-- The status code, and the stored value if that is what the body is.
pub record Reply : Type 0 where
  pub code : ℕ
  pub value : Option (List ℕ)

abbrev pub max_key_len : ℕ
max_key_len = 128

-- '!' and '~'.
unfoldable pub printable : List ℕ → Bool
printable [] = true
printable (c ∷ cs) = if ltb c 33 || ltb 126 c then false else printable cs

unfoldable pub valid_key : List ℕ → Bool
valid_key key = if (length key == 0) || ltb max_key_len (length key) then false else printable key

-- io.ReadAll of an io.LimitReader: none if the body breaks off before the limit.
unfoldable pub read_limited : ℕ → Body → Option (List ℕ)
read_limited limit body =
    if leb limit (length body.bytes)
    then some (take limit body.bytes)
    else (if body.breaks then none else some body.bytes)

abbrev pub status : Error → ℕ
status not_found = 404
status key_invalid = 400
status value_invalid = 400
status value_too_large = 413
status read_failed = 500

abbrev pub write_error : Error → Reply
write_error e = record { code = status e; value = none }

abbrev pub put_reply : Result Bool → Reply
put_reply (err e) = write_error e
put_reply (ok created) = record { code = if created then 201 else 200; value = none }

abbrev pub delete_reply : Result Bool → Reply
delete_reply (err e) = write_error e
delete_reply (ok deleted) =
    if deleted then record { code = 204; value = none } else write_error not_found

-- What Store promises: a finite map, with flags for a key that is new and for one that was there.
pub record Store (S : Type 0) : Type 1 where
  pub fetch : List ℕ → S → Option (List ℕ)
  pub store : List ℕ → List ℕ → S → S × Bool
  pub remove : List ℕ → S → S × Bool
  pub fetch-store :
      (key asked value : List ℕ) (s : S)
      → fetch asked (store key value s).0 ≡ (if key == asked then some value else fetch asked s)
  pub store-new :
      (key value : List ℕ) (s : S)
      → (store key value s).1 ≡ elim (fetch key s) [ none ↦ true | some old ↦ false ]
  pub fetch-remove :
      (key asked : List ℕ) (s : S)
      → fetch asked (remove key s).0 ≡ (if key == asked then none else fetch asked s)
  pub remove-there :
      (key : List ℕ) (s : S)
      → (remove key s).1 ≡ elim (fetch key s) [ none ↦ false | some old ↦ true ]

module _ {S : Type 0} (m : Store S) (valid_json : List ℕ → Bool) (max_value : ℤ) where
  unfoldable pub service_get : List ℕ → S → Result (List ℕ)
  service_get key s =
      if not (valid_key key)
      then err key_invalid
      else elim (m.fetch key s) [ none ↦ err not_found | some v ↦ ok v ]

  -- The checks of Put: the bytes to store.
  unfoldable pub checked : List ℕ → Body → Result (List ℕ)
  checked key body =
      if not (valid_key key)
      then err key_invalid
      else elim (read_limited (pos_part (add_int max_value (pos 1))) body) [
        | none ↦ err read_failed
        | some raw ↦
            if ltb_ℤ max_value (pos (length raw))
            then err value_too_large
            else if not (valid_json raw)
            then err value_invalid
            else ok raw
      ]

  unfoldable pub service_put : List ℕ → Body → S → S × Result Bool
  service_put key body s = elim (checked key body) [
    | err e ↦ (s, err e)
    | ok raw ↦ let stored = m.store key raw s in (stored.0, ok stored.1)
  ]

  unfoldable pub service_delete : List ℕ → S → S × Result Bool
  service_delete key s =
      if not (valid_key key)
      then (s, err key_invalid)
      else (let removed = m.remove key s in (removed.0, ok removed.1))

  unfoldable pub handle : Request → S → S × Reply
  handle health s = (s, record { code = 200; value = none })
  handle (get key) s = (
    s,
    elim (service_get key s) [
      | err e ↦ write_error e
      | ok v ↦ record { code = 200; value = some v }
    ],
  )
  handle (put key body) s = let done = service_put key body s in (done.0, put_reply done.1)
  handle (delete key) s = let done = service_delete key s in (done.0, delete_reply done.1)

  unfoldable pub serve : List Request → S → S × List Reply
  serve [] s = (s, [])
  serve (r ∷ rest) s =
      let first = handle r s in let later = serve rest first.0 in (later.0, first.1 ∷ later.1)
