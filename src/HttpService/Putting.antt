-- ===== src/HttpService/Putting.antt =====
-- http-service/service.go and handler.go: the answers to a put.
use simple_go_server.Common.{
  ℕ, ◌+◌, ◌≤◌, ◌<◌, ◌^◌, ◌≡◌, refl, ap, ◌∙◌, inl, inr, Bool, true, false, Option, none, some, List,
  [], ◌∷◌, ◌||◌, ltb, leb, if◌then◌else◌, All, arith, ◌==◌, nat_eq, string_eq, Bool-cases, length,
  take, length-take,
}
use simple_go_server.Common.Int.{pos, pos_part, add_int, add_int-pos, ltb_ℤ}
use simple_go_server.HttpService.{
  max_key_len, printable, Body, put, Error, ok, err, Reply, valid_key, read_limited, Store, checked,
  service_put, put_reply, handle, key_invalid, read_failed, value_too_large, value_invalid,
}
use simple_go_server.HttpService.Entries.{valid_key-bounds}

-- A key of 1 to 128 bytes from '!' to '~'.
abbrev pub IsKey : List ℕ → Type 0
IsKey key = (1 ≤ length key) × (length key ≤ 128) × All (λ c. (33 ≤ c) × (c ≤ 126)) key

All-printable : (key : List ℕ) → All (λ c. (33 ≤ c) × (c ≤ 126)) key → printable key ≡ true
unfolding printable
All-printable [] all = refl
All-printable (c ∷ cs) (fits, all) =
    let inside : ltb c 33 || ltb 126 c ≡ false = ground (arith, fits.0, fits.1) in
    rw (printable, inside) (All-printable cs all)

IsKey-valid_key : (key : List ℕ) → IsKey key → valid_key key ≡ true
unfolding valid_key
IsKey-valid_key key (some_bytes, short, all) =
    let inside : (length key == 0) || ltb max_key_len (length key) ≡ false =
      ground (arith, some_bytes, short) in
    rw (valid_key, inside) (All-printable key all)

module _ {S : Type 0} (m : Store S) (valid_json : List ℕ → Bool) (limit : ℕ) where
  abbrev answered : ℕ → Reply
  answered code = record { code = code; value = none }

  -- What a put answers and leaves, by its key, the bytes of its body and whether the body breaks off.
  pub data PutAnswer (key : List ℕ) (body : Body) (s : S) (done : S × Reply) : Type 0 where
    bad_key : (IsKey key → ⊥) → done ≡ (s, answered 400) → PutAnswer key body s done
    too_large :
        IsKey key → limit < length body.bytes → done ≡ (s, answered 413) → PutAnswer key body s done
    broken :
        IsKey key
        → length body.bytes ≤ limit
        → body.breaks ≡ true
        → done ≡ (s, answered 500)
        → PutAnswer key body s done
    bad_json :
        IsKey key
        → length body.bytes ≤ limit
        → body.breaks ≡ false
        → valid_json body.bytes ≡ false
        → done ≡ (s, answered 400)
        → PutAnswer key body s done
    stored :
        IsKey key
        → length body.bytes ≤ limit
        → body.breaks ≡ false
        → valid_json body.bytes ≡ true
        → done ≡ (
          (m.store key body.bytes s).0,
          answered (elim (m.fetch key s) [ none ↦ 201 | some old ↦ 200 ]),
        )
        → PutAnswer key body s done

  refused_put :
      (key : List ℕ) (body : Body) (s : S) (e : Error)
      → checked m valid_json (pos limit) key body ≡ err e
      → handle m valid_json (pos limit) (put key body) s ≡ (s, put_reply (err e))
  unfolding handle service_put
  refused_put key body s e refused = rw (handle, service_put, refused) refl

  stored_put :
      (key : List ℕ) (body : Body) (s : S) (raw : List ℕ)
      → checked m valid_json (pos limit) key body ≡ ok raw
      → handle m valid_json (pos limit) (put key body) s
        ≡ ((m.store key raw s).0, put_reply (ok (m.store key raw s).1))
  unfolding handle service_put
  stored_put key body s raw passed = rw (handle, service_put, passed) refl

  created_code :
      (created : Bool) (held : Option (List ℕ))
      → created ≡ elim held [ none ↦ true | some old ↦ false ]
      → put_reply (ok created) ≡ answered (elim held [ none ↦ 201 | some old ↦ 200 ])
  created_code created none e = rw e refl
  created_code created (some old) e = rw e refl

  -- What the limited reader gives, with room for one more byte than the limit in an int64.
  read_put :
      limit + 1 < 2 ^ 63
      → (body : Body)
      → read_limited (pos_part (add_int (pos limit) (pos 1))) body ≡ (
          if ltb limit (length body.bytes)
          then some (take (limit + 1) body.bytes)
          else if body.breaks
          then none
          else some body.bytes)
  unfolding read_limited
  read_put room body =
      rw (add_int-pos limit 1 room) (elim (Bool-cases (ltb limit (length body.bytes))) [
        | inl large ↦
            let enough : leb (limit + 1) (length body.bytes) ≡ true = ground (arith, large) in
            rw (large, enough) refl
        | inr small ↦
            let short : leb (limit + 1) (length body.bytes) ≡ false = ground (arith, small) in
            rw (small, short) refl
      ])

  -- With a limit that is below 2^63 - 1: a put with a key that is not 1 to 128 bytes from '!' to '~'
  -- gets 400; otherwise a body over the limit gets 413, one that breaks off within it 500, and one that
  -- is not valid JSON 400, all of these without a change; and any other body is stored whole under the
  -- key, with 201 if the store had nothing there and 200 if it had.
  pub put-PutAnswer :
      limit + 1 < 2 ^ 63
      → (key : List ℕ) (body : Body) (s : S)
      → PutAnswer key body s (handle m valid_json (pos limit) (put key body) s)
  unfolding checked
  put-PutAnswer room key body s = elim (Bool-cases (valid_key key)) [
    | inr bad ↦
        bad_key (λ is_key. absurd (cc (bad, IsKey-valid_key key is_key)))
          (refused_put key body s key_invalid (rw (checked, bad) refl))
    | inl good ↦
        let is_key = valid_key-bounds key good in
        elim (Bool-cases (ltb limit (length body.bytes))) [
          | inl large ↦
              let cut : ltb_ℤ (pos limit) (pos (length (take (limit + 1) body.bytes))) ≡ true =
                ground (arith, large, length-take (limit + 1) body.bytes) in
              too_large is_key (ground (arith, large)) (
                refused_put key body s value_too_large
                  (rw (checked, good, read_put room body, large, cut) refl))
          | inr small ↦
              let fits : ltb_ℤ (pos limit) (pos (length body.bytes)) ≡ false =
                ground (arith, small) in
              elim (Bool-cases body.breaks) [
                | inl breaks ↦ broken is_key (ground (arith, small)) breaks (
                    refused_put key body s read_failed
                      (rw (checked, good, read_put room body, small, breaks) refl))
                | inr whole ↦ elim (Bool-cases (valid_json body.bytes)) [
                  | inr invalid ↦ bad_json is_key (ground (arith, small)) whole invalid (
                      refused_put key body s value_invalid
                        (rw (checked, good, read_put room body, small, whole, fits, invalid) refl))
                  | inl valid ↦ stored is_key (ground (arith, small)) whole valid (
                      stored_put key body s body.bytes
                        (rw (checked, good, read_put room body, small, whole, fits, valid) refl)
                      ∙ ap (λ r. ((m.store key body.bytes s).0, r))
                          (created_code (m.store key body.bytes s).1 (m.fetch key s)
                            (m.store-new key body.bytes s)))
                ]
              ]
        ]
  ]
