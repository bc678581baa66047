-- ===== src/HttpService/Contract.antt =====
-- http-service: the service over any store, against a finite map.
use simple_go_server.Common.{
  ℕ, ◌≡◌, refl, ap, ◌∙◌, ◌⊎◌, inl, inr, Bool, true, false, Option, none, some, List, [], ◌∷◌, map,
  if◌then◌else◌, ◌==◌, nat_eq, string_eq, Bool-cases, Option-cases,
}
use simple_go_server.Common.Int.{ℤ}
use simple_go_server.HttpService.{
  bytes_eq, Body, Request, health, get, delete, put, Error, Result, ok, err, Reply, valid_key,
  write_error, Store, service_get, checked, service_put, service_delete, put_reply, delete_reply,
  handle, serve,
}

abbrev pub Map : Type 0
Map = List ℕ → Option (List ℕ)

abbrev pub assign : List ℕ → Option (List ℕ) → Map → Map
assign key value map asked = if key == asked then value else map asked

checked-cases :
    (r : Result (List ℕ)) → ((e : Error) × (r ≡ err e)) ⊎ ((raw : List ℕ) × (r ≡ ok raw))
checked-cases (err e) = inl (e, refl)
checked-cases (ok raw) = inr (raw, refl)

created_reply :
    (held : Option (List ℕ)) (created : Bool)
    → created ≡ elim held [ none ↦ true | some old ↦ false ]
    → put_reply (ok created)
      ≡ record { code = elim held [ none ↦ 201 | some old ↦ 200 ]; value = none }
created_reply none created e = rw e refl
created_reply (some old) created e = rw e refl

deleted_reply :
    (held : Option (List ℕ)) (deleted : Bool)
    → deleted ≡ elim held [ none ↦ false | some old ↦ true ]
    → delete_reply (ok deleted)
      ≡ record { code = elim held [ none ↦ 404 | some old ↦ 204 ]; value = none }
deleted_reply none deleted e = rw e refl
deleted_reply (some old) deleted e = rw e refl

module _ {S : Type 0} (m : Store S) (valid_json : List ℕ → Bool) (max_value : ℤ) where
  -- A request to a map.
  unfoldable pub answer : Request → Map → Map × Reply
  answer health map = (map, record { code = 200; value = none })
  answer (get key) map =
      if valid_key key
      then (
        map,
        elim (map key) [
          | none ↦ record { code = 404; value = none }
          | some v ↦ record { code = 200; value = some v }
        ],
      )
      else (map, record { code = 400; value = none })
  answer (put key body) map = elim (checked m valid_json max_value key body) [
    | err e ↦ (map, write_error e)
    | ok raw ↦ (
      assign key (some raw) map,
      record { code = elim (map key) [ none ↦ 201 | some old ↦ 200 ]; value = none },
    )
  ]
  answer (delete key) map =
      if valid_key key
      then (
        assign key none map,
        record { code = elim (map key) [ none ↦ 404 | some old ↦ 204 ]; value = none },
      )
      else (map, record { code = 400; value = none })

  unfoldable pub answer_all : List Request → Map → Map × List Reply
  answer_all [] map = (map, [])
  answer_all (r ∷ rest) map =
      let first = answer r map in
      let later = answer_all rest first.0 in (later.0, first.1 ∷ later.1)

  abbrev pub Agrees : S → Map → Type 0
  Agrees s map = (key : List ℕ) → m.fetch key s ≡ map key

  abbrev pub SameStep : S × Reply → Map × Reply → Type 0
  SameStep done told = (done.1 ≡ told.1) × Agrees done.0 told.0

  get-SameStep :
      (key : List ℕ) (s : S) (map : Map)
      → Agrees s map
      → SameStep (handle m valid_json max_value (get key) s) (answer (get key) map)
  unfolding handle answer service_get
  get-SameStep key s map a = elim (Bool-cases (valid_key key)) [
    | inl good ↦ elim (Option-cases (map key)) [
      | inl missing ↦ rw (handle, service_get, answer, good, a key, missing) (refl, a)
      | inr (v, there) ↦ rw (handle, service_get, answer, good, a key, there) (refl, a)
    ]
    | inr bad ↦ rw (handle, service_get, answer, bad) (refl, a)
  ]

  put-SameStep :
      (key : List ℕ) (body : Body) (s : S) (map : Map)
      → Agrees s map
      → SameStep (handle m valid_json max_value (put key body) s) (answer (put key body) map)
  unfolding handle answer service_put
  put-SameStep key body s map a = elim (checked-cases (checked m valid_json max_value key body)) [
    | inl (e, refused) ↦ rw (handle, service_put, answer, refused) (refl, a)
    | inr (raw, passed) ↦
        rw (handle, service_put, answer, passed)
          (
            created_reply (map key) (m.store key raw s).1 (m.store-new key raw s ∙ rw (a key) refl),
            λ asked. m.fetch-store key asked raw s ∙ rw (a asked) refl,
          )
  ]

  delete-SameStep :
      (key : List ℕ) (s : S) (map : Map)
      → Agrees s map
      → SameStep (handle m valid_json max_value (delete key) s) (answer (delete key) map)
  unfolding handle answer service_delete
  delete-SameStep key s map a = elim (Bool-cases (valid_key key)) [
    | inl good ↦ rw good (
      deleted_reply (map key) (m.remove key s).1 (m.remove-there key s ∙ rw (a key) refl),
      λ asked. m.fetch-remove key asked s ∙ rw (a asked) refl,
    )
    | inr bad ↦ rw bad (refl, a)
  ]

  step-SameStep :
      (r : Request) (s : S) (map : Map)
      → Agrees s map
      → SameStep (handle m valid_json max_value r s) (answer r map)
  unfolding handle answer
  step-SameStep health s map a = (refl, a)
  step-SameStep (get key) s map a = get-SameStep key s map a
  step-SameStep (put key body) s map a = put-SameStep key body s map a
  step-SameStep (delete key) s map a = delete-SameStep key s map a

  serve-Agrees :
      (requests : List Request) (s : S) (map : Map)
      → Agrees s map
      → ((serve m valid_json max_value requests s).1 ≡ (answer_all requests map).1)
        × Agrees (serve m valid_json max_value requests s).0 (answer_all requests map).0
  unfolding serve answer_all
  serve-Agrees [] s map a = (refl, a)
  serve-Agrees (r ∷ rest) s map a =
      let (same, agree) = step-SameStep r s map a in
      let (replies, after) =
        serve-Agrees rest (handle m valid_json max_value r s).0 (answer r map).0 agree in
      (
        ap
              (λ first.
                first ∷ (serve m valid_json max_value rest (handle m valid_json max_value r s).0).1)
              same
            ∙ ap (◌∷◌ (answer r map).1) replies,
        after,
      )

-- Over any store that keeps the laws of a finite map, from a state without entries: any requests get
-- the replies that a map gets, and the store ends with the entries of that map. In the map, a get
-- answers 200 with what the last accepted put of its key stored and no delete removed, or 404; an
-- accepted put answers 201 if its key was absent and 200 otherwise; a delete answers 204 or 404; a key
-- that is not valid gets 400, and a refused body the status of its error, without a change.
pub serve_refines_map :
    {S : Type 0} (m : Store S) (valid_json : List ℕ → Bool) (max_value : ℤ) (s : S)
    → ((key : List ℕ) → m.fetch key s ≡ none)
    → (requests : List Request)
    → ((serve m valid_json max_value requests s).1
        ≡ (answer_all m valid_json max_value requests (λ key. none)).1)
      × ((key : List ℕ)
          → m.fetch key (serve m valid_json max_value requests s).0
            ≡ (answer_all m valid_json max_value requests (λ k. none)).0 key)
serve_refines_map m valid_json max_value s fresh requests =
    serve-Agrees m valid_json max_value requests s (λ key. none) fresh
