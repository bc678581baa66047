-- ===== src/HttpService/Memory.antt =====
-- http-service/store.go: MemoryStore, which fills the interface.
use simple_go_server.Common.{
  ℕ, ◌≡◌, refl, subst, inl, inr, Bool, true, false, Option, none, some, List, [], if◌then◌else◌,
  ◌==◌, nat_eq, string_eq, Bool-cases, Option-cases,
}
use simple_go_server.Common.Dict.{Dict, lookup, insert, delete, lookup-insert, lookup-delete}
use simple_go_server.HttpService.{Store, bytes_eq}

abbrev pub MemoryStore : Type 0
MemoryStore = Dict (List ℕ) (List ℕ)

abbrev pub new_memory_store : MemoryStore
new_memory_store = []

abbrev pub get : List ℕ → MemoryStore → Option (List ℕ)
get key items = lookup key items

unfoldable pub put : List ℕ → List ℕ → MemoryStore → MemoryStore × Bool
put key value items =
    (insert key value items, elim (lookup key items) [ none ↦ true | some old ↦ false ])

unfoldable pub remove : List ℕ → MemoryStore → MemoryStore × Bool
remove key items = elim (lookup key items) [
  | none ↦ (items, false)
  | some old ↦ (delete key items, true)
]

pub get-remove :
    (key asked : List ℕ) (items : MemoryStore)
    → get asked (remove key items).0 ≡ (if key == asked then none else get asked items)
unfolding remove
get-remove key asked items = elim (Option-cases (lookup key items)) [
  | inl missing ↦
      rw (remove, missing)
        (elim (Bool-cases (key == asked)) [
          | inl hit ↦
              rw hit
                (subst (λ k. lookup k items ≡ none) ((bytes_eq.beq_iff key asked).0 hit) missing)
          | inr miss ↦ rw miss refl
        ])
  | inr (old, there) ↦ rw (remove, there) (lookup-delete key asked items)
]

pub remove_lem :
    (key : List ℕ) (items : MemoryStore)
    → (remove key items).1 ≡ elim (lookup key items) [ none ↦ false | some old ↦ true ]
unfolding remove
remove_lem key items = elim (Option-cases (lookup key items)) [
  | inl missing ↦ rw (remove, missing) refl
  | inr (old, there) ↦ rw (remove, there) refl
]

-- Any finite map would do: these are the laws.
unfoldable pub memory_store : Store MemoryStore
unfolding put
memory_store = record {
  fetch = get;
  store = put;
  remove = remove;
  fetch-store = λ key asked value items. lookup-insert key asked value items;
  store-new = λ key value items. refl;
  fetch-remove = get-remove;
  remove-there = remove_lem;
}
