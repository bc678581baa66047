-- ===== src/Balancer/IpHashing.antt =====
-- internal/balancer/ip_hashing.go. The hash of package fnv is the parameter `hash`, and the key of a
-- replica, the id followed by the decimal number, is the parameter `replica_key`. A key that is
-- missing in a Go map gives a zero value: `ok none` is a zero value without an error.
pub mod Ring
use simple_go_server.Common.{
  ℕ, zero, suc, ◌+◌, ◌-◌, ◌*◌, ◌/◌, ◌%◌, ◌^◌, ◌≤◌, ◌<◌, min, String, ◌≡◌, refl, sym, ap, ◌∙◌, subst,
  ◌≢◌, ◌↔◌, ◌⊎◌, inl, inr, Bool, true, false, not, ◌&&◌, ◌||◌, Option, none, some, List, [], ◌∷◌,
  ◌++◌, map, append-nil, append_assoc, arith, ltb, leb, if◌then◌else◌, Eq, ◌==◌, nat_eq, string_eq,
  nat_beq_iff, beq_refl, Bool-cases, Option-cases, length, get_elem?, get_or, take, drop, All,
  length-append, length-take, length-drop, take-append-drop, take-length-append, drop-length-append,
  get_elem?-lt, lt_of_get_elem?, All-append, All-get, take_all, drop_all,
}
use simple_go_server.Common.Dict.{Dict, lookup, insert, delete}
use simple_go_server.Common.Int.{ℤ, pos, add_int, sub_int}
use simple_go_server.Balancer.{Backend, Result, ok, err, no_backends, iterate}

pub record IpHashing {ℓ} (T : Type ℓ) : Type ℓ where
  pub circle : Dict ℕ T
  pub replicas : ℕ
  pub size : ℤ
  pub hashes : List ℕ
  pub members : Dict String T

unfoldable pub new {ℓ} : {T : Type ℓ} → ℕ → IpHashing T
new replicas = record {
  circle = [];
  replicas = if ltb replicas 3 then 3 else replicas;
  size = pos 0;
  hashes = [];
  members = [];
}

-- `sort.Search` on the sorted list: the first hash that is not below the given one.
unfoldable pub search : ℕ → List ℕ → ℕ
search hash [] = 0
search hash (h ∷ hashes) = let rest = search hash hashes in if leb hash h then 0 else suc rest

-- `sort.Slice`.
unfoldable pub sort_in : ℕ → List ℕ → List ℕ
sort_in h [] = h ∷ []
sort_in h (x ∷ xs) = if leb h x then h ∷ x ∷ xs else x ∷ sort_in h xs

unfoldable pub sort : List ℕ → List ℕ
sort [] = []
sort (h ∷ hashes) = sort_in h (sort hashes)

-- `append(list[:index], list[index+1:]...)` if the hash stands at the index.
unfoldable pub drop_hash : ℕ → List ℕ → List ℕ
drop_hash hash hashes = elim (get_elem? hashes (search hash hashes)) [
  | none ↦ hashes
  | some h ↦
      if h == hash
      then take (search hash hashes) hashes ++ drop (search hash hashes + 1) hashes
      else hashes
]

module _ {ℓ} {T : Type ℓ} (hash : String → ℕ) (replica_key : String → ℕ → String) where
  unfoldable pub next : IpHashing T → String → Result (Option T)
  next s key =
      let index = search (hash key) s.hashes in
      if length s.circle == 0
      then err no_backends
      else elim (get_elem? s.hashes (if index == length s.hashes then 0 else index)) [
        | none ↦ ok none
        | some h ↦ ok (lookup h s.circle)
      ]

  module _ ⦃b : Backend T⦄ where
    -- The loop of `Register` from replica `i` on.
    unfoldable pub add_replicas : ℕ → ℕ → T → Dict ℕ T × List ℕ → Dict ℕ T × List ℕ
    add_replicas zero i t ring = ring
    add_replicas (suc n) i t (circle, hashes) =
        let h = hash (replica_key (b.id t) i) in
        add_replicas n (i + 1) t (insert h t circle, hashes ++ (h ∷ []))

    unfoldable pub register : IpHashing T → T → IpHashing T
    register s t = elim (lookup (b.id t) s.members) [
      | some x ↦ s
      | none ↦
          let ring = add_replicas s.replicas 0 t (s.circle, s.hashes) in
          record s {
            circle = ring.0;
            hashes = sort ring.1;
            members = insert (b.id t) t s.members;
            size = add_int s.size (pos 1);
          }
    ]

    unfoldable pub drop_replicas : ℕ → ℕ → T → Dict ℕ T × List ℕ → Dict ℕ T × List ℕ
    drop_replicas zero i t ring = ring
    drop_replicas (suc n) i t (circle, hashes) =
        let h = hash (replica_key (b.id t) i) in
        drop_replicas n (i + 1) t (delete h circle, drop_hash h hashes)

    unfoldable pub unregister : IpHashing T → T → IpHashing T
    unregister s t = elim (lookup (b.id t) s.members) [
      | none ↦ s
      | some x ↦
          let ring = drop_replicas s.replicas 0 t (s.circle, s.hashes) in
          record s {
            circle = ring.0;
            hashes = ring.1;
            members = delete (b.id t) s.members;
            size = sub_int s.size (pos 1);
          }
    ]

-- `Iterate` visits the members in the order of the map.
unfoldable pub values {ℓ} : {T : Type ℓ} → Dict String T → List T
values [] = []
values ((key, t) ∷ members) = t ∷ values members

abbrev visit {ℓ κ} : {T : Type ℓ} {S : Type κ} → IpHashing T → (T → S → Bool × S) → S → S
visit s f acc = iterate f (values s.members) acc
