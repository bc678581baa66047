-- ===== src/Balancer/IpHashing/Ring.antt =====
-- internal/balancer/ip_hashing.go: the ring after registrations.
use simple_go_server.Common.{
  ℕ, zero, suc, ◌+◌, ◌≤◌, ◌<◌, String, ◌≡◌, refl, ◌⊎◌, inl, inr, none, some, List, [], ◌∷◌, ◌++◌,
  arith, leb, if◌then◌else◌, ◌==◌, nat_eq, string_eq, beq_refl, Bool-cases, Option-cases, length,
  All, length-append, get_elem?-lt, All-append, All-get, get_elem?, subst, false,
}
use simple_go_server.Common.Dict.{Dict, lookup, insert, lookup-insert}
use simple_go_server.Balancer.{Backend, ok, err, no_backends}
use simple_go_server.Balancer.IpHashing.{
  IpHashing, new, search, sort_in, sort, next, add_replicas, register,
}

search-le : (hash : ℕ) (hashes : List ℕ) → search hash hashes ≤ length hashes
unfolding search
search-le hash [] = omega arith
search-le hash (h ∷ hashes) = ground (arith, search-le hash hashes)

All-sort_in {κ} : (P : ℕ → Type κ) (h : ℕ) (xs : List ℕ) → P h → All P xs → All P (sort_in h xs)
unfolding sort_in
All-sort_in P h [] p all = (p, tt)
All-sort_in P h (x ∷ xs) p (q, all) = elim (Bool-cases (leb h x)) [
  | inl le ↦ rw le (p, (q, all))
  | inr gt ↦ rw gt (q, All-sort_in P h xs p all)
]

All-sort {κ} : (P : ℕ → Type κ) (xs : List ℕ) → All P xs → All P (sort xs)
unfolding sort
All-sort P [] all = tt
All-sort P (x ∷ xs) (p, all) = All-sort_in P x (sort xs) p (All-sort P xs all)

length-sort_in : (h : ℕ) (xs : List ℕ) → length (sort_in h xs) ≡ suc (length xs)
unfolding sort_in
length-sort_in h [] = refl
length-sort_in h (x ∷ xs) = ground (arith, length-sort_in h xs)

length-sort : (xs : List ℕ) → length (sort xs) ≡ length xs
unfolding sort
length-sort [] = refl
length-sort (x ∷ xs) = omega (arith, length-sort xs, length-sort_in x (sort xs))

All-map : (P Q : ℕ → Type 0) → ((h : ℕ) → P h → Q h) → (xs : List ℕ) → All P xs → All Q xs
All-map P Q f [] all = tt
All-map P Q f (x ∷ xs) (p, all) = (f x p, All-map P Q f xs all)

length-insert {ℓ} : {V : Type ℓ} (k : ℕ) (v : V) (d : Dict ℕ V) → 0 < length (insert k v d)
unfolding insert
length-insert k v [] = omega arith
length-insert k v ((j, w) ∷ d) = elim (Bool-cases (j == k)) [
  | inl hit ↦ rw (insert, hit) (omega arith)
  | inr miss ↦ rw (insert, miss) (omega arith)
]

-- What holds at each position holds of all.
All-positions {ℓ} :
    {A : Type ℓ} (P : A → Type 0) (xs : List A)
    → ((i : ℕ) (x : A) → get_elem? xs i ≡ some x → P x)
    → All P xs
All-positions P [] h = tt
All-positions P (x ∷ xs) h = (h 0 x refl, All-positions P xs (λ i. h (suc i)))

module _ {T : Type 0} (hash : String → ℕ) (replica_key : String → ℕ → String) ⦃b : Backend T⦄ where
  -- A hash leads to a backend that is the member of its id.
  abbrev Served : Dict ℕ T → Dict String T → ℕ → Type 0
  Served circle members h =
      (t : T) × (lookup h circle ≡ some t) × (lookup (b.id t) members ≡ some t)

  Served-insert :
      (circle : Dict ℕ T) (members : Dict String T) (h k : ℕ) (t : T)
      → lookup (b.id t) members ≡ some t
      → Served circle members k
      → Served (insert h t circle) members k
  Served-insert circle members h k t m (x, e, q) = elim (Bool-cases (h == k)) [
    | inl hit ↦ (t, rw (lookup-insert h k t circle, hit) refl, m)
    | inr miss ↦ (x, rw (lookup-insert h k t circle, miss) e, q)
  ]

  add_replicas-All :
      (members : Dict String T) (n i : ℕ) (t : T) (circle : Dict ℕ T) (hashes : List ℕ)
      → lookup (b.id t) members ≡ some t
      → All (Served circle members) hashes
      → let ring = add_replicas hash replica_key n i t (circle, hashes) in
        All (Served ring.0 members) ring.1 × (length ring.1 ≡ length hashes + n)
  unfolding add_replicas
  add_replicas-All members zero i t circle hashes m all = (all, omega arith)
  add_replicas-All members (suc n) i t circle hashes m all =
      let h = hash (replica_key (b.id t) i) in
      let here : Served (insert h t circle) members h =
        (t, rw (lookup-insert h h t circle, beq_refl h) refl, m) in
      let (all', size) =
        add_replicas-All members n (i + 1) t (insert h t circle) (hashes ++ (h ∷ [])) m (
          All-append (Served (insert h t circle) members) hashes (h ∷ [])
            (All-map (Served circle members) (Served (insert h t circle) members)
              (λ k. Served-insert circle members h k t m) hashes all)
            (here, tt)) in
      (all', omega (arith, size, length-append hashes (h ∷ [])))

  -- A replica fills the ring, and none empties it.
  add_replicas-filled :
      (n i : ℕ) (t : T) (circle : Dict ℕ T) (hashes : List ℕ)
      → 0 < n + length circle
      → 0 < length (add_replicas hash replica_key n i t (circle, hashes)).0
  unfolding add_replicas
  add_replicas-filled zero i t circle hashes h = omega (arith, h)
  add_replicas-filled (suc n) i t circle hashes h =
      let hashed = hash (replica_key (b.id t) i) in
      add_replicas-filled n (i + 1) t (insert hashed t circle) (hashes ++ (hashed ∷ []))
        (omega (arith, length-insert hashed t circle))

  -- Every hash of the ring is served, a ring with a member is filled, and there are as many of them as a positive number of
  -- replicas wants, if there is a member.
  record IsRing (s : IpHashing T) : Type 0 where
    served : All (Served s.circle s.members) s.hashes
    many : length s.hashes ≡ 0 → length s.circle ≡ 0
    filled : (x : String) (t : T) → lookup x s.members ≡ some t → 0 < length s.circle
    replicated : 0 < s.replicas

  new-IsRing : (replicas : ℕ) → IsRing (new replicas)
  unfolding new lookup
  new-IsRing replicas = record {
    served = tt;
    many = λ e. refl;
    filled = λ x t e. absurd (cc e);
    replicated = ground arith;
  }

  register-IsRing : (s : IpHashing T) (t : T) → IsRing s → IsRing (register hash replica_key s t)
  unfolding register
  register-IsRing s t r = elim (Option-cases (lookup (b.id t) s.members)) [
    | inr (x, e) ↦ rw (e, register) r
    | inl e ↦
        let members = insert (b.id t) t s.members in
        let ring = add_replicas hash replica_key s.replicas 0 t (s.circle, s.hashes) in
        let own : lookup (b.id t) members ≡ some t =
          rw (lookup-insert (b.id t) (b.id t) t s.members, beq_refl (b.id t)) refl in
        let kept =
          All-map (Served s.circle s.members) (Served s.circle members) (λ h. keep s t e h) s.hashes
            r.served in
        let (all, size) = add_replicas-All members s.replicas 0 t s.circle s.hashes own kept in
        rw (e, register)
          (record {
            served = All-sort (Served ring.0 members) ring.1 all;
            many = λ z. absurd (omega (arith, length-sort ring.1, size, r.replicated));
            filled = λ x y e.
                add_replicas-filled s.replicas 0 t s.circle s.hashes (omega (arith, r.replicated));
            replicated = r.replicated;
          })
  ]
    where
      keep :
          (s : IpHashing T) (t : T)
          → lookup (b.id t) s.members ≡ none
          → (h : ℕ) → Served s.circle s.members h
          → Served s.circle (insert (b.id t) t s.members) h
      keep s t e h (x, c, m) = elim (Bool-cases (b.id t == b.id x)) [
        | inl same ↦
            let q = (string_eq.beq_iff (b.id t) (b.id x)).0 same in
            absurd (let z = rw q at e in cc (z, m))
        | inr other ↦ (x, c, rw (lookup-insert (b.id t) (b.id x) t s.members, other) m)
      ]

  unfoldable pub register_all : IpHashing T → List T → IpHashing T
  register_all s [] = s
  register_all s (t ∷ ts) = register_all (register hash replica_key s t) ts

  register_all-IsRing : (s : IpHashing T) (ts : List T) → IsRing s → IsRing (register_all s ts)
  unfolding register_all
  register_all-IsRing s [] r = r
  register_all-IsRing s (t ∷ ts) r =
      register_all-IsRing (register hash replica_key s t) ts (register-IsRing s t r)

  -- A registered backend is a member behind it, or was one before.
  register-member :
      (s : IpHashing T) (t : T)
      → (x : T) × (lookup (b.id t) (register hash replica_key s t).members ≡ some x)
  unfolding register
  register-member s t = elim (Option-cases (lookup (b.id t) s.members)) [
    | inr (x, e) ↦ (x, rw (register, e) e)
    | inl e ↦
        (t, rw (register, e, lookup-insert (b.id t) (b.id t) t s.members, beq_refl (b.id t)) refl)
  ]

  register_all-filled :
      (s : IpHashing T) (ts : List T)
      → IsRing s
      → (x : String) (t : T) → lookup x s.members ≡ some t
      → 0 < length (register_all s ts).circle
  unfolding register_all
  register_all-filled s [] r x t e = r.filled x t e
  register_all-filled s (t ∷ ts) r x old e =
      let (y, f) = register-member s t in
      register_all-filled (register hash replica_key s t) ts (register-IsRing s t r) (b.id t) y f

  -- The members are among the backends of which `P` holds.
  AllMembers : (T → Type 0) → IpHashing T → Type 0
  AllMembers P s = (x : String) (t : T) → lookup x s.members ≡ some t → P t

  register-AllMembers :
      (P : T → Type 0) (s : IpHashing T) (t : T)
      → P t
      → AllMembers P s
      → AllMembers P (register hash replica_key s t)
  unfolding register AllMembers
  register-AllMembers P s t p all x y e = elim (Option-cases (lookup (b.id t) s.members)) [
    | inr (old, f) ↦ all x y (rw (register, f) at e)
    | inl f ↦
        let found : lookup x (insert (b.id t) t s.members) ≡ some y = rw (register, f) at e in
        elim (Bool-cases (b.id t == x)) [
          | inl hit ↦
              let same : some t ≡ some y =
                rw (lookup-insert (b.id t) x t s.members, hit) at found in
              subst (λ o. elim o [ none ↦ Unit {0} | some v ↦ P v ]) same p
          | inr miss ↦ all x y (rw (lookup-insert (b.id t) x t s.members, miss) at found)
        ]
  ]

  register_all-AllMembers :
      (P : T → Type 0) (s : IpHashing T) (ts : List T)
      → All P ts
      → AllMembers P s
      → AllMembers P (register_all s ts)
  unfolding register_all
  register_all-AllMembers P s [] p all = all
  register_all-AllMembers P s (t ∷ ts) (p, ps) all =
      register_all-AllMembers P (register hash replica_key s t) ts ps
        (register-AllMembers P s t p all)

  next-served :
      (s : IpHashing T) (key : String)
      → IsRing s
      → 0 < length s.circle
      → (t : T) × (next hash replica_key s key ≡ ok (some t)) × (lookup (b.id t) s.members ≡ some t)
  unfolding next
  next-served s key r h =
      let there : length s.circle == 0 ≡ false = ground (arith, h) in
      let index = search (hash key) s.hashes in
      let at = if index == length s.hashes then 0 else index in
      let bound = search-le (hash key) s.hashes in
      let inside : at < length s.hashes = ground (arith, r.many, bound, h) in
      let (k, g) = get_elem?-lt s.hashes at inside in
      let (t, c, m) = All-get (Served s.circle s.members) s.hashes at r.served g in
      (t, rw (there, g, c) refl, m)

  -- After any registrations on a new ring, whatever the hash function, collisions included: a key is
  -- refused if there were no registrations, and otherwise gets one of the registered backends, the
  -- member of its id.
  pub registered_ring_serves :
      (replicas : ℕ) (ts : List T) (key : String)
      → let s = register_all (new replicas) ts in
        ((ts ≡ []) × (next hash replica_key s key ≡ err no_backends))
        ⊎ ((t : T) × (i : ℕ) × (get_elem? ts i ≡ some t)
            × (next hash replica_key s key ≡ ok (some t))
            × (lookup (b.id t) s.members ≡ some t))
  unfolding register_all next new AllMembers lookup
  registered_ring_serves replicas [] key = inl (refl, refl)
  registered_ring_serves replicas (t ∷ ts) key =
      let fresh = new replicas in
      let first = register hash replica_key fresh t in
      let ring = register-IsRing fresh t (new-IsRing replicas) in
      let (x, m) = register-member fresh t in
      let (y, answered, member) =
        next-served (register_all first ts) key (register_all-IsRing first ts ring)
          (register_all-filled first ts ring (b.id t) x m) in
      let (i, e) =
        register_all-AllMembers (λ z. (i : ℕ) × (get_elem? (t ∷ ts) i ≡ some z)) fresh (t ∷ ts)
          (All-positions _ (t ∷ ts) (λ i z f. (i, f))) (λ z w f. absurd (cc f)) (b.id y) y member in
      inr (y, i, e, answered, member)
