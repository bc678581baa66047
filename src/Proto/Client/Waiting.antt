-- ===== src/Proto/Client/Waiting.antt =====
-- pkg/proto/client.go: where a call that waits for its response is entered.
use simple_go_server.Common.{
  ℕ, suc, ◌+◌, ◌-◌, ◌%◌, ◌^◌, ◌≤◌, ◌<◌, ◌≡◌, refl, sym, ap, ◌∙◌, subst, ◌⊎◌, inl, inr, Bool, true,
  false, none, some, arith, ltb, if◌then◌else◌, ◌==◌, nat_eq, string_eq, beq_refl, Bool-cases,
}
use simple_go_server.Common.Dict.{Dict, lookup, insert, delete, lookup-insert, lookup-delete}
use simple_go_server.Proto.Client.{
  Channel, empty, Phase, writing, waiting, dropping, failed, Reader, reading, delivering, failing,
  ended, Client, new_client, set, registered, CallError, encode_failed,
}

-- The call has its response to come.
abbrev pub expects : Phase → Bool
expects (writing timed) = true
expects (waiting timed) = true
expects phase = false

abbrev pub is_failed : Phase → Bool
is_failed (failed e) = true
is_failed phase = false

-- The read loop is about to send to channel `k`.
abbrev pub IsAt : ℕ → Reader → Type 0
IsAt k (delivering ch r) = ch ≡ k
IsAt k reader = ⊥

abbrev pub Delivers : ℕ → Dict ℕ ℕ → (ℕ → Channel) → Reader → Type 0
Delivers calls pending channels (delivering ch r) =
    (ch < calls) × (channels ch ≡ empty) × (lookup (suc ch) pending ≡ none)
Delivers calls pending channels reader = Unit {0}

pub record IsSound (s : Client) : Type 0 where
  pub counted : s.next_id ≡ s.calls
  pub numbered : (k : ℕ) → k < s.calls → s.ids k ≡ suc k
  pub idle : (k : ℕ) → s.calls ≤ k → is_failed (s.phases k) ≡ true
  pub listed :
      (id ch : ℕ)
      → lookup id s.pending ≡ some ch
      → (ch < s.calls) × (suc ch ≡ id) × (s.channels ch ≡ empty)
  pub delivers : Delivers s.calls s.pending s.channels s.reader
  pub waits :
      (k : ℕ)
      → k < s.calls
      → expects (s.phases k) ≡ true
      → s.channels k ≡ empty
      → (lookup (suc k) s.pending ≡ some k) ⊎ IsAt k s.reader

-- As long as the ids have not wrapped around.
abbrev pub Sound : Client → Type 0
Sound s = s.calls < 2 ^ 32 → IsSound s

pub new-Sound : Sound new_client
unfolding lookup
new-Sound bound = record {
  counted = refl;
  numbered = λ k h. absurd (omega (arith, h));
  idle = λ k h. refl;
  listed = λ id ch e. absurd (cc e);
  delivers = tt;
  waits = λ k h e f. absurd (omega (arith, h));
}

known : (s : Client) (k : ℕ) → IsSound s → is_failed (s.phases k) ≡ false → k < s.calls
known s k sound e = elim (Bool-cases (ltb k s.calls)) [
  | inl hit ↦ ground (arith, hit)
  | inr miss ↦ absurd (cc (e, sound.idle k (ground (arith, miss))))
]

-- A call that moves on, and expects its response only if it did before.
pub phase-Sound :
    (s : Client) (k : ℕ) (phase : Phase)
    → IsSound s
    → is_failed (s.phases k) ≡ false
    → (expects phase ≡ true → expects (s.phases k) ≡ true)
    → IsSound record s { phases = set s.phases k phase }
phase-Sound s k phase sound e f = record {
  counted = sound.counted;
  numbered = sound.numbered;
  idle = λ j h.
      let other : j == k ≡ false = ground (arith, h, known s k sound e) in
      rw other (sound.idle j h);
  listed = sound.listed;
  delivers = sound.delivers;
  waits = λ j h g. elim (Bool-cases (j == k)) [
    | inl hit ↦
        let same = (nat_eq.beq_iff j k).0 hit in
        sound.waits j h (subst (λ i. expects (s.phases i) ≡ true) (sym same) (f (rw hit at g)))
    | inr miss ↦ sound.waits j h (rw miss at g)
  ];
}

-- What a deletion leaves.
pub deleted-some :
    (gone id ch : ℕ) (pending : Dict ℕ ℕ)
    → lookup id (delete gone pending) ≡ some ch
    → lookup id pending ≡ some ch
deleted-some gone id ch pending e = elim (Bool-cases (gone == id)) [
  | inl hit ↦ absurd (cc (rw (lookup-delete gone id pending, hit) at e))
  | inr miss ↦ rw (lookup-delete gone id pending, miss) at e
]

pub deleted-none :
    (gone id : ℕ) (pending : Dict ℕ ℕ)
    → lookup id pending ≡ none
    → lookup id (delete gone pending) ≡ none
deleted-none gone id pending e = ground (arith, lookup-delete gone id pending, e)

pub deleted-Delivers :
    (gone calls : ℕ) (pending : Dict ℕ ℕ) (channels : ℕ → Channel) (reader : Reader)
    → Delivers calls pending channels reader
    → Delivers calls (delete gone pending) channels reader
deleted-Delivers gone calls pending channels (delivering ch r) (h, e, f) =
    (h, e, deleted-none gone (suc ch) pending f)
deleted-Delivers gone calls pending channels reading d = tt
deleted-Delivers gone calls pending channels failing d = tt
deleted-Delivers gone calls pending channels ended d = tt

pub drop-Sound :
    (s : Client) (k : ℕ) (e : CallError)
    → IsSound s
    → is_failed (s.phases k) ≡ false
    → IsSound record s { pending = delete (s.ids k) s.pending; phases = set s.phases k (failed e) }
drop-Sound s k e sound active =
    let moved = phase-Sound s k (failed e) sound active (λ impossible. absurd (cc impossible)) in
    let own : s.ids k ≡ suc k = sound.numbered k (known s k sound active) in
    record {
      counted = sound.counted;
      numbered = sound.numbered;
      idle = moved.idle;
      listed = λ id ch f. sound.listed id ch (deleted-some (s.ids k) id ch s.pending f);
      delivers = deleted-Delivers (s.ids k) s.calls s.pending s.channels s.reader sound.delivers;
      waits = λ j h g silent. elim (Bool-cases (j == k)) [
        | inl hit ↦ absurd (cc (rw hit at g))
        | inr miss ↦ elim (moved.waits j h g silent) [
          | inl found ↦
              let apart : s.ids k == suc j ≡ false = ground (arith, own, miss) in
              inl (lookup-delete (s.ids k) (suc j) s.pending ∙ rw apart found)
          | inr at ↦ inr at
        ]
      ];
    }

registered-Delivers :
    (calls : ℕ) (pending : Dict ℕ ℕ) (channels : ℕ → Channel) (reader : Reader)
    → Delivers calls pending channels reader
    → Delivers (calls + 1) (insert (suc calls) calls pending) (set channels calls empty) reader
registered-Delivers calls pending channels (delivering ch r) (h, e, f) =
    let other : ch == calls ≡ false = ground (arith, h) in
    let apart : suc calls == suc ch ≡ false = ground (arith, h) in
    (omega (arith, h), rw other e, lookup-insert (suc calls) (suc ch) calls pending ∙ rw apart f)
registered-Delivers calls pending channels reading d = tt
registered-Delivers calls pending channels failing d = tt
registered-Delivers calls pending channels ended d = tt

-- A registration under the id `suc s.calls`.
numbered-Sound :
    (s : Client) (phase : Phase)
    → IsSound s
    → IsSound record s {
      next_id = suc s.calls;
      entered = s.entered - 1;
      calls = s.calls + 1;
      ids = set s.ids s.calls (suc s.calls);
      channels = set s.channels s.calls empty;
      pending = insert (suc s.calls) s.calls s.pending;
      phases = set s.phases s.calls phase;
    }
numbered-Sound s phase sound = record {
  counted = omega arith;
  numbered = λ k h. elim (Bool-cases (k == s.calls)) [
    | inl hit ↦ rw hit (ap suc (sym ((nat_eq.beq_iff k s.calls).0 hit)))
    | inr miss ↦ rw miss (sound.numbered k (ground (arith, h, miss)))
  ];
  idle = λ k h.
      let other : k == s.calls ≡ false = ground (arith, h) in
      rw other (sound.idle k (omega (arith, h)));
  listed = λ id ch e. elim (Bool-cases (suc s.calls == id)) [
    | inl hit ↦
        let new : s.calls ≡ ch =
          ground (arith, rw (lookup-insert (suc s.calls) id s.calls s.pending, hit) at e) in
        subst (λ c. (c < s.calls + 1) × (suc c ≡ id) × (set s.channels s.calls empty c ≡ empty)) new
          (omega arith, (nat_eq.beq_iff (suc s.calls) id).0 hit, rw (beq_refl s.calls) refl)
    | inr miss ↦
        let (below, same, silent) =
          sound.listed id ch (rw (lookup-insert (suc s.calls) id s.calls s.pending, miss) at e) in
        let other : ch == s.calls ≡ false = ground (arith, below) in
        (omega (arith, below), same, rw other silent)
  ];
  delivers = registered-Delivers s.calls s.pending s.channels s.reader sound.delivers;
  waits = λ k h g silent. elim (Bool-cases (k == s.calls)) [
    | inl hit ↦
        let same = (nat_eq.beq_iff k s.calls).0 hit in
        inl (
          subst (λ c. lookup (suc c) (insert (suc s.calls) s.calls s.pending) ≡ some c) (sym same)
            (lookup-insert (suc s.calls) (suc s.calls) s.calls s.pending
              ∙ rw (beq_refl (suc s.calls)) refl))
    | inr miss ↦ elim (sound.waits k (ground (arith, h, miss)) (rw miss at g) (rw miss at silent)) [
      | inl found ↦
          let apart : suc s.calls == suc k ≡ false = ground (arith, miss) in
          inl (lookup-insert (suc s.calls) (suc k) s.calls s.pending ∙ rw apart found)
      | inr at ↦ inr at
    ]
  ];
}

pub register-Sound :
    (s : Client) (timed encodes : Bool)
    → IsSound s
    → s.calls + 1 < 2 ^ 32
    → IsSound (registered s timed encodes)
register-Sound s timed encodes sound bound =
    let id : (s.next_id + 1) % 2 ^ 32 ≡ suc s.calls = omega (arith, sound.counted, bound) in
    rw id (numbered-Sound s (if encodes then writing timed else dropping encode_failed) sound)
