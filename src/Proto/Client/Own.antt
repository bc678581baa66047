-- ===== src/Proto/Client/Own.antt =====
-- pkg/proto/client.go: whose response a call gets.
use simple_go_server.Common.{
  ℕ, ◌+◌, ◌%◌, ◌^◌, ◌<◌, ◌≡◌, subst, inl, inr, Bool, true, false, some, [], ◌∷◌, arith,
  if◌then◌else◌, ◌==◌, nat_eq, string_eq, beq_refl, Bool-cases, Option-cases,
}
use simple_go_server.Common.Dict.{Dict, lookup, delete, lookup-insert, lookup-delete}
use simple_go_server.Proto.{Frame}
use simple_go_server.Proto.Client.{
  Json, Response, response_of, Channel, empty, shut, filled, Phase, writing, dropping, answered,
  Reader, reading, delivering, failing, ended, Client, new_client, set, close_all, is_reply,
  registered, resolve_pending, encode_failed,
}

lt-ne : (j k : ℕ) → j < k → j == k ≡ false
lt-ne j k h = ground (arith, h)

-- What reaches a call by its id satisfies `P`, wherever the response is by now.
module _ (P : ℕ → Response → Type 0) where
  abbrev pub Carried : ℕ → Channel → Type 0
  Carried id empty = Unit {0}
  Carried id shut = Unit {0}
  Carried id (filled r) = P id r

  abbrev pub Answered : ℕ → Phase → Type 0
  Answered id (answered r) = P id r
  Answered id phase = Unit {0}

  abbrev pub Delivered : (ℕ → ℕ) → ℕ → Reader → Type 0
  Delivered ids calls (delivering ch r) = (ch < calls) × P (ids ch) r
  Delivered ids calls reader = Unit {0}

  pub record IsOwn (s : Client) : Type 0 where
    pub listed : (id ch : ℕ) → lookup id s.pending ≡ some ch → (ch < s.calls) × (s.ids ch ≡ id)
    pub carried : (k : ℕ) → Carried (s.ids k) (s.channels k)
    pub answers : (k : ℕ) → Answered (s.ids k) (s.phases k)
    pub delivers : Delivered s.ids s.calls s.reader

  pub new-IsOwn : IsOwn new_client
  unfolding lookup
  new-IsOwn = record {
    listed = λ id ch e. absurd (cc e);
    carried = λ k. tt;
    answers = λ k. tt;
    delivers = tt;
  }

  pub set-Answered :
      (ids : ℕ → ℕ) (phases : ℕ → Phase) (k : ℕ) (phase : Phase)
      → ((j : ℕ) → Answered (ids j) (phases j))
      → Answered (ids k) phase
      → (j : ℕ) → Answered (ids j) (set phases k phase j)
  set-Answered ids phases k phase old h j = elim (Bool-cases (j == k)) [
    | inl hit ↦ rw (hit, (nat_eq.beq_iff j k).0 hit) h
    | inr miss ↦ rw miss (old j)
  ]

  pub set-Carried :
      (ids : ℕ → ℕ) (channels : ℕ → Channel) (k : ℕ) (channel : Channel)
      → ((j : ℕ) → Carried (ids j) (channels j))
      → Carried (ids k) channel
      → (j : ℕ) → Carried (ids j) (set channels k channel j)
  set-Carried ids channels k channel old h j = elim (Bool-cases (j == k)) [
    | inl hit ↦ rw (hit, (nat_eq.beq_iff j k).0 hit) h
    | inr miss ↦ rw miss (old j)
  ]

  pub phase-IsOwn :
      (s : Client) (k : ℕ) (phase : Phase)
      → IsOwn s
      → Answered (s.ids k) phase
      → IsOwn record s { phases = set s.phases k phase }
  phase-IsOwn s k phase own h = record {
    listed = own.listed;
    carried = own.carried;
    answers = set-Answered s.ids s.phases k phase own.answers h;
    delivers = own.delivers;
  }

  pub close_all-Carried :
      (ids : ℕ → ℕ) (pending : Dict ℕ ℕ) (channels : ℕ → Channel)
      → ((j : ℕ) → Carried (ids j) (channels j))
      → (j : ℕ) → Carried (ids j) (close_all pending channels j)
  unfolding close_all
  close_all-Carried ids [] channels h = h
  close_all-Carried ids ((id, ch) ∷ rest) channels h =
      close_all-Carried ids rest (set channels ch shut) (set-Carried ids channels ch shut h tt)

  pub drop-listed :
      (s : Client) (gone : ℕ)
      → IsOwn s
      → (id ch : ℕ) → lookup id (delete gone s.pending) ≡ some ch
      → (ch < s.calls) × (s.ids ch ≡ id)
  drop-listed s gone own id ch e = elim (Bool-cases (gone == id)) [
    | inl hit ↦ absurd (cc (rw (lookup-delete gone id s.pending, hit) at e))
    | inr miss ↦ own.listed id ch (rw (lookup-delete gone id s.pending, miss) at e)
  ]

  register-Answered :
      (id : ℕ) (timed encodes : Bool)
      → Answered id (if encodes then writing timed else dropping encode_failed)
  register-Answered id timed true = tt
  register-Answered id timed false = tt

  more-Delivered :
      (ids : ℕ → ℕ) (calls id : ℕ) (reader : Reader)
      → Delivered ids calls reader
      → Delivered (set ids calls id) (calls + 1) reader
  more-Delivered ids calls id (delivering ch r) (below, h) =
      (omega (arith, below), rw (lt-ne ch calls below) h)
  more-Delivered ids calls id reading h = tt
  more-Delivered ids calls id failing h = tt
  more-Delivered ids calls id ended h = tt

  pub register-IsOwn :
      (s : Client) (timed encodes : Bool) → IsOwn s → IsOwn (registered s timed encodes)
  register-IsOwn s timed encodes own =
      let id = (s.next_id + 1) % 2 ^ 32 in
      record {
        listed = λ asked ch e. elim (Bool-cases (id == asked)) [
          | inl hit ↦
              let call : s.calls ≡ ch =
                ground (arith, rw (lookup-insert id asked s.calls s.pending, hit) at e) in
              subst (λ c. (c < s.calls + 1) × (set s.ids s.calls id c ≡ asked)) call
                (omega arith, rw (beq_refl s.calls) ((nat_eq.beq_iff id asked).0 hit))
          | inr miss ↦
              let (below, same) =
                own.listed asked ch (rw (lookup-insert id asked s.calls s.pending, miss) at e) in
              (omega (arith, below), rw (lt-ne ch s.calls below) same)
        ];
        carried = λ j. elim (Bool-cases (j == s.calls)) [
          | inl hit ↦ rw hit tt
          | inr miss ↦ rw miss (own.carried j)
        ];
        answers = λ j. elim (Bool-cases (j == s.calls)) [
          | inl hit ↦ rw hit (register-Answered id timed encodes)
          | inr miss ↦ rw miss (own.answers j)
        ];
        delivers = more-Delivered s.ids s.calls id s.reader own.delivers;
      }

  pub resolve-IsOwn :
      (json : Json) (frame : Frame) (s : Client)
      → IsOwn s
      → (is_reply frame ≡ true → P frame.header.stream_id (response_of json frame))
      → is_reply frame ≡ true
      → IsOwn (resolve_pending s json frame)
  unfolding resolve_pending
  resolve-IsOwn json frame s own good reply =
      elim (Option-cases (lookup frame.header.stream_id s.pending)) [
        | inl nobody ↦ rw (resolve_pending, nobody) own
        | inr (ch, found) ↦
            let (below, same) = own.listed frame.header.stream_id ch found in
            rw (resolve_pending, found)
              record {
                listed = drop-listed s frame.header.stream_id own;
                carried = own.carried;
                answers = own.answers;
                delivers = (below, rw same (good reply));
              }
      ]
