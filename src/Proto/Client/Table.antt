-- ===== src/Proto/Client/Table.antt =====
-- pkg/proto/client.go: the read loop and the table of the calls that wait.
use simple_go_server.Common.{
  ℕ, suc, ◌≡◌, refl, ap, ◌∙◌, subst, inl, inr, true, some, [], ◌∷◌, arith, ◌==◌, nat_eq, string_eq,
  Bool-cases, Option-cases,
}
use simple_go_server.Common.Dict.{Dict, lookup, delete, lookup-delete}
use simple_go_server.Proto.{Frame}
use simple_go_server.Proto.Client.{
  Json, Response, response_of, Channel, empty, shut, filled, reading, delivering, failing, Client,
  set, close_all, resolve_pending,
}
use simple_go_server.Proto.Client.Waiting.{IsAt, Delivers, IsSound, deleted-some}

-- resolvePending takes a channel out of the table.
taken-Sound :
    (s : Client) (id ch : ℕ) (r : Response)
    → IsSound s
    → s.reader ≡ reading
    → lookup id s.pending ≡ some ch
    → IsSound record s { pending = delete id s.pending; reader = delivering ch r }
taken-Sound s id ch r sound idle found =
    let (below, same, silent) = sound.listed id ch found in
    record {
      counted = sound.counted;
      numbered = sound.numbered;
      idle = sound.idle;
      listed = λ other k f. sound.listed other k (deleted-some id other k s.pending f);
      delivers = (below, silent, lookup-delete id (suc ch) s.pending ∙ ground (arith, same));
      waits = λ k h g e. elim (Bool-cases (id == suc k)) [
        | inl hit ↦ inr (ground (arith, hit, same))
        | inr miss ↦ elim (sound.waits k h g e) [
          | inl entered ↦ inl (lookup-delete id (suc k) s.pending ∙ rw miss entered)
          | inr at ↦ absurd (subst (IsAt k) idle at)
        ]
      ];
    }

pub resolve-Sound :
    (json : Json) (frame : Frame) (s : Client)
    → IsSound s
    → s.reader ≡ reading
    → IsSound (resolve_pending s json frame)
unfolding resolve_pending
resolve-Sound json frame s sound idle =
    elim (Option-cases (lookup frame.header.stream_id s.pending)) [
      | inl nobody ↦ rw (resolve_pending, nobody) sound
      | inr (ch, found) ↦
          rw (resolve_pending, found)
            (taken-Sound s frame.header.stream_id ch (response_of json frame) sound idle found)
    ]

-- The send fills a channel that was empty.
pub sent-Sound :
    (s : Client) (ch : ℕ) (r : Response)
    → IsSound s
    → s.reader ≡ delivering ch r
    → IsSound record s { channels = set s.channels ch (filled r); reader = reading }
sent-Sound s ch r sound at =
    let (below, silent, gone) = subst (Delivers s.calls s.pending s.channels) at sound.delivers in
    record {
      counted = sound.counted;
      numbered = sound.numbered;
      idle = sound.idle;
      listed = λ id k f. elim (Bool-cases (k == ch)) [
        | inl hit ↦
            let (h, same, e) = sound.listed id k f in
            absurd (cc (f, gone, same, ap suc ((nat_eq.beq_iff k ch).0 hit)))
        | inr miss ↦ let (h, same, e) = sound.listed id k f in (h, same, rw miss e)
      ];
      delivers = tt;
      waits = λ k h g e. elim (Bool-cases (k == ch)) [
        | inl hit ↦ absurd (cc (rw hit at e))
        | inr miss ↦ elim (sound.waits k h g (rw miss at e)) [
          | inl entered ↦ inl entered
          | inr here ↦ absurd (ground (arith, subst (IsAt k) at here, miss))
        ]
      ];
    }

close_all-shut :
    (pending : Dict ℕ ℕ) (channels : ℕ → Channel) (k : ℕ)
    → channels k ≡ shut
    → close_all pending channels k ≡ shut
unfolding close_all
close_all-shut [] channels k e = e
close_all-shut ((id, ch) ∷ rest) channels k e =
    close_all-shut rest (set channels ch shut) k (ground (arith, e))

-- failPending closes the channel of each entry, and no channel comes to be empty.
close_all-listed :
    (pending : Dict ℕ ℕ) (channels : ℕ → Channel) (id k : ℕ)
    → lookup id pending ≡ some k
    → close_all pending channels k ≡ shut
unfolding close_all lookup
close_all-listed [] channels id k e = absurd (cc e)
close_all-listed ((other, ch) ∷ rest) channels id k e = elim (Bool-cases (other == id)) [
  | inl hit ↦
      let named : some ch ≡ some k = rw (lookup, hit) at e in
      let same : k == ch ≡ true = ground (arith, named) in
      close_all-shut rest (set channels ch shut) k (rw same refl)
  | inr miss ↦ close_all-listed rest (set channels ch shut) id k (rw (lookup, miss) at e)
]

close_all-empty :
    (pending : Dict ℕ ℕ) (channels : ℕ → Channel) (k : ℕ)
    → close_all pending channels k ≡ empty
    → channels k ≡ empty
unfolding close_all
close_all-empty [] channels k e = e
close_all-empty ((id, ch) ∷ rest) channels k e =
    let before = close_all-empty rest (set channels ch shut) k e in
    elim (Bool-cases (k == ch)) [
      | inl hit ↦ absurd (cc (rw hit at before))
      | inr miss ↦ rw miss at before
    ]

pub failed-Sound :
    (s : Client)
    → IsSound s
    → s.reader ≡ reading
    → IsSound record s { channels = close_all s.pending s.channels; pending = []; reader = failing }
unfolding lookup
failed-Sound s sound idle = record {
  counted = sound.counted;
  numbered = sound.numbered;
  idle = sound.idle;
  listed = λ id ch e. absurd (cc e);
  delivers = tt;
  waits = λ k h g e. elim (sound.waits k h g (close_all-empty s.pending s.channels k e)) [
    | inl entered ↦ absurd (cc (e, close_all-listed s.pending s.channels (suc k) k entered))
    | inr at ↦ absurd (subst (IsAt k) idle at)
  ];
}
