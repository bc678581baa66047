-- ===== src/Proto/Server/Publishing.antt =====
-- `Publish`: the number, the frame, the cache and the writes.
use simple_go_server.Common.{
  ℕ, ◌+◌, ◌%◌, ◌^◌, String, Bool, true, false, not, ◌&&◌, Option, none, some, List, [], ◌∷◌,
  if◌then◌else◌, ◌==◌, nat_eq, string_eq, length,
}
use simple_go_server.Common.Dict.{lookup, insert, or_empty, or_zero}
use simple_go_server.Proto.{Error, ok, err, stuck, publish}
use simple_go_server.Proto.Codec.{encode, new_frame}
use simple_go_server.Proto.Server.{Handler, records_topic, remove_subscriber}
use simple_go_server.Proto.Server.Cache.{remember_publish}

pub data Published : Type 0 where
  marshal_failed : Published
  refused : Error → Published
  delivered : ℕ → Published

-- The loop over the members. `writes` tells whether the write to a connection succeeds.
unfoldable pub deliver : (ℕ → Bool) → Handler → String → List ℕ → ℕ → Handler × ℕ
deliver writes h topic [] count = (h, count)
deliver writes h topic (conn ∷ members) count = elim (writes conn) [
  | true ↦ deliver writes h topic members (count + 1)
  | false ↦ deliver writes (remove_subscriber h topic conn) topic members count
]

unfoldable pub next_sequence : Handler → String → ℕ
next_sequence h topic = (or_zero (lookup topic h.topic_seqs) + 1) % 2 ^ 32

unfoldable pub numbered : Handler → String → Handler
numbered h topic = record h { topic_seqs = insert topic (next_sequence h topic) h.topic_seqs }

-- From the number on. `members` was read before.
unfoldable pub send :
    (String → List ℕ → List ℕ)
    → (ℕ → Bool)
    → Handler
    → String
    → List ℕ
    → List ℕ
    → Handler × Published
send must_json writes h topic body members =
    let seq = next_sequence h topic in
    let h' = numbered h topic in
    elim (encode (new_frame publish seq (must_json topic body))) [
      | err e ↦ (h', refused e)
      | stuck ↦ (h', marshal_failed)
      | ok buf ↦
          let (h'', count) =
            deliver writes (record h' { cache = remember_publish h'.cache topic seq buf }) topic
              members 0 in
          (h'', delivered count)
    ]

-- `body` is what `json.Marshal` makes of the payload, `must_json` the envelope.
unfoldable pub publish_to :
    (String → List ℕ → List ℕ)
    → (ℕ → Bool)
    → Handler
    → String
    → Option (List ℕ)
    → Handler × Published
publish_to must_json writes h topic none = (h, marshal_failed)
publish_to must_json writes h topic (some body) =
    let members = or_empty (lookup topic h.subs) in
    if length members == 0 && not (records_topic h.sessions topic)
    then (h, delivered 0)
    else send must_json writes h topic body members
