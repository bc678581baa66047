-- ===== src/HttpService/Tests.antt =====
-- http-service: requests to the store in memory.
use simple_go_server.Common.{
  ℕ, ◌≡◌, refl, Bool, false, ◌&&◌, none, List, [], ◌∷◌, map, leb, arith, nat_eq, string_eq,
}
use simple_go_server.Common.Dict.{lookup, insert}
use simple_go_server.Common.Int.{pos, add_int, wrap}
use simple_go_server.HttpService.{
  Request, get, delete, put, handle, serve, valid_key, printable, service_get, service_put, checked,
  read_limited, service_delete,
}
use simple_go_server.HttpService.Memory.{new_memory_store, memory_store, put as put_item, remove}
use simple_go_server.HttpService.Contract.{answer_all, serve_refines_map}
use simple_go_server.HttpService.Putting.{PutAnswer, put-PutAnswer}
use simple_go_server.HttpService.Entries.{IsEntry, entries-IsEntry}

-- Digits are valid JSON here.
abbrev digits : List ℕ → Bool
digits [] = false
digits (c ∷ cs) = leb 48 c && leb c 57

abbrev key_a : List ℕ
key_a = 97 ∷ []

abbrev requests : List Request
requests =
    get key_a
    ∷ put key_a (record { bytes = 49 ∷ []; breaks = false })
    ∷ put key_a (record { bytes = 50 ∷ []; breaks = false })
    ∷ put key_a (record { bytes = 50 ∷ 50 ∷ 50 ∷ 50 ∷ []; breaks = false })
    ∷ get key_a
    ∷ delete []
    ∷ []

codes_test :
    map (λ reply. reply.code) (serve memory_store digits (pos 3) requests new_memory_store).1
    ≡ 404 ∷ 201 ∷ 200 ∷ 413 ∷ 200 ∷ 400 ∷ []
unfolding serve handle service_get service_put service_delete checked read_limited valid_key
    printable memory_store put_item remove lookup insert add_int wrap
codes_test = refl

serve_refines_map_example :
    ((serve memory_store digits (pos 3) requests new_memory_store).1
      ≡ (answer_all memory_store digits (pos 3) requests (λ key. none)).1)
    × ((key : List ℕ)
        → memory_store.fetch key (serve memory_store digits (pos 3) requests new_memory_store).0
          ≡ (answer_all memory_store digits (pos 3) requests (λ k. none)).0 key)
unfolding memory_store lookup
serve_refines_map_example =
    serve_refines_map memory_store digits (pos 3) new_memory_store (λ key. refl) requests

entries-IsEntry_example : IsEntry memory_store digits (pos 3) key_a (50 ∷ [])
unfolding serve handle service_get service_put service_delete checked read_limited valid_key
    printable memory_store put_item remove lookup insert add_int wrap
entries-IsEntry_example =
    entries-IsEntry memory_store digits (pos 3) new_memory_store (λ key. refl) requests key_a
      (50 ∷ []) refl

put-PutAnswer_example :
    PutAnswer memory_store digits 3 key_a
      (record { bytes = 49 ∷ []; breaks = false })
      new_memory_store
      (handle memory_store digits
        (pos 3)
        (put key_a (record { bytes = 49 ∷ []; breaks = false }))
        new_memory_store)
put-PutAnswer_example =
    put-PutAnswer memory_store digits 3 (omega arith) key_a
      (record { bytes = 49 ∷ []; breaks = false }) new_memory_store
