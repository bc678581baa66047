-- ===== src/Pipeline/Tests.antt =====
-- internal/handler: the pipeline on concrete handlers.
use simple_go_server.Common.{
  ℕ, ◌≡◌, refl, Bool, true, false, Option, none, some, List, [], ◌∷◌, ◌++◌, arith, ◌==◌, nat_eq,
  string_eq,
}
use simple_go_server.Common.Dict.{lookup, insert}
use simple_go_server.Common.Int.{ℤ, pos}
use simple_go_server.Pipeline.{
  Handler, Pipeline, next_of, prev_of, handler_of, head_handler, tail_header, new_pipeline,
  set_next, set_prev, insert_behind, add_first_one, add_last_one, add_firsts, add_lasts, add_behind,
  add_first, add_last, add_at, add_handler, is_valid_handlers, walk_to, context_at,
}
use simple_go_server.Pipeline.Linked.{IsLinked}
use simple_go_server.Pipeline.Adding.{
  Op, first, last, at_position, Agrees, Represents, whole, onto, spec_at, spec_op,
}
use simple_go_server.Pipeline.Histories.{run, spec, run_refines_list}
use simple_go_server.Pipeline.Walks.{
  visits, inward, outward, implements, index_of, index_from, last_index_of,
}
use simple_go_server.Pipeline.Passing.{capable, turned}
use simple_go_server.Pipeline.Writing.{passed_on_visits_all, IsAnswered, write-IsAnswered}
use simple_go_server.Pipeline.Searching.{IsFirst, IsLast, indices_of-IsFirst, context_at-index_of}

abbrev reader : Handler
reader = record {
  id = 10;
  active = false;
  inbound = true;
  outbound = false;
  exception = false;
  inactive = false;
  executor = false;
}

abbrev codec : Handler
codec = record {
  id = 11;
  active = false;
  inbound = true;
  outbound = true;
  exception = false;
  inactive = false;
  executor = false;
}

abbrev history : List Op
history =
    last (some codec ∷ some reader ∷ [])
    ∷ first (some reader ∷ some codec ∷ [])
    ∷ at_position (pos 2) (some reader ∷ [])
    ∷ []

run_refines_list_example : Agrees (run history new_pipeline) (spec history [])
run_refines_list_example = run_refines_list history

-- The same handler behind the tail panics.
behind_tail_test :
    run (last (some codec ∷ []) ∷ at_position (pos 2) (some reader ∷ []) ∷ []) new_pipeline ≡ none
unfolding run add_last is_valid_handlers add_lasts add_last_one prev_of lookup set_next set_prev
    insert add_handler add_at walk_to next_of add_behind insert_behind
behind_tail_test = refl

abbrev sample : Pipeline
unfolding run
sample = elim (run history new_pipeline) [ none ↦ new_pipeline | some p ↦ p ]

abbrev held : List (Option Handler)
held = some codec ∷ some reader ∷ some reader ∷ some codec ∷ some reader ∷ []

sample-Represents : Represents sample held
unfolding run add_last is_valid_handlers add_lasts add_last_one prev_of lookup set_next set_prev
    insert add_handler add_at walk_to next_of add_behind insert_behind add_first add_firsts
    add_first_one spec spec_op spec_at onto
sample-Represents = run_refines_list history

abbrev inbound : Handler → Bool
inbound h = h.inbound

passed_on_visits_all_example :
    (visits (λ n. inward sample n inbound) sample.size sample.head
      ≡ capable
          (implements inbound)
          (sample-Represents.mid ++ (sample.tail, some tail_header) ∷ []))
    × (visits (λ n. outward sample n inbound) sample.size sample.tail
        ≡ capable
            (implements inbound)
            (turned ((sample.head, some head_handler) ∷ sample-Represents.mid) []))
passed_on_visits_all_example = passed_on_visits_all sample held sample-Represents inbound

abbrev small : Pipeline
unfolding run
small = elim (run (last (some codec ∷ []) ∷ []) new_pipeline) [ none ↦ new_pipeline | some p ↦ p ]

abbrev small-Represents : Represents small (some codec ∷ [])
unfolding run add_last is_valid_handlers add_lasts add_last_one prev_of lookup set_next set_prev
    insert IsLinked
small-Represents = record {
  mid = (2, some codec) ∷ [];
  shape = record {
    linked = (refl, (refl, (refl, tt)));
    distinct = ((refl, (refl, tt)), ((refl, tt), (tt, tt)));
    below = (omega arith, (omega arith, (omega arith, tt)));
    counted = refl;
  };
  held = refl;
}

write-IsAnswered_example :
    IsAnswered
      (λ n. n == 2)
      small
      ((2, some codec) ∷ [])
      ((small.head, some head_handler) ∷ (2, some codec) ∷ [])
      1
unfolding small-Represents
write-IsAnswered_example =
    write-IsAnswered (λ n. n == 2) small (some codec ∷ []) small-Represents ((2, some codec) ∷ [])
      [] 1 (some tail_header) refl

indices_of-IsFirst_example :
    ((i : ℤ) × (index_of (implements inbound) small ≡ some i)
      × IsFirst (implements inbound) (whole small ((2, some codec) ∷ [])) i)
    × ((j : ℤ) × (last_index_of (implements inbound) small ≡ some j)
        × IsLast (implements inbound) (whole small ((2, some codec) ∷ [])) j)
unfolding small-Represents
indices_of-IsFirst_example =
    indices_of-IsFirst (implements inbound) small (some codec ∷ []) small-Represents

context_at-index_of_example :
    (n : ℕ) × (context_at (pos 1) small ≡ some n)
    × (implements inbound (handler_of small.nodes n) ≡ true)
unfolding small-Represents index_of index_from handler_of lookup set_next set_prev insert next_of
    run add_last is_valid_handlers add_lasts add_last_one prev_of
context_at-index_of_example =
    context_at-index_of (implements inbound) small (some codec ∷ []) small-Represents 1 refl
