-- ===== src/Pipeline.antt =====
-- internal/handler/linked_pipeline.go and the nodes of internal/handler/node_context.go, with the
-- interfaces of pkg/handler/handler.go. A pointer to a node is a number, nil is `none`, and a call
-- that panics answers `none`. An index is an int; a pipeline has fewer nodes than an int counts.
pub mod Walks
pub mod Linked
pub mod Shape
pub mod Adding
pub mod Positions
pub mod Histories
pub mod Searching
pub mod Passing
pub mod Writing
pub mod Tests
use simple_go_server.Common.{
  ℕ, zero, suc, ◌+◌, ◌-◌, ◌*◌, ◌/◌, ◌%◌, ◌^◌, ◌≤◌, ◌<◌, min, String, ◌≡◌, refl, sym, ap, ◌∙◌, subst,
  ◌≢◌, ◌↔◌, ◌⊎◌, inl, inr, Bool, true, false, not, ◌&&◌, ◌||◌, Option, none, some, List, [], ◌∷◌,
  ◌++◌, map, append-nil, append_assoc, arith, ltb, leb, if◌then◌else◌, Eq, ◌==◌, nat_eq, string_eq,
  nat_beq_iff, beq_refl, Bool-cases, Option-cases, length, get_elem?, get_or, take, drop, All,
  length-append, length-take, length-drop, take-append-drop, take-length-append, drop-length-append,
  get_elem?-lt, lt_of_get_elem?, All-append, All-get, take_all, drop_all,
}
use simple_go_server.Common.Dict.{Dict, lookup, insert}
use simple_go_server.Common.Int.{ℤ, pos, negsuc}

-- A handler: which value it is, and which of the handler interfaces its type implements.
pub record Handler : Type 0 where
  pub id : ℕ
  pub active : Bool
  pub inbound : Bool
  pub outbound : Bool
  pub exception : Bool
  pub inactive : Bool
  pub executor : Bool

abbrev pub head_handler : Handler
head_handler = record {
  id = 0;
  active = false;
  inbound = false;
  outbound = true;
  exception = false;
  inactive = false;
  executor = false;
}

abbrev pub tail_header : Handler
tail_header = record {
  id = 1;
  active = false;
  inbound = false;
  outbound = false;
  exception = true;
  inactive = false;
  executor = false;
}

abbrev pub error_handler : Handler
error_handler = record {
  id = 2;
  active = false;
  inbound = false;
  outbound = false;
  exception = true;
  inactive = false;
  executor = false;
}

-- A value of the interface type Handler is nil or a handler; IsValidHandlers refuses nil and what
-- implements none of the interfaces.
unfoldable pub is_valid_handlers : List (Option Handler) → Bool
is_valid_handlers [] = true
is_valid_handlers (none ∷ hs) = false
is_valid_handlers (some h ∷ hs) =
    if h.active || h.inbound || h.outbound || h.inactive || h.executor || h.exception
    then is_valid_handlers hs
    else false

-- A node; the fields activeHandler to executorHandler say again which interfaces the handler has.
pub record Node : Type 0 where
  pub handler : Option Handler
  pub prev : Option ℕ
  pub next : Option ℕ

-- The nodes that were allocated, from 0 up to `allocated`, and the fields of LinkedPipeline.
pub record Pipeline : Type 0 where
  pub nodes : Dict ℕ Node
  pub allocated : ℕ
  pub head : ℕ
  pub tail : ℕ
  pub size : ℕ

-- `n.next = x` and `n.prev = x`.
unfoldable pub set_next : ℕ → Option ℕ → Dict ℕ Node → Dict ℕ Node
set_next i x nodes = elim (lookup i nodes) [
  | none ↦ nodes
  | some n ↦ insert i (record { handler = n.handler; prev = n.prev; next = x }) nodes
]

unfoldable pub set_prev : ℕ → Option ℕ → Dict ℕ Node → Dict ℕ Node
set_prev i x nodes = elim (lookup i nodes) [
  | none ↦ nodes
  | some n ↦ insert i (record { handler = n.handler; prev = x; next = n.next }) nodes
]

unfoldable pub next_of : Dict ℕ Node → ℕ → Option ℕ
next_of nodes i = elim (lookup i nodes) [ none ↦ none | some n ↦ n.next ]

unfoldable pub prev_of : Dict ℕ Node → ℕ → Option ℕ
prev_of nodes i = elim (lookup i nodes) [ none ↦ none | some n ↦ n.prev ]

unfoldable pub handler_of : Dict ℕ Node → ℕ → Option Handler
handler_of nodes i = elim (lookup i nodes) [ none ↦ none | some n ↦ n.handler ]

abbrev pub new_node_context : Option Handler → Option ℕ → Option ℕ → ℕ → Dict ℕ Node → Dict ℕ Node
new_node_context h prev next fresh nodes =
    insert fresh (record { handler = h; prev = prev; next = next }) nodes

abbrev pub new_pipeline : Pipeline
new_pipeline = record {
  nodes = set_prev 1 (some 0) (
      set_next 0 (some 1) (
        new_node_context (some tail_header) none none 1
          (new_node_context (some head_handler) none none 0 [])));
  allocated = 2;
  head = 0;
  tail = 1;
  size = 2;
}

-- A handler behind a node: the loop body of AddHandler, and addFirst at the head. The node behind
-- must be there: its `prev` is written.
unfoldable pub insert_behind : ℕ → Option Handler → Pipeline → Option Pipeline
insert_behind cur h p = elim (next_of p.nodes cur) [
  | none ↦ none
  | some old ↦ some record {
    nodes = set_prev old (some p.allocated) (
        set_next cur (some p.allocated)
          (new_node_context h (some cur) (some old) p.allocated p.nodes));
    allocated = p.allocated + 1;
    head = p.head;
    tail = p.tail;
    size = p.size + 1;
  }
]

unfoldable pub add_first_one : Option Handler → Pipeline → Option Pipeline
add_first_one h p = insert_behind p.head h p

unfoldable pub add_last_one : Option Handler → Pipeline → Option Pipeline
add_last_one h p = elim (prev_of p.nodes p.tail) [
  | none ↦ none
  | some old ↦ some record {
    nodes = set_next old (some p.allocated) (
        set_prev p.tail (some p.allocated)
          (new_node_context h (some old) (some p.tail) p.allocated p.nodes));
    allocated = p.allocated + 1;
    head = p.head;
    tail = p.tail;
    size = p.size + 1;
  }
]

-- The loops over the handlers.
unfoldable pub add_firsts : List (Option Handler) → Pipeline → Option Pipeline
add_firsts [] p = some p
add_firsts (h ∷ hs) p = elim (add_first_one h p) [ none ↦ none | some q ↦ add_firsts hs q ]

unfoldable pub add_lasts : List (Option Handler) → Pipeline → Option Pipeline
add_lasts [] p = some p
add_lasts (h ∷ hs) p = elim (add_last_one h p) [ none ↦ none | some q ↦ add_lasts hs q ]

unfoldable pub add_behind : ℕ → List (Option Handler) → Pipeline → Option Pipeline
add_behind cur [] p = some p
add_behind cur (h ∷ hs) p = elim (insert_behind cur h p) [
  | none ↦ none
  | some q ↦ elim (next_of q.nodes cur) [ none ↦ none | some new ↦ add_behind new hs q ]
]

unfoldable pub add_first : List (Option Handler) → Pipeline → Option Pipeline
add_first hs p = if is_valid_handlers hs then add_firsts hs p else none

unfoldable pub add_last : List (Option Handler) → Pipeline → Option Pipeline
add_last hs p = if is_valid_handlers hs then add_lasts hs p else none

-- `position` steps from the head; nil has no next.
unfoldable pub walk_to : Dict ℕ Node → ℕ → ℕ → Option ℕ
walk_to nodes zero cur = some cur
walk_to nodes (suc position) cur = elim (next_of nodes cur) [
  | none ↦ none
  | some node ↦ walk_to nodes position node
]

-- The position with the checks of AddHandler behind it.
unfoldable pub add_at : ℕ → List (Option Handler) → Pipeline → Option Pipeline
add_at position hs p =
    if ltb p.size position
    then none
    else if position == 0
    then add_first hs p
    else if position == p.size
    then add_last hs p
    else elim (walk_to p.nodes position p.head) [ none ↦ none | some cur ↦ add_behind cur hs p ]

unfoldable pub add_handler : ℤ → List (Option Handler) → Pipeline → Option Pipeline
add_handler (pos position) hs p = if is_valid_handlers hs then add_at position hs p else none
add_handler (negsuc n) hs p = none

unfoldable pub with_default_pipeline : Pipeline → Option Pipeline
with_default_pipeline p = add_last (some error_handler ∷ []) p

unfoldable pub context_at : ℤ → Pipeline → Option ℕ
context_at (pos position) p = if leb p.size position then none else walk_to p.nodes position p.head
context_at (negsuc n) p = none
