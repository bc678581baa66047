-- ===== src/Proto/Pool.antt =====
-- pkg/proto/pool.go: the size classes, and what a released frame puts back. A backing array is a number;
-- a slice starts at its array, and tells its length and its capacity. The index -1 is none.
pub mod Classes
pub mod Releases
pub mod Tests
use simple_go_server.Common.{
  ℕ, zero, suc, ◌+◌, ◌-◌, ◌*◌, ◌/◌, ◌%◌, ◌^◌, ◌≤◌, ◌<◌, min, String, ◌≡◌, refl, sym, ap, ◌∙◌, subst,
  ◌≢◌, ◌↔◌, ◌⊎◌, inl, inr, Bool, true, false, not, ◌&&◌, ◌||◌, Option, none, some, List, [], ◌∷◌,
  ◌++◌, map, append-nil, append_assoc, arith, ltb, leb, if◌then◌else◌, Eq, ◌==◌, nat_eq, string_eq,
  nat_beq_iff, beq_refl, Bool-cases, Option-cases, length, get_elem?, get_or, take, drop, All,
  length-append, length-take, length-drop, take-append-drop, take-length-append, drop-length-append,
  get_elem?-lt, lt_of_get_elem?, All-append, All-get, take_all, drop_all,
}

abbrev pub payload_classes : List ℕ
payload_classes = 256 ∷ 1024 ∷ 4096 ∷ 16384 ∷ 65536 ∷ 262144 ∷ 1048576 ∷ []

-- The loops, from class `i` on.
unfoldable pub first_fitting : ℕ → ℕ → List ℕ → Option ℕ
first_fitting size i [] = none
first_fitting size i (c ∷ cs) = if leb size c then some i else first_fitting size (i + 1) cs

unfoldable pub class_index_for_size : ℕ → Option ℕ
class_index_for_size size = if size == 0 then none else first_fitting size 0 payload_classes

unfoldable pub last_fitting : ℕ → ℕ → Option ℕ → List ℕ → Option ℕ
last_fitting capacity i found [] = found
last_fitting capacity i found (c ∷ cs) =
    if ltb capacity c then found else last_fitting capacity (i + 1) (some i) cs

unfoldable pub class_index_for_cap : ℕ → Option ℕ
class_index_for_cap capacity =
    if ltb capacity 256 || ltb 1048576 capacity
    then none
    else last_fitting capacity 0 none payload_classes

pub record Slice : Type 0 where
  pub array : ℕ
  pub len : ℕ
  pub capacity : ℕ

-- The fields of a frame that serve the pools; a nil payload is `none`.
pub record PooledFrame : Type 0 where
  pub payload : Option Slice
  pub payload_cell : Option Slice
  pub from_pool : Bool
  pub released : Bool

-- What goes to the backend of the pools: the frame, or a cell, with its class and the slice in it.
pub data Put : Type 0 where
  put_frame : Put
  put_cell : ℕ → Slice → Put

-- The cell that is put, or a new one around the whole array.
abbrev pub boxed : Slice → Option Slice → Slice
boxed arr none = record arr { len = arr.capacity }
boxed arr (some cell) = cell

unfoldable pub put_payload_array : Option Slice → Option Slice → List Put
put_payload_array none cell = []
put_payload_array (some arr) cell = elim (class_index_for_cap arr.capacity) [
  | none ↦ []
  | some i ↦ put_cell i (boxed arr cell) ∷ []
]

unfoldable pub same_backing : Slice → Slice → Bool
same_backing a b = if (a.len == 0) || (b.len == 0) then false else a.array == b.array

unfoldable pub release_payload : Option Slice → Option Slice → List Put
release_payload payload none = put_payload_array payload none
release_payload none (some cell) =
    put_payload_array (some cell) (some cell) ++ put_payload_array none none
release_payload (some s) (some cell) =
    if same_backing s cell
    then put_payload_array (some s) (some cell)
    else put_payload_array (some cell) (some cell) ++ put_payload_array (some s) none

unfoldable pub release : PooledFrame → PooledFrame × List Put
release f = if not f.from_pool || f.released then (f, []) else (
  record { payload = none; payload_cell = none; from_pool = false; released = true },
  release_payload f.payload f.payload_cell ++ (put_frame ∷ []),
)
