-- ===== src/Proto/Pool/Tests.antt =====
-- pkg/proto/pool.go: classes and releases on concrete sizes.
use simple_go_server.Common.{
  ℕ, ◌≤◌, ◌<◌, ◌≡◌, refl, true, false, ◌||◌, if◌then◌else◌, some, [], ◌∷◌, arith, nat_eq, string_eq,
  get_elem?, take, All,
}
use simple_go_server.Proto.Pool.{
  payload_classes, class_index_for_size, class_index_for_cap, PooledFrame, put_frame, put_cell,
  release, release_payload, same_backing, put_payload_array, last_fitting,
}
use simple_go_server.Proto.Pool.Classes.{size_class-IsLeast}
use simple_go_server.Proto.Pool.Releases.{IsWithin, times, frames, serves, release_returns_each}

size_class-IsLeast_example :
    (i : ℕ) × (c : ℕ) × (class_index_for_size 5000 ≡ some i)
    × (get_elem? payload_classes i ≡ some c)
    × (5000 ≤ c)
    × All (λ d. d < 5000) (take i payload_classes)
    × (class_index_for_cap c ≡ some i)
size_class-IsLeast_example = size_class-IsLeast 5000 (omega arith) (omega arith)

-- An aggregate that grew out of its first buffer.
abbrev grown : PooledFrame
grown = record {
  payload = some record { array = 1; len = 5000; capacity = 6000 };
  payload_cell = some record { array = 0; len = 256; capacity = 256 };
  from_pool = true;
  released = false;
}

release_returns_each_example :
    All IsWithin (release grown).1
    × (frames (release grown).1 ≡ 1)
    × ((array : ℕ)
        → times array (release grown).1
          ≡ (if serves array grown.payload || serves array grown.payload_cell then 1 else 0))
    × ((release (release grown).0).1 ≡ [])
release_returns_each_example =
    release_returns_each grown refl refl (omega arith, omega arith, λ e. absurd (omega (arith, e)))

-- A frame that still has the buffer that it was decoded into: the cell is put, not the shorter slice.
abbrev decoded : PooledFrame
decoded = record {
  payload = some record { array = 0; len = 200; capacity = 256 };
  payload_cell = some record { array = 0; len = 256; capacity = 256 };
  from_pool = true;
  released = false;
}

decoded_test :
    (release decoded).1
    ≡ put_cell 0 (record { array = 0; len = 256; capacity = 256 }) ∷ put_frame ∷ []
unfolding release release_payload same_backing put_payload_array class_index_for_cap last_fitting
decoded_test = ground arith
