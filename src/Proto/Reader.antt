-- ===== src/Proto/Reader.antt =====
-- An `io.Reader` as what will still arrive on it and how it ends, and `io.ReadFull` over it, after
-- its documentation: all the bytes asked for, or an error, which is `ErrUnexpectedEOF` in place of
-- `EOF` if some bytes came before the end.
use simple_go_server.Common.{
  ℕ, ◌<◌, ◌≡◌, List, [], ◌++◌, arith, leb, if◌then◌else◌, ◌==◌, nat_eq, string_eq, length, take,
  drop, length-append, length-take, take-append-drop, take-length-append, drop-length-append,
}
use simple_go_server.Proto.{ReadError, eof, unexpected_eof, deadline_exceeded, failed}

pub record Reader : Type 0 where
  pub bytes : List ℕ
  pub ending : ReadError

pub data Reading : Type 0 where
  full : List ℕ → Reading
  short : ℕ → ReadError → Reading

abbrev pub partial : ReadError → ReadError
partial eof = unexpected_eof
partial unexpected_eof = unexpected_eof
partial deadline_exceeded = deadline_exceeded
partial failed = failed

unfoldable pub read_full : ℕ → Reader → Reading × Reader
read_full n r =
    if leb n (length r.bytes)
    then (full (take n r.bytes), record r { bytes = drop n r.bytes })
    else (
      short (length r.bytes) (if length r.bytes == 0 then r.ending else partial r.ending),
      record r { bytes = [] },
    )

pub read_full-append :
    (xs rest : List ℕ) (e : ReadError)
    → read_full (length xs) (record { bytes = xs ++ rest; ending = e })
      ≡ (full xs, record { bytes = rest; ending = e })
unfolding read_full
read_full-append xs rest e =
    rw (take-length-append xs rest, drop-length-append xs rest)
      (ground (arith, length-append xs rest))

-- A full read is a prefix of the stream, and nothing else of the stream is lost.
pub read_full-full :
    (n : ℕ) (r : Reader) (xs : List ℕ)
    → (read_full n r).0 ≡ full xs
    → (length xs ≡ n)
      × (r.bytes ≡ xs ++ (read_full n r).1.bytes)
      × ((read_full n r).1.ending ≡ r.ending)
unfolding read_full
read_full-full n r xs h = ground (arith, length-take n r.bytes, take-append-drop n r.bytes)

-- A read of more than there is fails.
pub read_full-short :
    (n : ℕ) (r : Reader)
    → length r.bytes < n
    → read_full n r ≡ (
      short (length r.bytes) (if length r.bytes == 0 then r.ending else partial r.ending),
      record r { bytes = [] },
    )
unfolding read_full
read_full-short n r h = ground arith
