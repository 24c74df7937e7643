-- ===== src/Tests/Buffer.antt =====
-- Runs of `ByteBuffer`.
use zls.Base.{◌≡◌, refl, List, [], ◌∷◌, ◌++◌, replicate, drop, arith}
use zls.Base.Bytes.{codes}
use zls.Buffer.{
  ByteBuffer, prepend_size, create, append, retrieve, retrieve_all, retrieve_as_string,
  retrieve_all_as_string, retrieve_until, prepend, shrink, unwrite, ensure_writable_bytes,
  make_space, grow, move_to_front, store, has_written, readable_bytes, writable_bytes,
  prependable_bytes, peek, find_crlf_in, find_eol_in, Readv, received, read_fd, write_fd, offered,
}
use zls.Buffer.Slices.{slice, resize}
use zls.Buffer.Invariant.{IsValid}
use zls.Buffer.Contents.{
  contents, contents-append, contents-prepend, contents-shrink, contents-retrieve,
}
use zls.Buffer.Search.{IsFirstCrlf, find_crlf_in-IsFirstCrlf}
use zls.Buffer.Search.{IsFirst, find_eol_in-IsFirst}
use zls.Base.Bytes.{lf}
use zls.Buffer.Sockets.{Appends, read_fd-Appends}
use zls.Buffer.Queue.{Op, put, get, trim, run, queue_run, IsReady, run_refines, step}

-- A small vector: two bytes were read, three are there, one place is free.
abbrev small : ByteBuffer
small = record {
  buffer = replicate 10 0 ++ codes "abc" ++ (0 ∷ []);
  reader_index = 10;
  writer_index = 13;
}

small-IsValid : IsValid small
small-IsValid = record {
  ordered = omega arith;
  in_range = omega arith;
  has_front = omega arith;
  small = omega arith;
}

appended : contents (append small (codes "de")) ≡ codes "abcde"
unfolding contents append ensure_writable_bytes make_space move_to_front grow store has_written
    readable_bytes writable_bytes prependable_bytes slice resize
appended = refl

contents-append_example : contents (append small (codes "de")) ≡ contents small ++ codes "de"
contents-append_example = contents-append (codes "de") small-IsValid (omega arith)

contents-prepend_example : contents (prepend small (codes "xy")) ≡ codes "xy" ++ contents small
contents-prepend_example = contents-prepend (codes "xy") small-IsValid (omega arith)

contents-shrink_example : contents (shrink small 4) ≡ contents small
contents-shrink_example = contents-shrink 4 small-IsValid (unfold readable_bytes in omega arith)

contents-retrieve_example : contents (retrieve small 2) ≡ drop 2 (contents small)
contents-retrieve_example = contents-retrieve 2 small-IsValid

find_crlf_in-IsFirstCrlf_example : IsFirstCrlf (contents small) (find_crlf_in small)
find_crlf_in-IsFirstCrlf_example = find_crlf_in-IsFirstCrlf small

read_fd-Appends_example : Appends small (codes "defgh") (read_fd small (received (codes "defgh")))
read_fd-Appends_example = read_fd-Appends (codes "defgh") small-IsValid (omega arith)

find_eol_in-IsFirst_example : IsFirst lf (contents small) (find_eol_in small)
find_eol_in-IsFirst_example = find_eol_in-IsFirst small-IsValid

abbrev history : List Op
history = put (codes "de") ∷ get 2 ∷ trim 3 ∷ put (codes "f") ∷ get 9 ∷ []

run_refines_example : run small history ≡ queue_run (contents small) history
run_refines_example =
    run_refines history (record { valid = small-IsValid; front = omega arith; fits = omega arith })

run_history : queue_run (contents small) history ≡ [] ∷ codes "ab" ∷ [] ∷ [] ∷ codes "cdef" ∷ []
unfolding queue_run contents slice zls.Buffer.Queue.queue_step
run_history = refl
