-- ===== src/Api/Range.antt =====
-- src/api/handlers/object_handlers.cpp, `ParseRange` and the part of `GetObject` that turns a Range
-- header into what is sent; with `SetFile` and `FileLength` of src/net/http/http_response.
-- `std::regex` is used for one fixed pattern, `bytes=(\d*)-(\d*)`, which is matched here by hand.
pub mod Meaning
pub mod Reply
pub mod Stalled
use zls.Base.{
  ℕ, ◌+◌, ◌-◌, ◌^◌, Bool, true, false, not, ◌||◌, ◌&&◌, List, [], ◌∷◌, Option, none, some,
  if◌then◌else◌, ltb, leb, ◌==◌, length, take, drop, add_size, sub_size,
}
use zls.Base.Bytes.{Bytes, codes, eq_bytes, is_empty, starts_with, digits, decimal}

-- The two groups of a match of `bytes=(\d*)-(\d*)` with the whole text.
unfoldable pub match_end : Bytes → Bytes → Option (Bytes × Bytes)
match_end start [] = none
match_end start (c ∷ cs) = if (c == b'-') && eq_bytes (digits cs) cs then some (start, cs) else none

unfoldable pub range_match : Bytes → Option (Bytes × Bytes)
range_match text =
    if starts_with (codes "bytes=") text
    then (let tail = drop 6 text in match_end (digits tail) (drop (length (digits tail)) tail))
    else none

-- `std::optional<std::pair<size_t, size_t>>`, or the exception that `std::stoull` throws.
pub data ParsedRange : Type 0 where
  no_range : ParsedRange
  range : ℕ → ℕ → ParsedRange
  throws : ParsedRange

-- `std::stoull` of a run of digits.
unfoldable pub stoull : Bytes → Option ℕ
stoull s = if ltb (decimal 0 s) (2 ^ 64) then some (decimal 0 s) else none

abbrev pub or_throw : Option ℕ → (ℕ → ParsedRange) → ParsedRange
or_throw none f = throws
or_throw (some n) f = f n

unfoldable pub suffix_range : ℕ → ℕ → ParsedRange
suffix_range size n = range (sub_size size (if ltb size n then size else n)) (sub_size size 1)

unfoldable pub open_range : ℕ → ℕ → ParsedRange
open_range size start = if leb size start then no_range else range start (sub_size size 1)

unfoldable pub closed_range : ℕ → ℕ → ℕ → ParsedRange
closed_range size start end =
    if ltb end start || leb size start
    then no_range
    else range start (if leb size end then sub_size size 1 else end)

unfoldable pub range_of_match : ℕ → Bytes → Bytes → ParsedRange
range_of_match size start end =
    if is_empty start && is_empty end
    then no_range
    else if is_empty start
    then or_throw (stoull end) (suffix_range size)
    else if is_empty end
    then or_throw (stoull start) (open_range size)
    else or_throw (stoull start) (λ s. or_throw (stoull end) (closed_range size s))

unfoldable pub parse_range : Bytes → ℕ → ParsedRange
parse_range header size = if size == 0 then no_range else elim (range_match header) [
  | none ↦ no_range
  | some (start, end) ↦ range_of_match size start end
]

-- What `GetObject` sends: the `Content-Length` header, and the part of the file.
pub record Sent : Type 0 where
  pub partial : Bool
  pub content_length : ℕ
  pub file_offset : ℕ
  pub file_length : ℕ

pub data Answer : Type 0 where
  not_satisfiable : Answer
  crashes : Answer
  sends : Sent → Answer

-- `SetFile(path, size, offset, length)`, then `FileOffset()` and `FileLength()`.
unfoldable pub set_file : Bool → ℕ → ℕ → ℕ → Sent
set_file partial size offset length =
    let stored = if ltb 0 length then length else size in
    record {
      partial = partial;
      content_length = length;
      file_offset = offset;
      file_length = if ltb 0 stored then stored else size;
    }

unfoldable pub answer_range : ℕ → ParsedRange → Answer
answer_range size no_range = not_satisfiable
answer_range size throws = crashes
answer_range size (range start end) =
    sends (set_file true size start (add_size (sub_size end start) 1))

unfoldable pub answer : Bytes → ℕ → Answer
answer header size =
    if is_empty header
    then sends (set_file false size 0 size)
    else answer_range size (parse_range header size)
