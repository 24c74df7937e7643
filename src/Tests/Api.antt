-- ===== src/Tests/Api.antt =====
-- Runs of the Range header.
use zls.Base.{some, ◌≡◌, refl, true, arith}
use zls.Base.Bytes.{Bytes, codes, is_digit, digits, decimal, eq_bytes, is_empty, starts_with}
use zls.Api.Range.{
  range_match, match_end, range, stoull, suffix_range, closed_range, range_of_match, parse_range,
  sends, crashes, set_file, answer_range, answer,
}
use zls.Api.Range.Meaning.{
  suffix, from, IsNumber, AreDigits, Covers, print_spec, parse_range-Covers,
}
use zls.Api.Range.Reply.{IsExact, answer-IsExact, answer-overflow}
use zls.Api.Range.Stalled.{IsAtEnd, write, finished, zero_suffix-Stalls}
use zls.Buffer.{readable_bytes, create}
use zls.Http.Connection.{HttpConnection, create_connection, sending_file, wrote, handle_write}

parse_middle : parse_range (codes "bytes=2-5") 10 ≡ range 2 5
unfolding parse_range range_match match_end range_of_match stoull closed_range starts_with digits
    is_digit decimal eq_bytes is_empty
parse_middle = refl

parse_past_end : parse_range (codes "bytes=2-50") 10 ≡ range 2 9
unfolding parse_range range_match match_end range_of_match stoull closed_range starts_with digits
    is_digit decimal eq_bytes is_empty
parse_past_end = refl

answer_suffix :
    answer (codes "bytes=-3") 10
    ≡ sends (record { partial = true; content_length = 3; file_offset = 7; file_length = 3 })
unfolding answer answer_range set_file parse_range range_match match_end range_of_match stoull
    suffix_range starts_with digits is_digit decimal eq_bytes is_empty
answer_suffix = refl

twelve-IsNumber : IsNumber (codes "12")
unfolding is_digit decimal
twelve-IsNumber = ((refl, (refl, record {})), (λ e. absurd (cc e)), omega arith)

zero-IsNumber : IsNumber (codes "0")
unfolding is_digit decimal
zero-IsNumber = ((refl, record {}), (λ e. absurd (cc e)), omega arith)

parse_range-Covers_example :
    Covers (parse_range (print_spec (from (codes "12"))) 20) (from (codes "12")) 20
parse_range-Covers_example =
    parse_range-Covers (from (codes "12")) 20 twelve-IsNumber (omega arith) (omega arith)

answer-IsExact_example : IsExact (answer (print_spec (from (codes "12"))) 20) (from (codes "12")) 20
unfolding decimal
answer-IsExact_example =
    answer-IsExact (from (codes "12")) 20 15 twelve-IsNumber (omega arith)
      (omega arith, omega arith)

-- A connection that has sent the head and is left with a part behind the end of the file.
abbrev at_end : HttpConnection
at_end = record (create_connection (codes "peer") 100) {
  state = sending_file;
  file_fd = some (codes "0123456789");
  file_offset = 10;
  file_remaining = 10;
}

at_end-IsAtEnd : IsAtEnd (codes "0123456789") at_end
unfolding readable_bytes create_connection create
at_end-IsAtEnd = record {
  state_is = refl;
  head_is_out = refl;
  file_is = refl;
  offset_is = refl;
  remaining_is = refl;
}

zero_suffix-Stalls_example :
    (answer (print_spec (suffix (codes "0"))) 10
      ≡ sends (record { partial = true; content_length = 0; file_offset = 10; file_length = 10 }))
    × ((handle_write at_end (wrote 0) (wrote 0)).1.1 ≡ at_end)
unfolding decimal
zero_suffix-Stalls_example =
    zero_suffix-Stalls (codes "0") (codes "0123456789") zero-IsNumber refl (omega arith)
      (omega arith) at_end-IsAtEnd
      (write at_end (handle_write at_end (wrote 0) (wrote 0)).1.1 (wrote 0) (wrote 0) (omega arith)
        (finished (handle_write at_end (wrote 0) (wrote 0)).1.1))

abbrev huge : Bytes
huge = codes "18446744073709551616"

huge-AreDigits : AreDigits huge
unfolding is_digit
huge-AreDigits = (
  refl,
  (
    refl,
    (
      refl,
      (
        refl,
        (
          refl,
          (
            refl,
            (
              refl,
              (
                refl,
                (
                  refl,
                  (
                    refl,
                    (
                      refl,
                      (
                        refl,
                        (refl, (refl, (refl, (refl, (refl, (refl, (refl, (refl, record {})))))))),
                      ),
                    ),
                  ),
                ),
              ),
            ),
          ),
        ),
      ),
    ),
  ),
)

answer-overflow_example : answer (print_spec (suffix huge)) 10 ≡ crashes
unfolding decimal
answer-overflow_example =
    answer-overflow huge 10 huge-AreDigits (λ e. absurd (cc e)) (omega arith) (omega arith)
