-- ===== src/Tests/Db.antt =====
-- Runs of the connection pool.
use zls.Base.{◌≡◌, refl, List, [], ◌∷◌, none, replicate, true, false}
use zls.Db.Pool.{Event, get, wake, give_back, shut, after, given, start}
use zls.Db.Pool.Invariant.{IsValid, after-start}
use zls.Db.Pool.Drained.{total, total-after, failing, given-drained}

abbrev calls : List Event
calls =
    get true false
    ∷ get false true
    ∷ get true true
    ∷ give_back 0 true false
    ∷ wake true true
    ∷ give_back 1 false true
    ∷ shut
    ∷ give_back 0 true true
    ∷ []

after-start_example : IsValid (after (start 2) calls)
after-start_example = after-start 2 calls

abbrev healthy : List Event
healthy =
    get true false ∷ get false true ∷ get true true ∷ give_back 0 true false ∷ wake true true ∷ []

total-after_example : total (after (start 2) healthy) ≡ 2
total-after_example = total-after 2 healthy (refl, (refl, (refl, (refl, (refl, record {})))))

given-drained_example :
    given (after (start 2) (replicate 2 failing)) (get true true ∷ wake true true ∷ [])
    ≡ none ∷ none ∷ []
given-drained_example = given-drained 2 (get true true ∷ wake true true ∷ [])
