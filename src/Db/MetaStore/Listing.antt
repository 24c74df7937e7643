-- ===== src/Db/MetaStore/Listing.antt =====
-- src/db/meta_store.cpp, `ListObjects` and `ListParts`: one query with a limit that is one above the page
-- size, and the loop over its rows. `before` is the order of the server's `ORDER BY`; for part numbers
-- it is the order of numbers.
pub mod Pages
use zls.Base.{
  ℕ, zero, suc, ◌+◌, Bool, true, false, ◌&&◌, Option, none, some, List, [], ◌∷◌, if◌then◌else◌, ltb,
  leb, take, ◌==◌,
}
use zls.Base.Bytes.{Bytes, eq_bytes, is_empty, starts_with}
use zls.Db.Sql.{ObjectKey, ObjectRow, PartKey, PartRow, Tables}
use zls.Db.Transaction.{Server, Session, Answer, raised, returned, query}
use zls.Db.MetaStore.{no_connection, report}
use zls.Util.Status.{Result, failed}
use zls.Base.Tables.{Table}

-- `objects` or `parts`, `is_truncated`, and `next_key_marker` or `next_part_number_marker`.
pub record Page (K V : Type 0) : Type 0 where
  pub rows : Table K V
  pub is_truncated : Bool
  pub next_marker : Option K

module _ {K V : Type 0} where
  unfoldable pub with_row : K × V → Page K V → Page K V
  with_row r p = record p { rows = r ∷ p.rows }

  -- The loop over the rows, with `count` rows taken.
  unfoldable pub fetch_rows : ℕ → ℕ → Table K V → Page K V
  fetch_rows max count [] = record { rows = []; is_truncated = false; next_marker = none }
  fetch_rows max count ((k, v) ∷ t) =
      if leb max count
      then record { rows = []; is_truncated = true; next_marker = some k }
      else with_row (k, v) (fetch_rows max (count + 1) t)

  module _ (before : K → K → Bool) where
    unfoldable pub insert_ordered : K × V → Table K V → Table K V
    insert_ordered r [] = r ∷ []
    insert_ordered r (q ∷ t) = if before q.0 r.0 then q ∷ insert_ordered r t else r ∷ q ∷ t

    -- `ORDER BY`.
    unfoldable pub order_by : Table K V → Table K V
    order_by [] = []
    order_by (r ∷ t) = insert_ordered r (order_by t)

    -- `WHERE key > marker`.
    unfoldable pub rows_after : K → Table K V → Table K V
    rows_after marker [] = []
    rows_after marker (r ∷ t) =
        let rest = rows_after marker t in if before marker r.0 then r ∷ rest else rest

    -- `WHERE key > marker ORDER BY key LIMIT max + 1`, and the loop.
    unfoldable pub page_after : K → ℕ → Table K V → Page K V
    page_after marker max rows =
        fetch_rows max 0 (take (max + 1) (rows_after marker (order_by rows)))

    unfoldable pub first_page : ℕ → Table K V → Page K V
    first_page max rows = fetch_rows max 0 (take (max + 1) (order_by rows))

-- `WHERE upload_id=...`, by part number.
unfoldable pub parts_of : Bytes → Table PartKey PartRow → Table ℕ PartRow
parts_of u [] = []
parts_of u (((v, n), r) ∷ t) =
    let rest = parts_of u t in if eq_bytes v u then (n, r) ∷ rest else rest

-- `WHERE bucket_id=... AND object_key LIKE '<prefix>%'`, for a prefix without `%` and `_`.
unfoldable pub objects_of : ℕ → Bytes → Table ObjectKey ObjectRow → Table Bytes ObjectRow
objects_of b prefix [] = []
objects_of b prefix (((c, k), r) ∷ t) =
    let rest = objects_of b prefix t in
    if c == b && starts_with prefix k then (k, r) ∷ rest else rest

module _ (server : Server) where
  unfoldable pub list_parts : Bool → Bytes → ℕ → ℕ → Session → Result (Page ℕ PartRow) × Session
  list_parts connected u marker max s =
      if connected
      then (let (answer, s') =
            query server (λ t. page_after ltb marker max (parts_of u t.parts)) s in
          (report answer, s'))
      else (failed no_connection, s)

  unfoldable pub list_objects :
      (Bytes → Bytes → Bool)
      → Bool
      → ℕ
      → Bytes
      → Bytes
      → ℕ
      → Session
      → Result (Page Bytes ObjectRow) × Session
  list_objects before connected b prefix start_after max s =
      if connected
      then (let (answer, s') =
            query server
              (λ t.
                let rows = objects_of b prefix t.objects in
                if is_empty start_after
                then first_page before max rows
                else page_after before start_after max rows)
              s in
          (report answer, s'))
      else (failed no_connection, s)
