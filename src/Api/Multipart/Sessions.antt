-- ===== src/Api/Multipart/Sessions.antt =====
-- What questions and the lowering of counts leave of a session.
use zls.Base.{ℕ, ◌≡◌, sym, Bool, true, false, Option, none, some, ltb}
use zls.Base.Bytes.{Bytes}
use zls.Base.Tables.{bytes_key, row_of}
use zls.Db.Sql.{object_key_test, PartRow, UploadRow, Tables, lower_count, perform}
use zls.Db.Transaction.{
  Failure, statement_failed, duplicate_key, commit_failed, Server, Session, Answer, raised,
  returned, Exec, pure, raise, continue, ◌>>=◌, execute, query,
}
use zls.Db.Transaction.Triples.{IsClosed, Accepted}
use zls.Db.MetaStore.{report}
use zls.Db.MetaStore.Listing.{Page, page_after, parts_of, list_parts}
use zls.Db.MetaStore.Rows.{
  get_multipart_upload, decrement_ref_count_and_check_zero, decrement_and_check, found,
  report_upload,
}
use zls.Db.MetaStore.Rows.Left.{Left, Left-execute, Asked, Asked-query}
use zls.Api.Multipart.{all_parts}
use zls.Util.Status.{Result, value, failed}

module _ (P : Tables → Type 0) (server : Server) where
  Left-bind :
      {A B : Type 0} (g : A → Exec B) (r : Answer A × Session)
      → Left P r.1
      → ((a : A) (s : Session) → Left P s → Left P (g a s).1)
      → Left P (continue r.0 g r.1).1
  unfolding continue
  Left-bind g (raised f, s) h k = h
  Left-bind g (returned a, s) h k = k a s h

  Left-query : {A : Type 0} (f : Tables → A) (s : Session) → Left P s → Left P (query server f s).1
  Left-query f s (t, (closed, p)) = asked (query server f s) (Asked-query server f t s closed)
    where
      asked : (r : Answer _ × Session) → Asked f t r → Left P r.1
      asked (raised e, s') c = (t, (c, p))
      asked (returned a, s') (c, e) = (t, (c, p))

  Left-found : {V : Type 0} (o : Option V) (s : Session) → Left P s → Left P (found server o s).1
  unfolding found pure raise
  Left-found none s h = h
  Left-found (some v) s h = h

  -- Taking one reference off a blob changes no object.
  pub Left-decrement :
      (accepted : (cas : Bytes) (t : Tables) → P t → Accepted P (perform (lower_count cas) t))
      (connected : Bool) (cas : Bytes) (s : Session)
      → Left P s
      → Left P (decrement_ref_count_and_check_zero server connected cas s).1
  unfolding decrement_ref_count_and_check_zero decrement_and_check ◌>>=◌ pure
  Left-decrement accepted false cas s h = h
  Left-decrement accepted true cas s (t, (closed, p)) =
      Left-bind _ (execute server (lower_count cas) s)
        (Left-execute P server (lower_count cas) t s closed p (accepted cas t p))
        λ _ s1 h1.
          Left-bind _ (query server (λ t. row_of cas t.cas_blobs) s1) (Left-query _ s1 h1)
            λ blob s2 h2. Left-bind _ (found server blob s2) (Left-found blob s2 h2) λ _ s3 h3. h3

-- What an operation that asks one question answers.
abbrev pub Answered : {A : Type 0} → (A → Type 0) → Tables → Result A × Session → Type 0
Answered Q t (failed e, s) = IsClosed t s
Answered Q t (value a, s) = IsClosed t s × Q a

module _ (server : Server) (t : Tables) where
  Answered-report :
      {A : Type 0} (f : Tables → A) (r : Answer A × Session)
      → Asked f t r
      → Answered (λ a. a ≡ f t) t (report r.0, r.1)
  unfolding report
  Answered-report f (raised e, s) h = h
  Answered-report f (returned a, s) h = h

  pub Answered-list_parts :
      (connected : Bool) (u : Bytes) (s : Session)
      → IsClosed t s
      → Answered
          (λ (p : Page ℕ PartRow). p ≡ page_after ltb 0 all_parts (parts_of u t.parts))
          t
          (list_parts server connected u 0 all_parts s)
  unfolding list_parts
  Answered-list_parts false u s closed = closed
  Answered-list_parts true u s closed =
      Answered-report (λ v. page_after ltb 0 all_parts (parts_of u v.parts))
        (query server (λ v. page_after ltb 0 all_parts (parts_of u v.parts)) s)
        (Asked-query server (λ v. page_after ltb 0 all_parts (parts_of u v.parts)) t s closed)

  Answered-found :
      {V : Type 0} (f : Tables → Option V) (r : Answer (Option V) × Session)
      → Asked f t r
      → let (a, s) = continue r.0 (λ o. found server o) r.1 in
        Answered (λ v. f t ≡ some v) t (report_upload a, s)
  unfolding continue found raise pure report_upload
  Answered-found f (raised (statement_failed e), s) h = h
  Answered-found f (raised (duplicate_key e), s) h = h
  Answered-found f (raised (commit_failed e), s) h = h
  Answered-found f (raised Failure.not_found, s) h = h
  Answered-found f (returned none, s) (h, e) = h
  Answered-found f (returned (some v), s) (h, e) = (h, sym e)

  pub Answered-get_upload :
      (connected : Bool) (u : Bytes) (s : Session)
      → IsClosed t s
      → Answered
          (λ (row : UploadRow). row_of u t.uploads ≡ some row)
          t
          (get_multipart_upload server connected u s)
  unfolding get_multipart_upload ◌>>=◌
  Answered-get_upload false u s closed = closed
  Answered-get_upload true u s closed =
      Answered-found (λ v. row_of u v.uploads) (query server (λ v. row_of u v.uploads) s)
        (Asked-query server (λ v. row_of u v.uploads) t s closed)
