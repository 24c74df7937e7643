-- ===== src/Db/MetaStore/Collecting.antt =====
-- `CanDeleteCasBlob`: the check that the garbage collector makes before it deletes a blob.
use zls.Base.{
  ◌≡◌, ◌≢◌, ==_iff, ◌+◌, refl, sym, ap, subst, ◌∙◌, Bool, true, false, Option, none, some, arith,
  ltb, ◌==◌,
}
use mathlib.Core.Option.{some-injective}
use zls.Base.Bytes.{Bytes}
use zls.Base.Tables.{bytes_key, row_of}
use zls.Db.Sql.{CasBlob, Tables, count_objects, count_parts}
use zls.Db.Transaction.{Server, Session, tx_query, pure, transaction, ◌>>=◌}
use zls.Db.Transaction.Triples.{
  IsSteady, IsClosed, Triple, After-transaction, Triple-bind, Triple-weaken, Triple-fact,
  Triple-assume, Triple-pure, Triple-if, Triple-tx_query,
}
use zls.Db.MetaStore.{is_unused, check_unused, can_delete_cas_blob}
use zls.Db.MetaStore.Counts.{uses}
use zls.Db.MetaStore.Attempts.{Called, Attempted-After, Called-report}

-- The blob is registered, has no references, and no row names it.
pub record IsFree (cas : Bytes) (t : Tables) : Type 0 where
  pub blob : CasBlob
  pub is_registered : row_of cas t.cas_blobs ≡ some blob
  pub unreferenced : blob.ref_count ≡ 0
  pub unnamed : uses cas t ≡ 0

abbrev pub Answers : Bytes → Tables → Bool → Tables → Type 0
Answers cas t true u = (u ≡ t) × IsFree cas t
Answers cas t false u = (u ≡ t) × (¬ IsFree cas t)

-- The answer `b` was computed as `v`.
Triple-answer :
    {P : Tables → Type 0} (cas : Bytes) (t : Tables) (v : Bool)
    → ((u : Tables) → P u → Answers cas t v u)
    → Triple P (pure v) (λ b u. Answers cas t b u)
Triple-answer cas t v h =
    Triple-weaken (Triple-pure v) λ b u p. subst (λ x. Answers cas t x u) (sym p.1) (h u p.0)

module _ (cas : Bytes) (t : Tables) where
  Answers-if :
      (v : Bool) (u : Tables)
      → (v ≡ true → IsFree cas t)
      → (v ≡ false → ¬ IsFree cas t)
      → u ≡ t
      → Answers cas t v u
  Answers-if true u f g h = (h, f refl)
  Answers-if false u f g h = (h, g refl)

  -- A blob with a row that is counted is not free.
  not-IsFree :
      (b : CasBlob)
      → row_of cas t.cas_blobs ≡ some b
      → (b.ref_count + uses cas t ≢ 0)
      → ¬ IsFree cas t
  not-IsFree b e n f =
      let same : b ≡ f.blob = some-injective b f.blob (sym e ∙ f.is_registered) in
      n (omega (arith, ap (λ (x : CasBlob). x.ref_count) same, f.unreferenced, f.unnamed))

  module _ (server : Server) where
    Triple-parts :
        (b : CasBlob)
        → row_of cas t.cas_blobs ≡ some b
        → b.ref_count ≡ 0
        → count_objects cas t ≡ 0
        → Triple
            (λ u. u ≡ t)
            (tx_query server (count_parts cas) >>= λ parts. pure (parts == 0))
            (λ v u. Answers cas t v u)
    unfolding uses
    Triple-parts b e z o = Triple-bind (Triple-tx_query server (count_parts cas)) λ parts.
        Triple-answer cas t (parts == 0) λ u h.
          let counted : parts ≡ count_parts cas t = h.1 ∙ ap (count_parts cas) h.0 in
          Answers-if (parts == 0) u
            (λ v. record {
              blob = b;
              is_registered = e;
              unreferenced = z;
              unnamed = omega (arith, o, counted, (==_iff parts 0).0 v);
            })
            (λ v. not-IsFree b e λ n. absurd (ground (arith, counted, ==_iff parts 0))) h.0

    Triple-is_unused :
        (o : Option CasBlob)
        → o ≡ row_of cas t.cas_blobs
        → Triple (λ u. u ≡ t) (is_unused server cas o) (λ b u. Answers cas t b u)
    unfolding is_unused uses
    Triple-is_unused none e =
        Triple-answer cas t false λ u h. (h, λ f. absurd (cc (e, f.is_registered)))
    Triple-is_unused (some b) e =
        Triple-if (b.ref_count == 0)
          (λ z. Triple-bind (Triple-tx_query server (count_objects cas)) λ objects.
            Triple-fact {F = objects ≡ count_objects cas t}
              (λ u h. h.1 ∙ ap (count_objects cas) h.0)
              λ counted.
                Triple-assume (λ u h. h.0)
                  (Triple-if (ltb 0 objects)
                    (λ many.
                      Triple-answer cas t false
                        λ u h. (h, not-IsFree b (sym e) λ n. absurd (ground (arith, counted))))
                    (λ few.
                      Triple-parts b (sym e) ((==_iff b.ref_count 0).0 z)
                        (ground (arith, counted)))))
          (λ z.
            Triple-answer cas t false
              λ u h. (h, not-IsFree b (sym e) λ n. absurd (ground (arith, ==_iff b.ref_count 0))))

    Triple-check_unused : Triple (λ u. u ≡ t) (check_unused server cas) (λ b u. Answers cas t b u)
    unfolding check_unused
    Triple-check_unused = Triple-bind (Triple-tx_query server (λ u. row_of cas u.cas_blobs)) λ o.
        Triple-fact {F = o ≡ row_of cas t.cas_blobs}
          (λ u h. h.1 ∙ ap (λ (v : Tables). row_of cas v.cas_blobs) h.0)
          λ e. Triple-assume (λ u h. h.0) (Triple-is_unused o e)

module _ (server : Server) (steady : IsSteady server) where
  Answers-same : (cas : Bytes) (t : Tables) (b : Bool) (u : Tables) → Answers cas t b u → u ≡ t
  Answers-same cas t true u h = h.0
  Answers-same cas t false u h = h.0

  -- `CanDeleteCasBlob`, at a server that opens and rolls back transactions: it changes no table and
  -- leaves no transaction open; and when it answers, it answers true if the blob is registered, has
  -- a reference count of zero, and no object and no part names it, and false if not.
  pub can_delete-Answers :
      (connected : Bool) (cas : Bytes) (t : Tables) (s : Session)
      → IsClosed t s
      → Called (λ u. u ≡ t) (Answers cas t) (can_delete_cas_blob server connected cas s)
  unfolding can_delete_cas_blob
  can_delete-Answers false cas t s closed = (t, (closed, refl))
  can_delete-Answers true cas t s closed =
      Called-report (λ u. u ≡ t) (Answers cas t) (transaction server (check_unused server cas) s)
        (Attempted-After (λ u. u ≡ t) (Answers cas t) t
          (transaction server (check_unused server cas) s) (Answers-same cas t) refl
          (After-transaction steady (Triple-check_unused cas t server) refl s closed))
