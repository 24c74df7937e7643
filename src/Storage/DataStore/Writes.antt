-- ===== src/Storage/DataStore/Writes.antt =====
-- Writing a blob: what reaches the file, what is hashed, and where it ends up.
use zls.Base.{
  ◌≡◌, inl, inr, refl, sym, subst, ◌∙◌, Bool, true, false, not, ◌&&◌, List, [], ◌∷◌, ◌++◌,
  if◌then◌else◌, if-cases, append-nil, append_assoc, take-append-drop, drop, take,
}
use zls.Base.Bytes.{Bytes, eq_bytes, is_empty, starts_with}
use zls.Base.Tables.{
  bytes_key, row_of, put_row, remove_row, row_of-put_row, row_of-put_row_self, row_of-remove_row,
  Every, Every-put_row, Every-remove_row,
}
use zls.Storage.Cas.{get_cas_path}
use zls.Storage.DataStore.{
  Files, Moves, Wrote, took, write_interrupted, write_refused, write_loop, written, write, place,
  contents_of, finish, commit_key, commit_finished, commit_write, new_session, write_blob,
  storage_failure, destroy, abort,
}
use zls.Storage.DataStore.Addresses.{IsAddressed, Placed, Placed-place, tmp-get_cas_path}
use zls.Util.Status.{Status, is_ok, code_value, Result, value, failed}

-- All of `d` was written behind `file`, if the loop says so.
abbrev pub Delivered : Bytes → Bytes → Bool × Bytes → Type 0
Delivered d file (true, f) = f ≡ file ++ d
Delivered d file (false, f) = Unit {0}

Delivered-rest :
    (d e file : Bytes) (r : Bool × Bytes) → Delivered e (file ++ d) r → Delivered (d ++ e) file r
Delivered-rest d e file (true, f) h = h ∙ append_assoc file d e
Delivered-rest d e file (false, f) h = tt

-- Whatever a `write` call takes, the next one goes on behind it.
pub Delivered-write_loop :
    (os : List Wrote) (d file : Bytes) → Delivered d file (write_loop os d file)
unfolding write_loop
Delivered-write_loop [] [] file = sym (append-nil file)
Delivered-write_loop (o ∷ os) [] file = sym (append-nil file)
Delivered-write_loop [] (b ∷ bs) file = refl
Delivered-write_loop (took n ∷ os) (b ∷ bs) file =
    subst (λ d. Delivered d file (write_loop os (drop n (b ∷ bs)) (file ++ take n (b ∷ bs))))
      (take-append-drop n (b ∷ bs))
      (Delivered-rest (take n (b ∷ bs)) (drop n (b ∷ bs)) file
        (write_loop os (drop n (b ∷ bs)) (file ++ take n (b ∷ bs)))
        (Delivered-write_loop os (drop n (b ∷ bs)) (file ++ take n (b ∷ bs))))
Delivered-write_loop (write_interrupted ∷ os) (b ∷ bs) file = Delivered-write_loop os (b ∷ bs) file
Delivered-write_loop (write_refused ∷ os) (b ∷ bs) file = tt

module _ (sha256 : Bytes → Bytes) (base tmp_dir : Bytes) where
  -- A blob that is placed among files that differ in a temporary file only.
  pub Placed-before :
      (p key c : Bytes) (files files' : Files) (r : Result Bytes × Files)
      → row_of (get_cas_path base key) files' ≡ row_of (get_cas_path base key) files
      → row_of p files' ≡ row_of p files
      → Placed sha256 base tmp_dir p key c files' r
      → Placed sha256 base tmp_dir p key c files r
  Placed-before p key c files files' (value k, f) e g (a, b, d, h, inl i) = (a, b, d, h, inl i)
  Placed-before p key c files files' (value k, f) e g (a, b, d, h, inr i) =
      (a, b, d, h, inr (sym e ∙ i))
  Placed-before p key c files files' (failed x, f) e g (a, b) = (a, b ∙ g)

  module _ (apart : (c : Bytes) → starts_with tmp_dir (get_cas_path base (sha256 c)) ≡ false)
      (m : Moves) (tmp p : Bytes) (temporary : starts_with tmp_dir tmp ≡ true)
      (other : eq_bytes tmp p ≡ false) (files : Files)
      (addressed : Every (IsAddressed sha256 base tmp_dir) files) where
    row_of-put_tmp :
        (q c : Bytes) → eq_bytes tmp q ≡ false → row_of q (put_row tmp c files) ≡ row_of q files
    row_of-put_tmp q c e = rw (row_of-put_row q tmp c files, e)

    -- A temporary file that holds `c` is moved to the address of `c`.
    pub Placed-tmp :
        (c : Bytes)
        → Placed sha256 base tmp_dir p (sha256 c) c files (
            place base m tmp
              (sha256 c)
              (row_of (get_cas_path base (sha256 c)) (put_row tmp c files))
              (put_row tmp c files))
    Placed-tmp c =
        Placed-before p (sha256 c) c files (put_row tmp c files) _
          (row_of-put_tmp (get_cas_path base (sha256 c)) c
            (tmp-get_cas_path sha256 base tmp_dir apart tmp c temporary))
          (row_of-put_tmp p c other)
          (Placed-place sha256 base tmp_dir apart m tmp c p (put_row tmp c files)
            (row_of (get_cas_path base (sha256 c)) (put_row tmp c files)) refl
            (row_of-put_row_self tmp c files) temporary
            (Every-put_row (IsAddressed sha256 base tmp_dir) tmp c files (inr temporary) addressed)
            other)

    -- After a failure only the temporary file may differ.
    pub Placed-failed :
        (key c : Bytes) (e : Status) (b : Bool) (file : Bytes)
        → Placed sha256 base tmp_dir p key c files (
          failed e,
          if b then remove_row tmp (put_row tmp file files) else put_row tmp file files,
        )
    Placed-failed key c e b file =
        let kept : Every (IsAddressed sha256 base tmp_dir) (put_row tmp file files) =
          Every-put_row (IsAddressed sha256 base tmp_dir) tmp file files (inr temporary)
            addressed in
        if-cases (λ (f : Files). Placed sha256 base tmp_dir p key c files (failed e, f)) b
          (λ _. (
            Every-remove_row (IsAddressed sha256 base tmp_dir) tmp (put_row tmp file files) kept,
            row_of-remove_row p tmp (put_row tmp file files) other ∙ row_of-put_tmp p file other,
          ))
          (λ _. (kept, row_of-put_tmp p file other))

module _ (sha256 : Bytes → Bytes) (base tmp_dir : Bytes)
    (apart : (c : Bytes) → starts_with tmp_dir (get_cas_path base (sha256 c)) ≡ false) (m : Moves)
    (tmp p : Bytes) (temporary : starts_with tmp_dir tmp ≡ true) (other : eq_bytes tmp p ≡ false)
    (files : Files) (addressed : Every (IsAddressed sha256 base tmp_dir) files) where
  -- The session after the loop: `file` is what is in the temporary file now.
  abbrev after_loop : Bytes → Bool × Bytes → Result Bytes × Files
  after_loop d (ok, file) =
      let (status, s) = written (new_session tmp) d ok in
      let files' = put_row tmp file (put_row tmp [] files) in
      if is_ok status
      then commit_write sha256 base m [] s files'
      else (failed status, destroy m.removed s files')

  started : Every (IsAddressed sha256 base tmp_dir) (put_row tmp [] files)
  started = Every-put_row (IsAddressed sha256 base tmp_dir) tmp [] files (inr temporary) addressed

  Placed-after_loop :
      (d : Bytes) (r : Bool × Bytes)
      → Delivered d [] r
      → Placed sha256 base tmp_dir p (sha256 d) d files (after_loop d r)
  unfolding written is_ok code_value commit_write finish commit_finished commit_key is_empty destroy
      abort
  Placed-after_loop d (true, f) e =
      subst
        (λ x. Placed sha256 base tmp_dir p (sha256 d) d files (
          place base m tmp (sha256 d)
            (row_of (get_cas_path base (sha256 d)) (put_row tmp x (put_row tmp [] files)))
            (put_row tmp x (put_row tmp [] files))))
        (sym e)
        (Placed-before sha256 base tmp_dir p (sha256 d) d files (put_row tmp [] files) _
          (row_of-put_tmp sha256 base tmp_dir apart m tmp p temporary other files addressed
            (get_cas_path base (sha256 d)) []
            (tmp-get_cas_path sha256 base tmp_dir apart tmp d temporary))
          (row_of-put_tmp sha256 base tmp_dir apart m tmp p temporary other files addressed p []
            other)
          (Placed-tmp sha256 base tmp_dir apart m tmp p temporary other (put_row tmp [] files)
            started d))
  Placed-after_loop d (false, f) e =
      Placed-before sha256 base tmp_dir p (sha256 d) d files (put_row tmp [] files)
        (after_loop d (false, f))
        (row_of-put_tmp sha256 base tmp_dir apart m tmp p temporary other files addressed
          (get_cas_path base (sha256 d)) []
          (tmp-get_cas_path sha256 base tmp_dir apart tmp d temporary))
        (row_of-put_tmp sha256 base tmp_dir apart m tmp p temporary other files addressed p []
          other)
        (Placed-failed sha256 base tmp_dir apart m tmp p temporary other (put_row tmp [] files)
          started (sha256 d) d storage_failure (not (is_empty tmp) && m.removed) f)

  -- `Write` of a blob, whatever the system calls answer, at a data directory whose blobs are no
  -- temporary files: every blob still lies at the address of its contents. When `Write` returns a
  -- key, it is the hash of the data, and a blob lies under it: the data, or what was there before.
  -- When it fails, every file but the temporary one is as it was.
  pub write_blob-Placed :
      (opened : Bool) (os : List Wrote) (d : Bytes)
      → Placed sha256 base tmp_dir p
          (sha256 d)
          d
          files
          (write_blob sha256 base m opened tmp os d files)
  unfolding write_blob write contents_of
  write_blob-Placed false os d = (addressed, refl)
  write_blob-Placed true os d =
      subst
        (λ o.
          Placed sha256 base tmp_dir p (sha256 d) d files
            (after_loop d (write_loop os d (contents_of o))))
        (sym (row_of-put_row_self tmp [] files))
        (Placed-after_loop d (write_loop os d []) (Delivered-write_loop os d []))
