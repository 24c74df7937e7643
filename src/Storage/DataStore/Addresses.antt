-- ===== src/Storage/DataStore/Addresses.antt =====
-- The address of a blob, and what a commit leaves behind.
use zls.Base.{
  ◌≡◌, ◌⊎◌, inl, inr, refl, sym, ap, ◌∙◌, Bool, true, false, Option, none, some, if-cases,
}
use mathlib.Core.Option.{some-injective}
use zls.Base.Bytes.{Bytes, eq_bytes, eq_bytes_iff, starts_with}
use zls.Base.Tables.{
  bytes_key, row_of, remove_row, row_of-put_row_self, row_of-remove_row, Every, Every-put_row,
  Every-remove_row,
}
use zls.Storage.Cas.{get_cas_path}
use zls.Storage.DataStore.{Files, Moves, drop_file, rename, place}
use zls.Util.Status.{Status, is_ok, Result, value, failed}

module _ (sha256 : Bytes → Bytes) (base tmp_dir : Bytes) where
  -- A blob lies at the address of its contents; other files are temporary ones.
  abbrev pub IsAddressed : Bytes → Bytes → Type 0
  IsAddressed path c = (path ≡ get_cas_path base (sha256 c)) ⊎ (starts_with tmp_dir path ≡ true)

  -- The blob `c` was asked for under `key`: it is there, or another was there already; or, after a
  -- failure, the file at the path `p` is as it was.
  abbrev pub Placed : Bytes → Bytes → Bytes → Files → Result Bytes × Files → Type 0
  Placed p key c files (value k, files') =
      (k ≡ key)
      × Every IsAddressed files'
      × (d : Bytes) × (row_of (get_cas_path base key) files' ≡ some d)
      × ((d ≡ c) ⊎ (row_of (get_cas_path base key) files ≡ some d))
  Placed p key c files (failed e, files') =
      Every IsAddressed files' × (row_of p files' ≡ row_of p files)

  module _ (apart : (c : Bytes) → starts_with tmp_dir (get_cas_path base (sha256 c)) ≡ false) where
    pub tmp-get_cas_path :
        (tmp c : Bytes)
        → starts_with tmp_dir tmp ≡ true
        → eq_bytes tmp (get_cas_path base (sha256 c)) ≡ false
    tmp-get_cas_path tmp c h = by_test (eq_bytes tmp (get_cas_path base (sha256 c))) refl
      where
        by_test : (b : Bool) → eq_bytes tmp (get_cas_path base (sha256 c)) ≡ b → b ≡ false
        by_test true e = absurd (
            cc (
              h,
              ap (starts_with tmp_dir) ((eq_bytes_iff tmp (get_cas_path base (sha256 c))).0 e),
              apart c,
            ))
        by_test false e = refl

    Every-drop_file :
        (m : Moves) (tmp : Bytes) (files : Files)
        → Every IsAddressed files
        → Every IsAddressed (drop_file m tmp files)
    unfolding drop_file
    Every-drop_file m tmp files h =
        if-cases (Every IsAddressed) m.removed (λ _. Every-remove_row IsAddressed tmp files h)
          (λ _. h)

    row_of-drop_file :
        (m : Moves) (tmp p : Bytes) (files : Files)
        → eq_bytes tmp p ≡ false
        → row_of p (drop_file m tmp files) ≡ row_of p files
    unfolding drop_file
    row_of-drop_file m tmp p files e =
        if-cases (λ (f : Files). row_of p f ≡ row_of p files) m.removed
          (λ _. row_of-remove_row p tmp files e) (λ _. refl)

    module _ (m : Moves) (tmp c p : Bytes) (files : Files) where
      Placed-drop_file :
          (e : Status)
          → Every IsAddressed files
          → eq_bytes tmp p ≡ false
          → Placed p (sha256 c) c files (failed e, drop_file m tmp files)
      Placed-drop_file e h n = (Every-drop_file m tmp files h, row_of-drop_file m tmp p files n)

      Placed-rename :
          (o : Option Bytes)
          → o ≡ some c
          → Every IsAddressed files
          → Placed p
              (sha256 c)
              c
              files
              (value (sha256 c), rename tmp (get_cas_path base (sha256 c)) o files)
      unfolding rename
      Placed-rename none e h = absurd (cc e)
      Placed-rename (some d) e h =
          let same : d ≡ c = some-injective d c e in
          (
            refl,
            Every-put_row IsAddressed (get_cas_path base (sha256 c)) d (remove_row tmp files)
                (inl (ap (λ x. get_cas_path base (sha256 x)) (sym same)))
                (Every-remove_row IsAddressed tmp files h),
            d,
            row_of-put_row_self (get_cas_path base (sha256 c)) d (remove_row tmp files),
            inl same,
          )

      pub Placed-place :
          (o : Option Bytes)
          → row_of (get_cas_path base (sha256 c)) files ≡ o
          → row_of tmp files ≡ some c
          → starts_with tmp_dir tmp ≡ true
          → Every IsAddressed files
          → eq_bytes tmp p ≡ false
          → Placed p (sha256 c) c files (place base m tmp (sha256 c) o files)
      unfolding place
      Placed-place (some d) e r t h n = (
        refl,
        Every-drop_file m tmp files h,
        d,
        row_of-drop_file m tmp (get_cas_path base (sha256 c)) files (tmp-get_cas_path tmp c t) ∙ e,
        inr e,
      )
      Placed-place none e r t h n =
          if-cases (Placed p (sha256 c) c files) (is_ok m.directory_made)
            (λ _.
              if-cases (Placed p (sha256 c) c files) (is_ok m.renamed)
                (λ _. Placed-rename (row_of tmp files) r h) (λ _. Placed-drop_file m.renamed h n))
            (λ _. Placed-drop_file m.directory_made h n)
