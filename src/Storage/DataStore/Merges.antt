-- ===== src/Storage/DataStore/Merges.antt =====
-- Merging blobs.
use zls.Base.{
  ◌≡◌, refl, sym, ap, subst, ◌∙◌, Bool, true, false, Option, none, some, ℕ, suc, min, List, [], ◌∷◌,
  ◌++◌, if◌then◌else◌, append-nil, append_assoc, take-append-drop, drop, take,
}
use zls.Base.Bytes.{Bytes, eq_bytes, starts_with}
use zls.Base.Tables.{bytes_key, row_of, Every}
use zls.Storage.Cas.{get_cas_path}
use zls.Storage.DataStore.{
  Files, Moves, write_loop, Turn, moved, turn_interrupted, turn_refused, buffer_size, Merged,
  merged, merge_failed, copy_file, copy_source, and_then, copy_all, storage_failure, place_merged,
  merge, drop_file,
}
use zls.Storage.DataStore.Addresses.{IsAddressed, Placed}
use zls.Storage.DataStore.Writes.{Delivered, Delivered-write_loop, Placed-tmp, Placed-failed}
use zls.Util.Status.{Result, value, failed}

abbrev append_found : Option Bytes → Option Bytes → Option Bytes
append_found (some c) (some d) = some (c ++ d)
append_found (some c) none = none
append_found none d = none

-- The blobs one behind the other; `none` when one is missing.
unfoldable pub joined : Bytes → Files → List Bytes → Option Bytes
joined base files [] = some []
joined base files (k ∷ ks) =
    append_found (row_of (get_cas_path base k) files) (joined base files ks)

-- `d` was hashed and copied behind what was there.
abbrev Copied : Bytes → Bytes → Bytes → Merged → Type 0
Copied d hashed file (merged h f) = (h ≡ hashed ++ d) × (f ≡ file ++ d)
Copied d hashed file (merge_failed e f) = Unit {0}

Copied-rest :
    (d e hashed file : Bytes) (r : Merged)
    → Copied e (hashed ++ d) (file ++ d) r
    → Copied (d ++ e) hashed file r
Copied-rest d e hashed file (merged h f) (a, b) =
    (a ∙ append_assoc hashed d e, b ∙ append_assoc file d e)
Copied-rest d e hashed file (merge_failed x f) h = tt

Copied-turn :
    (ok : Bool) (file' d e hashed file : Bytes) (rest : Bytes → Merged)
    → Delivered d file (ok, file')
    → ((f : Bytes) → Copied e (hashed ++ d) f (rest f))
    → Copied (d ++ e) hashed file (if ok then rest file' else merge_failed storage_failure file')
Copied-turn true file' d e hashed file rest w k =
    Copied-rest d e hashed file (rest file')
      (subst (λ f. Copied e (hashed ++ d) f (rest file')) w (k file'))
Copied-turn false file' d e hashed file rest w k = tt

Copied-copy_file :
    (os : List Turn) (d hashed file : Bytes) → Copied d hashed file (copy_file os d hashed file)
unfolding copy_file
Copied-copy_file [] [] hashed file = (sym (append-nil hashed), sym (append-nil file))
Copied-copy_file (o ∷ os) [] hashed file = (sym (append-nil hashed), sym (append-nil file))
Copied-copy_file [] (b ∷ bs) hashed file = (refl, refl)
Copied-copy_file (turn_interrupted ∷ os) (b ∷ bs) hashed file =
    Copied-copy_file os (b ∷ bs) hashed file
Copied-copy_file (turn_refused ∷ os) (b ∷ bs) hashed file = tt
Copied-copy_file (moved n ws ∷ os) (b ∷ bs) hashed file =
    let k : ℕ = min (suc n) buffer_size in
    let chunk : Bytes = take k (b ∷ bs) in
    let (ok, file') = write_loop ws chunk file in
    subst
      (λ d. Copied d hashed file (
        if ok
        then copy_file os (drop k (b ∷ bs)) (hashed ++ chunk) file'
        else merge_failed storage_failure file'))
      (take-append-drop k (b ∷ bs))
      (Copied-turn ok file' chunk (drop k (b ∷ bs)) hashed file
        (copy_file os (drop k (b ∷ bs)) (hashed ++ chunk)) (Delivered-write_loop ws chunk file)
        (Copied-copy_file os (drop k (b ∷ bs)) (hashed ++ chunk)))

-- All sources, when none fails.
abbrev Joined : Option Bytes → Bytes → Bytes → Merged → Type 0
Joined o hashed file (merged h f) = (d : Bytes) × (o ≡ some d) × (h ≡ hashed ++ d) × (f ≡ file ++ d)
Joined o hashed file (merge_failed e f) = Unit {0}

Joined-before :
    (c : Bytes) (q : Option Bytes) (h f hashed file : Bytes) (r : Merged)
    → h ≡ hashed ++ c
    → f ≡ file ++ c
    → Joined q h f r
    → Joined (append_found (some c) q) hashed file r
Joined-before c q h f hashed file (merge_failed e x) a b j = tt
Joined-before c q h f hashed file (merged h' f') a b (d, e, u, v) = (
  c ++ d,
  ap (append_found (some c)) e,
  u ∙ ap (λ x. x ++ d) a ∙ append_assoc hashed c d,
  v ∙ ap (λ x. x ++ d) b ∙ append_assoc file c d,
)

Joined-next :
    (c : Bytes) (q : Option Bytes) (hashed file : Bytes) (r : Merged)
    (next : Bytes → Bytes → Merged)
    → Copied c hashed file r
    → ((h f : Bytes) → Joined q h f (next h f))
    → Joined (append_found (some c) q) hashed file (and_then r next)
unfolding and_then
Joined-next c q hashed file (merge_failed e x) next h k = tt
Joined-next c q hashed file (merged h f) next (a, b) k =
    Joined-before c q h f hashed file (next h f) a b (k h f)

Joined-source :
    (turns : List Turn) (key : Bytes) (o q : Option Bytes) (hashed file : Bytes)
    (next : Bytes → Bytes → Merged)
    → ((h f : Bytes) → Joined q h f (next h f))
    → Joined (append_found o q) hashed file (and_then (copy_source turns key o hashed file) next)
unfolding and_then copy_source
Joined-source turns key none q hashed file next k = tt
Joined-source turns key (some c) q hashed file next k =
    Joined-next c q hashed file (copy_file turns c hashed file) next
      (Copied-copy_file turns c hashed file) k

Joined-copy_all :
    (turns : Bytes → List Turn) (base : Bytes) (files : Files) (keys : List Bytes)
    (hashed file : Bytes)
    → Joined (joined base files keys) hashed file (copy_all turns base files keys hashed file)
unfolding copy_all joined
Joined-copy_all turns base files [] hashed file =
    ([], refl, sym (append-nil hashed), sym (append-nil file))
Joined-copy_all turns base files (k ∷ ks) hashed file =
    Joined-source (turns k) k (row_of (get_cas_path base k) files) (joined base files ks) hashed
      file (copy_all turns base files ks) (Joined-copy_all turns base files ks)

module _ (sha256 : Bytes → Bytes) (base tmp_dir : Bytes)
    (apart : (c : Bytes) → starts_with tmp_dir (get_cas_path base (sha256 c)) ≡ false) (m : Moves)
    (tmp p : Bytes) (temporary : starts_with tmp_dir tmp ≡ true) (other : eq_bytes tmp p ≡ false)
    (files : Files) (addressed : Every (IsAddressed sha256 base tmp_dir) files) where
  -- The merged blob is placed; the blobs to merge were all there.
  abbrev pub MergedInto : Option Bytes → Result Bytes × Files → Type 0
  MergedInto o (value k, files') =
      (c : Bytes) × (o ≡ some c) × Placed sha256 base tmp_dir p (sha256 c) c files (value k, files')
  MergedInto o (failed e, files') =
      Every (IsAddressed sha256 base tmp_dir) files' × (row_of p files' ≡ row_of p files)

  MergedInto-Placed :
      (o : Option Bytes) (c : Bytes) (r : Result Bytes × Files)
      → o ≡ some c
      → Placed sha256 base tmp_dir p (sha256 c) c files r
      → MergedInto o r
  MergedInto-Placed o c (value k, f) e h = (c, e, h)
  MergedInto-Placed o c (failed x, f) e h = h

  MergedInto-place_merged :
      (o : Option Bytes) (r : Merged)
      → Joined o [] [] r
      → MergedInto o (place_merged sha256 base m tmp r files)
  unfolding place_merged drop_file
  MergedInto-place_merged o (merge_failed e file) j =
      Placed-failed sha256 base tmp_dir apart m tmp p temporary other files addressed [] [] e
        m.removed file
  MergedInto-place_merged o (merged h f) (d, e, u, v) =
      subst (λ x. MergedInto o (place_merged sha256 base m tmp (merged x f) files)) (sym u)
        (subst (λ x. MergedInto o (place_merged sha256 base m tmp (merged d x) files)) (sym v)
          (MergedInto-Placed o d (place_merged sha256 base m tmp (merged d d) files) e
            (Placed-tmp sha256 base tmp_dir apart m tmp p temporary other files addressed d)))

  -- `Merge`, whatever the system calls answer, at a data directory whose blobs are no temporary
  -- files: every blob still lies at the address of its contents. When `Merge` returns a key, every
  -- source was there, the key is the hash of the sources one behind the other, and a blob lies under
  -- it: that one, or what was there before. When it fails, every file but the temporary one is as it
  -- was.
  pub merge-MergedInto :
      (opened : Bool) (turns : Bytes → List Turn) (keys : List Bytes)
      → MergedInto (joined base files keys) (merge sha256 base m opened tmp turns keys files)
  unfolding merge
  merge-MergedInto opened turns [] = (addressed, refl)
  merge-MergedInto false turns (k ∷ ks) = (addressed, refl)
  merge-MergedInto true turns (k ∷ ks) =
      MergedInto-place_merged (joined base files (k ∷ ks))
        (copy_all turns base files (k ∷ ks) [] []) (Joined-copy_all turns base files (k ∷ ks) [] [])
