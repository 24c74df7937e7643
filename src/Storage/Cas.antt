-- ===== src/Storage/Cas.antt =====
-- src/storage/cas_layout.h and cas_layout.cpp, `CasLayout`: where a blob is kept, and
-- `FileSystem::JoinPath` of src/util/fs.cpp.
use zls.Base.{
  Bool, true, false, ◌&&◌, ◌||◌, [], ◌∷◌, ◌++◌, if◌then◌else◌, ltb, leb, ◌==◌, length, take, drop,
}
use zls.Base.Bytes.{Bytes, codes, is_empty}

unfoldable pub ends_with_slash : Bytes → Bool
ends_with_slash [] = false
ends_with_slash (c ∷ []) = c == b'/'
ends_with_slash (c ∷ d ∷ cs) = ends_with_slash (d ∷ cs)

unfoldable pub is_absolute : Bytes → Bool
is_absolute [] = false
is_absolute (c ∷ cs) = c == b'/'

-- `std::filesystem::path(base) / sub`.
unfoldable pub join_path : Bytes → Bytes → Bytes
join_path base sub =
    if is_absolute sub
    then sub
    else if is_empty base || ends_with_slash base
    then base ++ sub
    else base ++ (b'/' ∷ sub)

-- `base` is the data directory.
unfoldable pub get_cas_dir : Bytes → Bytes → Bytes
get_cas_dir base cas_key =
    if ltb (length cas_key) 4
    then join_path base (codes "cas/00/00")
    else join_path (join_path (join_path base (codes "cas")) (take 2 cas_key))
        (take 2 (drop 2 cas_key))

unfoldable pub get_cas_path : Bytes → Bytes → Bytes
get_cas_path base cas_key = join_path (get_cas_dir base cas_key) (cas_key ++ codes ".blob")

unfoldable pub is_hex : Bytes → Bool
is_hex [] = true
is_hex (c ∷ cs) = ((leb b'0' c && leb c b'9') || (leb b'a' c && leb c b'f')) && is_hex cs

unfoldable pub is_valid_cas_key : Bytes → Bool
is_valid_cas_key cas_key = if length cas_key == 64 then is_hex cas_key else false
