-- ===== src/Paths.antt =====
-- internal/store/files.go: the paths that uploads are stored at.
pub mod Confined
use sitebin_io.Base.{
  ℕ, zero, suc, Bool, true, false, not, ◌&&◌, ◌||◌, List, [], ◌∷◌, ◌++◌, if◌then◌else◌, leb, ltb,
  ◌==◌, Str, codes, str_eq, contains, any, length, Error, bad_path, Result, ok, err, require, ◌>>=◌,
  ◌>>◌,
}
use sitebin_io.Text.{to_lower, has_prefix, split, occurs}

-- `reservedTopLevel`; `_raw` is `rawDirName`.
abbrev pub reserved_top_level : List Str
reserved_top_level = codes "_sitebin" ∷ codes "_raw" ∷ codes "meta.json" ∷ []

abbrev pub is_dots : Str → Bool
is_dots s = str_eq s (codes "..")

abbrev pub is_bad_byte : ℕ → Bool
is_bad_byte c = ltb c 32 || c == 127 || c == b'\\'

-- One folder up: past the start of a relative path that is two dots more.
unfoldable pub up : List Str → List Str
up [] = codes ".." ∷ []
up (s ∷ []) = if is_dots s then s ∷ codes ".." ∷ [] else []
up (s ∷ t ∷ done) = s ∷ up (t ∷ done)

abbrev pub enter : List Str → Str → List Str
enter done s =
    if str_eq s [] || str_eq s (codes ".")
    then done
    else if is_dots s
    then up done
    else done ++ s ∷ []

unfoldable pub clean_segments : List Str → List Str → List Str
unfolding up
clean_segments done [] = done
clean_segments done (s ∷ segments) = clean_segments (enter done s) segments

unfoldable pub join : List Str → Str
join [] = []
join (s ∷ []) = s
join (s ∷ t ∷ segments) = s ++ (b'/' ∷ join (t ∷ segments))

abbrev pub or_dot : List Str → Str
or_dot [] = codes "."
or_dot (s ∷ segments) = join (s ∷ segments)

-- `path.Clean` of a relative path.
unfoldable pub path_clean : Str → Str
unfolding clean_segments join
path_clean p = or_dot (clean_segments [] (split b'/' p))

abbrev pub has_drive : Str → Bool
has_drive (c ∷ d ∷ s) = d == b':'
has_drive _ = false

abbrev pub is_reserved : List Str → Bool
is_reserved [] = false
is_reserved (s ∷ segments) =
    contains (to_lower s) reserved_top_level || has_prefix (to_lower s) (codes ".sitebin-")

-- `CleanRelPath`.
unfoldable pub clean_rel_path : Str → Result Str
unfolding path_clean
clean_rel_path p =
    let c = path_clean p in
    do
      require (not (str_eq p [] || ltb 1024 (length p))) bad_path
      require (not (any (λ r. ltb r 32 || r == 127) p)) bad_path
      require (not (occurs b'\\' p || has_prefix p (codes "/"))) bad_path
      require (not (has_drive p)) bad_path
      require
          (not (
            str_eq c (codes ".")
            || str_eq c (codes "..")
            || has_prefix c (codes "../")
            || has_prefix c (codes "/")))
          bad_path
      require (not (is_reserved (split b'/' c))) bad_path
      require (not (any (λ s. str_eq s [] || ltb 255 (length s)) (split b'/' c))) bad_path
      ok c
