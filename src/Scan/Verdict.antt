-- ===== src/Scan/Verdict.antt =====
-- internal/abuse/scan.go: which files are scanned, and what the rules make of what was found. The
-- instance's MIME table, the hash and the excerpts are arguments. An index out of range, which would
-- stop the program, is none.
use sitebin_io.Base.{
  ℕ, Bool, true, false, not, ◌&&◌, ◌||◌, List, [], ◌∷◌, Option, none, some, is_some, if◌then◌else◌,
  Str, codes, str_eq, contains,
}
use sitebin_io.Text.{base_name, to_lower, has_suffix, trim_space, cut, cut_last}
use sitebin_io.Scan.{Sizes, Scan, index_of, new_scan, flush}
use sitebin_io.Scan.Matches.{get_elem?}
use sitebin_io.Rules.{CompiledRule, RuleSet}
use sitebin_io.Guard.{Hit, ScanResult}

abbrev pub active_ext : List Str
active_ext =
    codes "html"
    ∷ codes "htm"
    ∷ codes "xhtml"
    ∷ codes "xht"
    ∷ codes "shtml"
    ∷ codes "svg"
    ∷ codes "xml"
    ∷ codes "xsl"
    ∷ codes "xslt"
    ∷ codes "rss"
    ∷ codes "atom"
    ∷ codes "js"
    ∷ codes "mjs"
    ∷ codes "cjs"
    ∷ codes "es"
    ∷ codes "jsm"
    ∷ []

abbrev pub binary_ext : List Str
binary_ext =
    codes "png"
    ∷ codes "jpg"
    ∷ codes "jpeg"
    ∷ codes "gif"
    ∷ codes "webp"
    ∷ codes "avif"
    ∷ codes "ico"
    ∷ codes "bmp"
    ∷ codes "tif"
    ∷ codes "tiff"
    ∷ codes "heic"
    ∷ codes "psd"
    ∷ codes "woff"
    ∷ codes "woff2"
    ∷ codes "ttf"
    ∷ codes "otf"
    ∷ codes "eot"
    ∷ codes "mp4"
    ∷ codes "webm"
    ∷ codes "mov"
    ∷ codes "m4v"
    ∷ codes "mkv"
    ∷ codes "avi"
    ∷ codes "mp3"
    ∷ codes "wav"
    ∷ codes "ogg"
    ∷ codes "oga"
    ∷ codes "flac"
    ∷ codes "aac"
    ∷ codes "m4a"
    ∷ codes "zip"
    ∷ codes "gz"
    ∷ codes "tgz"
    ∷ codes "bz2"
    ∷ codes "xz"
    ∷ codes "7z"
    ∷ codes "rar"
    ∷ codes "br"
    ∷ codes "zst"
    ∷ codes "pdf"
    ∷ codes "wasm"
    ∷ codes "exe"
    ∷ codes "dll"
    ∷ codes "so"
    ∷ []

-- `ext`.
unfoldable pub ext : Str → Str
ext p = elim (cut_last b'.' (base_name p)) [ none ↦ [] | some (stem, e) ↦ to_lower e ]

abbrev pub has_text : Str → Str → Bool
has_text part text = is_some (index_of part text)

unfoldable pub active_type : Str → Bool
active_type t =
    str_eq t (codes "text/html")
    || str_eq t (codes "text/xml")
    || str_eq t (codes "text/xsl")
    || str_eq t (codes "application/xml")
    || has_suffix t (codes "+xml")
    || has_text (codes "javascript") t
    || has_text (codes "ecmascript") t

-- `IsActive`.
unfoldable pub is_active : (Str → Str) → Str → Bool
unfolding ext active_type
is_active type_of p =
    let e = ext p in
    let (t, parameters) = cut b';' (to_lower (type_of (b'.' ∷ e))) in
    contains e active_ext || not (str_eq e []) && active_type (trim_space t)

-- `NewScan`: none for a file that is never scanned.
unfoldable pub scan_of : Sizes → RuleSet → (Str → Str) → Str → Option Scan
unfolding ext
scan_of sizes rs unescape p =
    if contains (ext p) binary_ext then none else some (new_scan sizes rs.patterns unescape)

abbrev pub applies : Str → CompiledRule → Bool
applies e r = elim r.files [ none ↦ true | some files ↦ contains e files ]

-- The loop over `cr.all`.
unfoldable pub all_found : List Bool → List ℕ → Option Bool
all_found found [] = some true
all_found found (i ∷ more) = elim (get_elem? found i) [
  | none ↦ none
  | some false ↦ some false
  | some true ↦ all_found found more
]

-- The loop over `cr.any`: the first that is found, if one is.
unfoldable pub first_found : List Bool → List ℕ → Option (Option ℕ)
first_found found [] = some none
first_found found (i ∷ more) = elim (get_elem? found i) [
  | none ↦ none
  | some true ↦ some (some i)
  | some false ↦ first_found found more
]

abbrev pub hit_with : CompiledRule → Option Str → Option (Option Hit)
hit_with r none = none
hit_with r (some excerpt) =
    some (some (record { rule = r.id; severity = r.severity; excerpt = excerpt }))

abbrev pub hit_at : CompiledRule → List Str → Option (Option ℕ) → Option (Option Hit)
hit_at r excerpts none = none
hit_at r excerpts (some none) = some none
hit_at r excerpts (some (some i)) = hit_with r (get_elem? excerpts i)

-- What a rule makes of the patterns that were found, once all that it wants together are.
unfoldable pub any_hit : CompiledRule → List Bool → List Str → List ℕ → List ℕ → Option (Option Hit)
unfolding first_found
any_hit r found excerpts (i ∷ any_of) all = hit_at r excerpts (first_found found (i ∷ any_of))
any_hit r found excerpts [] [] = none
any_hit r found excerpts [] (i ∷ all) = hit_with r (get_elem? excerpts i)

abbrev pub when_all : Option Bool → Option (Option Hit) → Option (Option Hit)
when_all none hit = none
when_all (some false) hit = some none
when_all (some true) hit = hit

-- One round of the loop of `Result`.
unfoldable pub rule_hit : Str → List Bool → List Str → CompiledRule → Option (Option Hit)
unfolding all_found any_hit
rule_hit e found excerpts r =
    if applies e r
    then when_all (all_found found r.all) (any_hit r found excerpts r.any_of r.all)
    else some none

abbrev pub with_hit : Option (Option Hit) → Option (List Hit) → Option (List Hit)
with_hit none more = none
with_hit (some one) none = none
with_hit (some none) (some more) = some more
with_hit (some (some h)) (some more) = some (h ∷ more)

unfoldable pub rule_hits : Str → List Bool → List Str → List CompiledRule → Option (List Hit)
unfolding rule_hit
rule_hits e found excerpts [] = some []
rule_hits e found excerpts (r ∷ rules) =
    with_hit (rule_hit e found excerpts r) (rule_hits e found excerpts rules)

abbrev pub result_with : (Str → Str) → Str → Str → Option (List Hit) → Option ScanResult
result_with type_of path hash none = none
result_with type_of path hash (some hits) =
    some (record { scanned = path; hash = hash; active = is_active type_of path; hits = hits })

-- `Result`.
unfoldable pub result_of :
    Sizes → RuleSet → (Str → Str) → (Str → Str) → Str → Str → List Str → Scan → Option ScanResult
unfolding ext rule_hits
result_of sizes rs unescape type_of path hash excerpts s =
    let flushed = flush sizes rs.patterns unescape s in
    result_with type_of path hash (rule_hits (ext path) flushed.found excerpts rs.rules)
