-- ===== src/DomainName.antt =====
-- internal/store/domains.go (normalizeDomain), address.go and `overlaps` of zones.go: custom domains,
-- with an optional path, in the one form that everything stores.
use sitebin_io.Base.{
  ℕ, ◌+◌, Bool, true, false, not, ◌&&◌, ◌||◌, List, [], ◌∷◌, ◌++◌, none, some, leb, ◌==◌, Str,
  codes, str_eq, length, bad_domain, Result, ok, ◌>>=◌, ◌>>◌, require,
}
use sitebin_io.Text.{to_lower, trim_space, trim_suffix, has_suffix, cut, split}

abbrev pub is_digit : ℕ → Bool
is_digit c = leb b'0' c && leb c b'9'

abbrev pub is_lower : ℕ → Bool
is_lower c = leb b'a' c && leb c b'z'

abbrev pub is_alnum : ℕ → Bool
is_alnum c = is_lower c || is_digit c

-- The rest of a label after its first byte: letters, digits and dashes, the last one no dash.
unfoldable pub label_rest : Str → Bool
label_rest [] = true
label_rest (c ∷ []) = is_alnum c
label_rest (c ∷ s) = (is_alnum c || c == b'-') && label_rest s

-- `domainLabelRe`: ^[a-z0-9]([a-z0-9-]*[a-z0-9])?$
unfoldable pub label_matches : Str → Bool
unfolding label_rest
label_matches [] = false
label_matches (c ∷ s) = is_alnum c && label_rest s

unfoldable pub valid_labels : List Str → Bool
unfolding label_matches
valid_labels [] = true
valid_labels (l ∷ ls) = leb (length l) 63 && label_matches l && valid_labels ls

unfoldable pub normalize_domain : Str → Result Str
unfolding to_lower trim_suffix trim_space split valid_labels
normalize_domain domain = do
  let d = to_lower (trim_suffix (trim_space domain) (codes "."))
  require (not (str_eq d []) && leb (length d) 253) bad_domain
  require (leb 2 (length (split b'.' d))) bad_domain
  require (valid_labels (split b'.' d)) bad_domain
  ok d

abbrev pub max_path_segments : ℕ
max_path_segments = 8

abbrev pub max_path_len : ℕ
max_path_len = 200

unfoldable pub path_rune : ℕ → Bool
path_rune c = is_lower c || is_digit c || c == b'-' || c == b'_' || c == b'.' || c == b'~'

unfoldable pub path_runes : Str → Bool
unfolding path_rune
path_runes [] = true
path_runes (c ∷ s) = path_rune c && path_runes s

-- The `switch` on a segment and the loop over its characters.
unfoldable pub valid_segment : Str → Bool
unfolding path_runes str_eq
valid_segment seg =
    not (str_eq seg [])
    && not (str_eq seg (codes ".") || str_eq seg (codes ".."))
    && not (str_eq seg (codes "_sitebin"))
    && path_runes seg

unfoldable pub valid_segments : List Str → Bool
unfolding valid_segment
valid_segments [] = true
valid_segments (seg ∷ segs) = valid_segment seg && valid_segments segs

-- `validPath` of "/" ++ path: whether it returns nil.
unfoldable pub valid_path : Str → Bool
unfolding valid_segments split
valid_path path =
    leb (length path + 1) max_path_len
    && leb (length (split b'/' path)) max_path_segments
    && valid_segments (split b'/' path)

unfoldable pub normalize_address : Str → Result Str
unfolding normalize_domain valid_path cut trim_space
normalize_address s = do
  let (host, path) = cut b'/' (trim_space s)
  h ← normalize_domain host
  elim path [ none ↦ ok h | some p ↦ require (valid_path p) bad_domain >> ok (h ++ b'/' ∷ p) ]

unfoldable pub host_of : Str → Str
unfolding cut
host_of addr = (cut b'/' addr).0

unfoldable pub path_of : Str → Str
unfolding cut
path_of addr = elim ((cut b'/' addr).1) [ none ↦ [] | some p ↦ b'/' ∷ p ]

-- Whether two names are the same or one lies under the other.
unfoldable pub overlaps : Str → Str → Bool
unfolding has_suffix str_eq
overlaps a b = str_eq a b || has_suffix a (b'.' ∷ b) || has_suffix b (b'.' ∷ a)
