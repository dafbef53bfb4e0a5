-- ===== src/Tags.antt =====
-- internal/store/tags.go and sitename.go: the tags and the name of a site. A text is the list of its
-- characters and valid UTF-8. The key of a tag, its text in lower case, is an argument: Go folds all
-- of Unicode.
pub mod Clean
use sitebin_io.Base.{
  ℕ, Bool, true, false, not, ◌&&◌, ◌||◌, List, [], ◌∷◌, ◌++◌, leb, ltb, ◌==◌, if◌then◌else◌, Str,
  str_eq, length, any, Error, bad_tag, too_many_tags, Result, ok, err, ◌>>=◌, ◌>>◌, require,
}
use sitebin_io.OneLine.{is_control, collapse, trim}

abbrev pub max_tag_runes : ℕ
max_tag_runes = 30

abbrev pub max_site_tags : ℕ
max_site_tags = 10

abbrev pub max_site_name_runes : ℕ
max_site_name_runes = 60

-- `CleanTag`.
unfoldable pub clean_tag : Str → Result Str
clean_tag s = do
  require (not (any is_control s) && not (any (λ c. c == b',') s)) bad_tag
  let t = collapse s
  require (leb 1 (length t) && leb (length t) max_tag_runes) bad_tag
  ok t

-- `CleanSiteName`.
unfoldable pub clean_site_name : Str → Result Str
clean_site_name s = do
  require (not (any is_control s)) bad_tag
  require (leb (length (trim s)) max_site_name_runes) bad_tag
  ok (trim s)

-- Go's `<` on strings: the order of their bytes is that of their characters.
unfoldable pub str_lt : Str → Str → Bool
str_lt [] [] = false
str_lt [] (b ∷ t) = true
str_lt (a ∷ s) [] = false
str_lt (a ∷ s) (b ∷ t) = ltb a b || a == b && str_lt s t

module _ (key : Str → Str) where
  unfoldable pub same_tag : Str → Str → Bool
  same_tag t o = str_eq (key o) (key t)

  -- The body of the loop on a clean tag: the first spelling of a key wins.
  unfoldable pub add_tag : List Str → Str → List Str
  unfolding same_tag
  add_tag out t = if any (same_tag t) out then out else out ++ t ∷ []

  -- The loop of `CleanTags`.
  unfoldable pub merge_tags : List Str → List Str → Result (List Str)
  unfolding add_tag
  merge_tags out [] = ok out
  merge_tags out (raw ∷ more) = clean_tag raw >>= λ t. merge_tags (add_tag out t) more

  -- One tag put before the first whose key is not below its own.
  unfoldable pub insert_tag : Str → List Str → List Str
  insert_tag t [] = t ∷ []
  insert_tag t (o ∷ out) =
      let later = o ∷ insert_tag t out in if str_lt (key o) (key t) then later else t ∷ o ∷ out

  -- `sort.SliceStable` by key.
  unfoldable pub sort_tags : List Str → List Str
  unfolding insert_tag
  sort_tags [] = []
  sort_tags (t ∷ out) = insert_tag t (sort_tags out)

  -- `CleanTags`.
  unfoldable pub clean_tags : List Str → Result (List Str)
  unfolding merge_tags sort_tags
  clean_tags given = do
    out ← merge_tags [] given
    require (leb (length out) max_site_tags) too_many_tags
    ok (sort_tags out)
