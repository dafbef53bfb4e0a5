-- ===== src/Tags/Clean.antt =====
-- What a list of tags looks like after cleaning.
use sitebin_io.Base.{
  suc, ◌≤◌, ◌≡◌, refl, ap, ◌∙◌, true, false, ◌||◌, Bool-cases, inl, inr, List, [], ◌∷◌, ◌++◌, arith,
  leb, Str, str_eq, str_eq_iff, any, length, ok, >>=-eq-ok, ◌>>◌, require, too_many_tags,
}
use sitebin_io.Tags.{
  max_site_tags, max_tag_runes, clean_tag, str_lt, same_tag, add_tag, merge_tags, insert_tag,
  sort_tags, clean_tags,
}

str_lt_total : (s t : Str) → str_lt s t ≡ false → str_eq s t ≡ false → str_lt t s ≡ true
unfolding str_lt str_eq
str_lt_total [] [] h k = cc
str_lt_total [] (b ∷ t) h k = cc
str_lt_total (a ∷ s) [] h k = refl
str_lt_total (a ∷ s) (b ∷ t) h k = ground (arith, str_lt_total s t)

-- A tag as `CleanTag` leaves it.
abbrev pub IsTag : Str → Type 0
IsTag t = (1 ≤ length t) × (length t ≤ max_tag_runes)

abbrev pub AllTags : List Str → Type 0
AllTags [] = Unit
AllTags (t ∷ out) = IsTag t × AllTags out

module _ (key : Str → Str) where
  abbrev pub Before : Str → List Str → Type 0
  Before t [] = Unit
  Before t (o ∷ out) = str_lt (key t) (key o) ≡ true

  -- Each key is below the next: sorted, and no two tags differ only in case.
  abbrev pub Increasing : List Str → Type 0
  Increasing [] = Unit
  Increasing (t ∷ out) = Before t out × Increasing out

  -- No two tags have one key.
  abbrev Distinct : List Str → Type 0
  Distinct [] = Unit
  Distinct (t ∷ out) = (any (same_tag key t) out ≡ false) × Distinct out

  same_tag_sym : (t o : Str) → same_tag key t o ≡ same_tag key o t
  unfolding same_tag
  same_tag_sym t o = ground (arith, str_eq_iff (key o) (key t), str_eq_iff (key t) (key o))

  any_last :
      (t o : Str) (out : List Str)
      → any (same_tag key t) (out ++ o ∷ []) ≡ (any (same_tag key t) out || same_tag key t o)
  any_last t o [] = ground arith
  any_last t o (x ∷ out) = ground (arith, any_last t o out)

  Distinct-last :
      (t : Str) (out : List Str)
      → Distinct out
      → any (same_tag key t) out ≡ false
      → Distinct (out ++ t ∷ [])
  Distinct-last t [] d h = (refl, tt)
  Distinct-last t (o ∷ out) (n, d) h =
      (ground (arith, any_last o t out, same_tag_sym o t), Distinct-last t out d (ground arith))

  add_tag-Distinct : (out : List Str) (t : Str) → Distinct out → Distinct (add_tag key out t)
  unfolding add_tag
  add_tag-Distinct out t d = elim (Bool-cases (any (same_tag key t) out)) [
    | inl e ↦ rw e d
    | inr e ↦ rw e (Distinct-last t out d e)
  ]

  AllTags-last : (t : Str) (out : List Str) → AllTags out → IsTag t → AllTags (out ++ t ∷ [])
  AllTags-last t [] a h = (h, tt)
  AllTags-last t (o ∷ out) (x, a) h = (x, AllTags-last t out a h)

  add_tag-AllTags : (out : List Str) (t : Str) → AllTags out → IsTag t → AllTags (add_tag key out t)
  unfolding add_tag
  add_tag-AllTags out t a h = elim (Bool-cases (any (same_tag key t) out)) [
    | inl e ↦ rw e a
    | inr e ↦ rw e (AllTags-last t out a h)
  ]

  clean_tag-IsTag : (raw t : Str) → clean_tag raw ≡ ok t → IsTag t
  unfolding clean_tag
  clean_tag-IsTag raw t h = ground arith

  merge_tags_sound :
      (given out merged : List Str)
      → Distinct out
      → AllTags out
      → merge_tags key out given ≡ ok merged
      → Distinct merged × AllTags merged
  unfolding merge_tags
  merge_tags_sound [] out merged d a h = let e : out ≡ merged = cc in rw (← e) (d, a)
  merge_tags_sound (raw ∷ more) out merged d a h =
      let (t, e, k) = >>=-eq-ok (clean_tag raw) _ h in
      merge_tags_sound more (add_tag key out t) merged (add_tag-Distinct out t d)
        (add_tag-AllTags out t a (clean_tag-IsTag raw t e)) k

  any-insert_tag :
      (t x : Str) (out : List Str)
      → any (same_tag key t) (insert_tag key x out) ≡ (same_tag key t x || any (same_tag key t) out)
  unfolding insert_tag
  any-insert_tag t x [] = refl
  any-insert_tag t x (o ∷ out) = ground (arith, any-insert_tag t x out)

  any-sort_tags :
      (t : Str) (out : List Str)
      → any (same_tag key t) (sort_tags key out) ≡ any (same_tag key t) out
  unfolding sort_tags
  any-sort_tags t [] = refl
  any-sort_tags t (x ∷ out) =
      any-insert_tag t x (sort_tags key out) ∙ ap (λ b. same_tag key t x || b) (any-sort_tags t out)

  Before-insert_tag :
      (o t : Str) (out : List Str)
      → Before o out
      → str_lt (key o) (key t) ≡ true
      → Before o (insert_tag key t out)
  unfolding insert_tag
  Before-insert_tag o t [] b h = h
  Before-insert_tag o t (x ∷ out) b h = elim (Bool-cases (str_lt (key x) (key t))) [
    | inl e ↦ rw e b
    | inr e ↦ rw e h
  ]

  insert_tag-Increasing :
      (t : Str) (out : List Str)
      → Increasing out
      → any (same_tag key t) out ≡ false
      → Increasing (insert_tag key t out)
  unfolding insert_tag same_tag
  insert_tag-Increasing t [] i h = (tt, tt)
  insert_tag-Increasing t (o ∷ out) (b, i) h = elim (Bool-cases (str_lt (key o) (key t))) [
    | inl e ↦ rw e (Before-insert_tag o t out b e, insert_tag-Increasing t out i (ground arith))
    | inr e ↦ rw e (str_lt_total (key o) (key t) e (ground arith), (b, i))
  ]

  sort_tags-Increasing : (out : List Str) → Distinct out → Increasing (sort_tags key out)
  unfolding sort_tags
  sort_tags-Increasing [] d = tt
  sort_tags-Increasing (t ∷ out) (n, d) =
      insert_tag-Increasing t (sort_tags key out) (sort_tags-Increasing out d)
        (any-sort_tags t out ∙ n)

  AllTags-insert_tag :
      (t : Str) (out : List Str) → IsTag t → AllTags out → AllTags (insert_tag key t out)
  unfolding insert_tag
  AllTags-insert_tag t [] h a = (h, tt)
  AllTags-insert_tag t (o ∷ out) h (x, a) = elim (Bool-cases (str_lt (key o) (key t))) [
    | inl e ↦ rw e (x, AllTags-insert_tag t out h a)
    | inr e ↦ rw e (h, (x, a))
  ]

  AllTags-sort_tags : (out : List Str) → AllTags out → AllTags (sort_tags key out)
  unfolding sort_tags
  AllTags-sort_tags [] a = tt
  AllTags-sort_tags (t ∷ out) (x, a) =
      AllTags-insert_tag t (sort_tags key out) x (AllTags-sort_tags out a)

  length-insert_tag : (t : Str) (out : List Str) → length (insert_tag key t out) ≡ suc (length out)
  unfolding insert_tag
  length-insert_tag t [] = refl
  length-insert_tag t (o ∷ out) = ground (arith, length-insert_tag t out)

  length-sort_tags : (out : List Str) → length (sort_tags key out) ≡ length out
  unfolding sort_tags
  length-sort_tags [] = refl
  length-sort_tags (t ∷ out) =
      omega (arith, length-insert_tag t (sort_tags key out), length-sort_tags out)

-- Tags that pass are at most ten, each of 1 to 30 characters, in the strict order of their keys: so no
-- two of them are one tag in two spellings.
pub clean_tags-Increasing :
    (key : Str → Str) (given out : List Str)
    → clean_tags key given ≡ ok out
    → Increasing key out × AllTags out × (length out ≤ max_site_tags)
unfolding clean_tags
clean_tags-Increasing key given out h =
    let (merged, e, k) = >>=-eq-ok (merge_tags key [] given) _ h in
    let (d, a) = merge_tags_sound key given [] merged tt tt e in
    let (sorted, few) = sorted_few merged k in
    rw (← sorted) (
      sort_tags-Increasing key merged d,
      AllTags-sort_tags key merged a,
      omega (arith, few, length-sort_tags key merged),
    )
  where
    sorted_few :
        (merged : List Str)
        → (require (leb (length merged) max_site_tags) too_many_tags >> ok (sort_tags key merged))
          ≡ ok out
        → (sort_tags key merged ≡ out) × (length merged ≤ max_site_tags)
    sorted_few merged k = ground arith
