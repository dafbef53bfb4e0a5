-- ===== src/Paths/Confined.antt =====
-- internal/store/files.go: a path that is accepted stays inside the site's content.
use mathlib.Core.List.{append_assoc, append-nil}
use sitebin_io.Base.{
  ℕ, ◌≡◌, refl, ap, ◌∙◌, subst, arith, Bool, Bool-cases, inl, inr, true, false, not, ◌&&◌, ◌||◌,
  List, [], ◌∷◌, ◌++◌, if◌then◌else◌, ltb, ◌==◌, Str, codes, str_eq, str_eq_iff, any, length, ok,
  require, require-true, >>=-eq-ok, bad_path,
}
use sitebin_io.Text.{has_prefix, split, split_from, occurs}
use sitebin_io.Paths.{
  is_dots, is_bad_byte, up, enter, clean_segments, join, or_dot, path_clean, has_drive, is_reserved,
  clean_rel_path,
}

-- A segment that names something in its folder, or two dots.
unfoldable pub is_segment : Str → Bool
is_segment s =
    not (any is_bad_byte s)
    && not (occurs b'/' s)
    && not (str_eq s [])
    && not (str_eq s (codes "."))

-- A part of a path between slashes.
unfoldable is_part : Str → Bool
is_part s = not (any is_bad_byte s) && not (occurs b'/' s)

any-snoc {ℓ} :
    {A : Type ℓ} (p : A → Bool) (xs : List A) (x : A) → any p (xs ++ x ∷ []) ≡ (any p xs || p x)
any-snoc p [] x = ground arith
any-snoc p (y ∷ xs) x = ground (arith, any-snoc p xs x)

occurs-append : (b : ℕ) (s t : Str) → occurs b (s ++ t) ≡ (occurs b s || occurs b t)
occurs-append b [] t = refl
occurs-append b (c ∷ s) t = ground (arith, occurs-append b s t)

split_from-part :
    (part s : Str)
    → is_part part ≡ true
    → any is_bad_byte s ≡ false
    → any (λ t. not (is_part t)) (split_from b'/' part s) ≡ false
unfolding split_from is_part
split_from-part part [] h good = ground arith
split_from-part part (c ∷ s) h good = elim (Bool-cases (c == b'/')) [
  | inl e ↦ rw e (ground (arith, h, split_from-part [] s refl (ground arith)))
  | inr e ↦
      let longer : is_part (part ++ c ∷ []) ≡ true =
        ground (arith, h, good, any-snoc is_bad_byte part c, occurs-append b'/' part (c ∷ [])) in
      rw e (split_from-part (part ++ c ∷ []) s longer (ground arith))
]

any-up :
    (p : Str → Bool) (done : List Str)
    → p (codes "..") ≡ false
    → any p done ≡ false
    → any p (up done) ≡ false
unfolding up
any-up p [] dots h = ground arith
any-up p (s ∷ []) dots h = ground arith
any-up p (s ∷ t ∷ done) dots h = ground (arith, any-up p (t ∷ done) dots)

clean_segments-segment :
    (done segments : List Str)
    → any (λ t. not (is_part t)) segments ≡ false
    → any (λ t. not (is_segment t)) done ≡ false
    → any (λ t. not (is_segment t)) (clean_segments done segments) ≡ false
unfolding clean_segments is_part is_segment str_eq
clean_segments-segment done [] parts h = h
clean_segments-segment done (s ∷ segments) parts h =
    clean_segments-segment (enter done s) segments (ground arith) (
      ground (
        arith,
        h,
        parts,
        any-up (λ t. not (is_segment t)) done refl h,
        any-snoc (λ t. not (is_segment t)) done s,
      ))

-- The two dots of a path stand at its start.
unfoldable dots_first : List Str → Bool
dots_first [] = true
dots_first (s ∷ segments) = if is_dots s then dots_first segments else not (any is_dots segments)

up_without :
    (s : Str) (done : List Str)
    → any is_dots (s ∷ done) ≡ false
    → any is_dots (up (s ∷ done)) ≡ false
unfolding up
up_without s [] h = ground arith
up_without s (t ∷ done) h = ground (arith, up_without t done)

dots_first-up : (done : List Str) → dots_first done ≡ true → dots_first (up done) ≡ true
unfolding up dots_first str_eq
dots_first-up [] h = refl
dots_first-up (s ∷ []) h = ground arith
dots_first-up (s ∷ t ∷ done) h = ground (arith, dots_first-up (t ∷ done), up_without t done)

dots_first-snoc :
    (done : List Str) (s : Str)
    → is_dots s ≡ false
    → dots_first done ≡ true
    → dots_first (done ++ s ∷ []) ≡ true
unfolding dots_first
dots_first-snoc [] s name h = ground arith
dots_first-snoc (t ∷ done) s name h =
    ground (arith, dots_first-snoc done s name, any-snoc is_dots done s)

clean_segments-dots_first :
    (done segments : List Str)
    → dots_first done ≡ true
    → dots_first (clean_segments done segments) ≡ true
unfolding clean_segments
clean_segments-dots_first done [] h = h
clean_segments-dots_first done (s ∷ segments) h =
    clean_segments-dots_first (enter done s) segments
      (ground (arith, h, dots_first-up done h, dots_first-snoc done s))

-- Segments put together come apart there again.
split_from-append :
    (part a b : Str)
    → occurs b'/' a ≡ false
    → split_from b'/' part (a ++ (b'/' ∷ b)) ≡ (part ++ a) ∷ split_from b'/' [] b
unfolding split_from
split_from-append part [] b h = ground (arith, append-nil part)
split_from-append part (c ∷ a) b h =
    ground (arith, split_from-append (part ++ c ∷ []) a b, append_assoc part (c ∷ []) a)

split_from-whole :
    (part a : Str) → occurs b'/' a ≡ false → split_from b'/' part a ≡ (part ++ a) ∷ []
unfolding split_from
split_from-whole part [] h = ground (arith, append-nil part)
split_from-whole part (c ∷ a) h =
    ground (arith, split_from-whole (part ++ c ∷ []) a, append_assoc part (c ∷ []) a)

split-join :
    (s : Str) (segments : List Str)
    → any (λ t. not (is_segment t)) (s ∷ segments) ≡ false
    → split b'/' (join (s ∷ segments)) ≡ s ∷ segments
unfolding split join is_segment
split-join s [] h = split_from-whole [] s (ground arith)
split-join s (t ∷ segments) h =
    split_from-append [] s (join (t ∷ segments)) (ground arith)
    ∙ ap (λ (l : List Str). s ∷ l) (split-join t segments (ground arith))

has_prefix_nothing : (s : Str) → has_prefix s [] ≡ true
unfolding has_prefix
has_prefix_nothing [] = refl
has_prefix_nothing (c ∷ s) = refl

any_long :
    (xs : List Str)
    → any (λ s. str_eq s [] || ltb 255 (length s)) xs ≡ false
    → any (λ s. ltb 255 (length s)) xs ≡ false
any_long [] h = refl
any_long (x ∷ xs) h = ground (arith, any_long xs)

-- The first segment of a path that does not begin with two dots.
starts_inside :
    (s : Str) (segments : List Str)
    → str_eq (join (s ∷ segments)) (codes "..") ≡ false
    → has_prefix (join (s ∷ segments)) (codes "../") ≡ false
    → is_dots s ≡ false
unfolding join has_prefix
starts_inside s [] whole prefix = whole
starts_inside s (t ∷ segments) whole prefix = elim (Bool-cases (is_dots s)) [
  | inl e ↦
      let it : s ≡ codes ".." = (str_eq_iff s (codes "..")).0 e in
      let outside : has_prefix (codes ".." ++ (b'/' ∷ join (t ∷ segments))) (codes "../") ≡ false =
        subst (λ x. has_prefix (x ++ (b'/' ∷ join (t ∷ segments))) (codes "../") ≡ false) it
          prefix in
      ground (arith, has_prefix_nothing (join (t ∷ segments)))
  | inr e ↦ e
]

-- Where a path leads to: by named segments, none of which is empty, one dot, two dots, or longer than a
-- name may be, or holds a slash, a backslash or a control character of ASCII, and the first of which is
-- no name of the program's own.
pub record IsConfined (path : Str) : Type 0 where
  pub segments : any (λ s. not (is_segment s)) (split b'/' path) ≡ false
  pub no_dots : any is_dots (split b'/' path) ≡ false
  pub short : any (λ s. ltb 255 (length s)) (split b'/' path) ≡ false
  pub not_reserved : is_reserved (split b'/' path) ≡ false

path-IsConfined :
    (segments : List Str)
    → any (λ s. not (is_segment s)) segments ≡ false
    → dots_first segments ≡ true
    → str_eq (or_dot segments) (codes ".") ≡ false
    → str_eq (or_dot segments) (codes "..") ≡ false
    → has_prefix (or_dot segments) (codes "../") ≡ false
    → any (λ s. str_eq s [] || ltb 255 (length s)) (split b'/' (or_dot segments)) ≡ false
    → is_reserved (split b'/' (or_dot segments)) ≡ false
    → IsConfined (or_dot segments)
unfolding str_eq dots_first
path-IsConfined [] all_good ordered dot dots up_first lengths own = ground arith
path-IsConfined (s ∷ segments) all_good ordered dot dots up_first lengths own =
    let apart = split-join s segments all_good in
    let name = starts_inside s segments dots up_first in
    record {
      segments = rw apart all_good;
      no_dots = rw apart (ground (arith, ordered, name));
      short = any_long (split b'/' (or_dot (s ∷ segments))) lengths;
      not_reserved = own;
    }

any_bad : (p : Str) → any is_bad_byte p ≡ (any (λ r. ltb r 32 || r == 127) p || occurs b'\\' p)
any_bad [] = refl
any_bad (c ∷ p) = ground (arith, any_bad p)

-- A path that is accepted leads to a place inside the site's content by named segments, none of which
-- is empty, one dot, two dots or longer than 255 bytes, or holds a slash, a backslash or a control
-- character of ASCII, and the first of which is no name of the program's own in any letter case.
pub clean_rel_path-IsConfined : (p c : Str) → clean_rel_path p ≡ ok c → IsConfined c
unfolding clean_rel_path path_clean split is_part dots_first
clean_rel_path-IsConfined p c e =
    let segments = clean_segments [] (split b'/' p) in
    let d = path_clean p in
    let (a1, sized, e) =
      >>=-eq-ok (require (not (str_eq p [] || ltb 1024 (length p))) bad_path) _ e in
    let (a2, printable, e) =
      >>=-eq-ok (require (not (any (λ r. ltb r 32 || r == 127) p)) bad_path) _ e in
    let (a3, forward, e) =
      >>=-eq-ok (require (not (occurs b'\\' p || has_prefix p (codes "/"))) bad_path) _ e in
    let (a4, local, e) = >>=-eq-ok (require (not (has_drive p)) bad_path) _ e in
    let (a5, inside, e) =
      >>=-eq-ok
        (require
          (not (
            str_eq d (codes ".")
            || str_eq d (codes "..")
            || has_prefix d (codes "../")
            || has_prefix d (codes "/")))
          bad_path)
        _ e in
    let (a6, own, e) = >>=-eq-ok (require (not (is_reserved (split b'/' d))) bad_path) _ e in
    let (a7, lengths, e) =
      >>=-eq-ok
        (require (not (any (λ s. str_eq s [] || ltb 255 (length s)) (split b'/' d))) bad_path) _
        e in
    let same : d ≡ c = cc in
    let printable = require-true _ _ a2 printable in
    let forward = require-true _ _ a3 forward in
    let good : any is_bad_byte p ≡ false = any_bad p ∙ ground arith in
    let parts = split_from-part [] p refl good in
    let inside = require-true _ _ a5 inside in
    subst IsConfined same (
      path-IsConfined segments (clean_segments-segment [] (split b'/' p) parts refl)
        (clean_segments-dots_first [] (split b'/' p) refl) (ground arith) (ground arith)
        (ground arith) (ground (arith, require-true _ _ a7 lengths))
        (ground (arith, require-true _ _ a6 own)))
