-- ===== src/Scan/Matches.antt =====
-- internal/abuse/scan.go: what one round over the patterns does to what was found so far.
use sitebin_io.Base.{
  ℕ, zero, suc, ◌≡◌, refl, ap, ◌∙◌, arith, Bool, true, List, [], ◌∷◌, Option, none, some, is_some,
  Str, length,
}
use sitebin_io.Text.{to_lower}
use sitebin_io.Scan.{Pattern, literal, find_pattern, match_all, no_matches, index_of, up_to}
use sitebin_io.Scan.Overlap.{shows}

-- The element at a place.
unfoldable pub get_elem? {ℓ} : {A : Type ℓ} → List A → ℕ → Option A
get_elem? [] i = none
get_elem? (x ∷ xs) zero = some x
get_elem? (x ∷ xs) (suc i) = get_elem? xs i

-- What was found stays found.
pub match_all-kept :
    (patterns : List Pattern) (text : Str) (decoded : Option Str) (found : List Bool) (i : ℕ)
    → length found ≡ length patterns
    → get_elem? found i ≡ some true
    → get_elem? (match_all patterns text decoded found) i ≡ some true
unfolding match_all get_elem?
match_all-kept [] text decoded [] i same h = h
match_all-kept [] text decoded (f ∷ found) i same h = ground arith
match_all-kept (p ∷ ps) text decoded [] i same h = ground arith
match_all-kept (p ∷ ps) text decoded (f ∷ found) zero same h = ground arith
match_all-kept (p ∷ ps) text decoded (f ∷ found) (suc i) same h =
    match_all-kept ps text decoded found i (omega arith) h

find_pattern-literal : (l t : Str) → is_some (find_pattern (literal l) t) ≡ is_some (index_of l t)
unfolding find_pattern
find_pattern-literal l t = elim (index_of l t) as (λ o. is_some (up_to (length l) o) ≡ is_some o) [
  | none ↦ refl
  | some k ↦ refl
]

pub match_all-finds :
    (patterns : List Pattern) (text : Str) (decoded : Option Str) (found : List Bool) (i : ℕ)
    (l : Str)
    → length found ≡ length patterns
    → get_elem? patterns i ≡ some (literal l)
    → shows l text ≡ true
    → get_elem? (match_all patterns text decoded found) i ≡ some true
unfolding match_all get_elem?
match_all-finds [] text decoded found i l same h seen = ground arith
match_all-finds (p ∷ ps) text decoded [] i l same h seen = ground arith
match_all-finds (p ∷ ps) text decoded (f ∷ found) zero l same h seen =
    let same_pattern : p ≡ literal l = cc in
    let seen_here : is_some (find_pattern p (to_lower text)) ≡ true =
      ap (λ (q : Pattern). is_some (find_pattern q (to_lower text))) same_pattern
      ∙ find_pattern-literal l (to_lower text)
      ∙ seen in
    ground arith
match_all-finds (p ∷ ps) text decoded (f ∷ found) (suc i) l same h seen =
    match_all-finds ps text decoded found i l (omega arith) h seen

pub length-match_all :
    (patterns : List Pattern) (text : Str) (decoded : Option Str) (found : List Bool)
    → length found ≡ length patterns
    → length (match_all patterns text decoded found) ≡ length patterns
unfolding match_all
length-match_all [] text decoded found same = refl
length-match_all (p ∷ ps) text decoded [] same = ground arith
length-match_all (p ∷ ps) text decoded (f ∷ found) same =
    ap suc (length-match_all ps text decoded found (omega arith))

pub length-no_matches : (patterns : List Pattern) → length (no_matches patterns) ≡ length patterns
unfolding no_matches
length-no_matches [] = refl
length-no_matches (p ∷ ps) = ap suc (length-no_matches ps)
