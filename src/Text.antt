-- ===== src/Text.antt =====
-- What the program uses of Go's package strings, over byte strings. Letters and white space are the
-- ASCII ones: Go also folds and trims the other scripts of Unicode.
pub mod Cuts
use mathlib.Core.List.{reverse}
use sitebin_io.Base.{
  ℕ, zero, suc, ◌+◌, ◌-◌, Bool, true, false, ◌&&◌, ◌||◌, List, [], ◌∷◌, ◌++◌, map, Option, none,
  some, leb, ◌==◌, if◌then◌else◌, Str, length, take,
}

unfoldable pub is_upper : ℕ → Bool
is_upper c = leb b'A' c && leb c b'Z'

unfoldable pub lower : ℕ → ℕ
unfolding is_upper
lower c = if is_upper c then c + 32 else c

-- `strings.ToLower`.
unfoldable pub to_lower : Str → Str
unfolding lower
to_lower s = map lower s

-- Tab, line feed, vertical tab, form feed, carriage return, space.
unfoldable pub is_space : ℕ → Bool
is_space c = leb 9 c && leb c 13 || c == 32

-- `strings.HasPrefix`.
unfoldable pub has_prefix : Str → Str → Bool
has_prefix s [] = true
has_prefix [] (p ∷ ps) = false
has_prefix (c ∷ s) (p ∷ ps) = c == p && has_prefix s ps

-- `strings.HasSuffix`.
unfoldable pub has_suffix : Str → Str → Bool
unfolding has_prefix
has_suffix s suffix = has_prefix (reverse s) (reverse suffix)

-- `strings.TrimSuffix`.
unfoldable pub trim_suffix : Str → Str → Str
unfolding has_suffix
trim_suffix s suffix = if has_suffix s suffix then take (length s - length suffix) s else s

-- `strings.TrimPrefix`.
unfoldable pub trim_prefix : Str → Str → Str
trim_prefix s [] = s
trim_prefix [] (p ∷ ps) = []
trim_prefix (c ∷ s) (p ∷ ps) =
    let rest = trim_prefix s ps in if has_prefix (c ∷ s) (p ∷ ps) then rest else c ∷ s

unfoldable pub trim_left : Str → Str
unfolding is_space
trim_left [] = []
trim_left (c ∷ s) = let rest = trim_left s in if is_space c then rest else c ∷ s

-- `strings.TrimSpace`.
unfoldable pub trim_space : Str → Str
unfolding trim_left
trim_space s = reverse (trim_left (reverse (trim_left s)))

-- `strings.Cut` at one byte: the text before its first occurrence, and the text after it if any.
unfoldable pub cut : ℕ → Str → Str × Option Str
cut sep [] = ([], none)
cut sep (c ∷ s) =
    let (before, after) = cut sep s in if c == sep then ([], some s) else (c ∷ before, after)

-- `strings.Split` at one byte: one part more than there are separators.
unfoldable pub split_from : ℕ → Str → Str → List Str
split_from sep part [] = part ∷ []
split_from sep part (c ∷ s) =
    let closed = part ∷ split_from sep [] s in
    let longer = split_from sep (part ++ c ∷ []) s in if c == sep then closed else longer

unfoldable pub split : ℕ → Str → List Str
unfolding split_from
split sep s = split_from sep [] s

-- A cut at the last occurrence, if there is one: what `strings.LastIndex` and two slices give.
unfoldable pub cut_last : ℕ → Str → Option (Str × Str)
cut_last sep [] = none
cut_last sep (c ∷ s) = elim (cut_last sep s) [
  | some (before, after) ↦ some (c ∷ before, after)
  | none ↦ if c == sep then some ([], s) else none
]

abbrev pub part_and : Str × Option Str → (Str → List Str) → List Str
part_and (part, none) more = part ∷ []
part_and (part, some rest) more = part ∷ more rest

-- `strings.SplitN`: at most n parts, for a positive n.
unfoldable pub split_n : ℕ → ℕ → Str → List Str
split_n sep zero s = []
split_n sep (suc zero) s = s ∷ []
split_n sep (suc (suc n)) s = part_and (cut sep s) (split_n sep (suc n))

-- Whether a byte occurs: `strings.IndexByte` is not negative.
abbrev pub occurs : ℕ → Str → Bool
occurs b [] = false
occurs b (c ∷ s) = c == b || occurs b s

-- The last element of a path without a slash at its end.
abbrev pub base_name : Str → Str
base_name p = elim (cut_last b'/' p) [ none ↦ p | some (dir, name) ↦ name ]

-- `path.Ext`.
unfoldable pub path_ext : Str → Str
unfolding cut_last
path_ext p = elim (cut_last b'.' (base_name p)) [ none ↦ [] | some (stem, e) ↦ b'.' ∷ e ]
