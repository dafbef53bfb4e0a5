-- ===== src/OneLine.antt =====
-- Free text made safe to store and show on one line: `CleanLockReason` of internal/store/lock.go and
-- `Clean` of internal/abuse/scan.go. Here a text is the list of its characters (Unicode code points),
-- not of its bytes; it is valid UTF-8.
use sitebin_io.Base.{
  ℕ, Bool, ◌&&◌, ◌||◌, List, [], ◌∷◌, ◌++◌, map, leb, ◌==◌, if◌then◌else◌, Str, take,
}
use mathlib.Core.List.{reverse}

-- `unicode.IsControl`.
unfoldable pub is_control : ℕ → Bool
is_control c = leb c 31 || leb 127 c && leb c 159

-- `unicode.IsSpace`.
unfoldable pub is_space : ℕ → Bool
is_space c =
    leb 9 c && leb c 13
    || c == 32
    || c == 0x85
    || c == 0xa0
    || c == 0x1680
    || leb 0x2000 c && leb c 0x200a
    || c == 0x2028
    || c == 0x2029
    || c == 0x202f
    || c == 0x205f
    || c == 0x3000

-- `strings.Fields`: the runs of characters other than spaces. `word` is the run being read.
unfoldable pub end_word : Str → List Str → List Str
end_word [] words = words
end_word (c ∷ word) words = (c ∷ word) ∷ words

unfoldable pub fields_from : Str → Str → List Str
unfolding end_word
fields_from word [] = end_word word []
fields_from word (c ∷ s) =
    let closed = end_word word (fields_from [] s) in
    let longer = fields_from (word ++ c ∷ []) s in if is_space c then closed else longer

unfoldable pub fields : Str → List Str
unfolding fields_from
fields s = fields_from [] s

-- `strings.Join(_, " ")`.
unfoldable pub join : List Str → Str
join [] = []
join (w ∷ []) = w
join (w ∷ ws) = w ++ 32 ∷ join ws

unfoldable pub trim_left : Str → Str
trim_left [] = []
trim_left (c ∷ s) = let rest = trim_left s in if is_space c then rest else c ∷ s

-- `strings.TrimSpace`.
unfoldable pub trim : Str → Str
unfolding trim_left
trim s = reverse (trim_left (reverse (trim_left s)))

abbrev pub max_lock_reason : ℕ
max_lock_reason = 200

unfoldable pub blank_control : ℕ → ℕ
blank_control c = if is_control c then 32 else c

unfoldable pub collapse : Str → Str
unfolding fields join
collapse s = join (fields s)

-- `CleanLockReason`: the cut to 200 characters takes nothing from a shorter text.
unfoldable pub clean_lock_reason : Str → Str
unfolding collapse trim blank_control
clean_lock_reason s = trim (take max_lock_reason (collapse (map blank_control s)))

abbrev pub excerpt_max : ℕ
excerpt_max = 160

unfoldable pub blank_space : ℕ → ℕ
blank_space c = if is_space c || is_control c then 32 else c

-- `abuse.Clean`, after its repair of invalid UTF-8.
unfoldable pub clean_excerpt : Str → Str
unfolding collapse blank_space
clean_excerpt s = take excerpt_max (collapse (map blank_space s))
