-- ===== src/Scan/Decode.antt =====
-- internal/abuse/decode.go: what a browser makes of a text that hides a character behind an encoding.
-- `html.UnescapeString` is an argument. Each loop skips the bytes that it has used already.
use sitebin_io.Base.{
  ℕ, zero, suc, ◌+◌, ◌*◌, ◌/◌, ◌%◌, Bool, not, ◌&&◌, ◌||◌, [], ◌∷◌, ◌++◌, Option, none, some, leb,
  ltb, ◌==◌, if◌then◌else◌, Str, str_eq, any, length, take,
}
use sitebin_io.PktLine.{hex_value}

abbrev pub more_digits : ℕ → Option ℕ → (ℕ → Option ℕ) → Option ℕ
more_digits acc none next = none
more_digits acc (some d) next = next (acc * 16 + d)

-- `hexValue`: n digits, after those in `acc`.
unfoldable pub hex_number : ℕ → ℕ → Str → Option ℕ
hex_number acc zero s = some acc
hex_number acc (suc n) [] = none
hex_number acc (suc n) (c ∷ s) = more_digits acc (hex_value c) (λ v. hex_number v n s)

abbrev pub bytes_then : Option ℕ → Str → Str → Str
bytes_then none same other = same
bytes_then (some v) same other = v ∷ other

-- `decodePercent`, with the bytes to skip.
unfoldable pub decode_percent : ℕ → Str → Str
unfolding hex_number
decode_percent skip [] = []
decode_percent (suc skip) (c ∷ s) = decode_percent skip s
decode_percent zero (c ∷ s) =
    let same = c ∷ decode_percent 0 s in
    let used = decode_percent 2 s in
    if c == b'%' then bytes_then (hex_number 0 2 s) same used else same

-- `utf8.AppendRune`: a surrogate and what lies beyond Unicode is the replacement character.
unfoldable pub utf8 : ℕ → Str
utf8 r =
    if ltb r 128
    then r ∷ []
    else if ltb r 2048
    then (192 + r / 64) ∷ (128 + r % 64) ∷ []
    else if ltb 1_114_111 r || leb 55_296 r && leb r 57_343
    then 239 ∷ 191 ∷ 189 ∷ []
    else if ltb r 65_536
    then (224 + r / 4096) ∷ (128 + r / 64 % 64) ∷ (128 + r % 64) ∷ []
    else (240 + r / 262_144) ∷ (128 + r / 4096 % 64) ∷ (128 + r / 64 % 64) ∷ (128 + r % 64) ∷ []

-- Where a byte is, if anywhere: `bytes.IndexByte`.
unfoldable pub index_byte : ℕ → Str → Option ℕ
index_byte b [] = none
index_byte b (c ∷ s) =
    if c == b then some 0 else elim (index_byte b s) [ none ↦ none | some i ↦ some (suc i) ]

abbrev pub with_skip : ℕ → Option ℕ → Option (Str × ℕ)
with_skip n none = none
with_skip n (some v) = some (utf8 v, n)

abbrev pub braced : Str → Option ℕ → Option (Str × ℕ)
braced digits none = none
braced digits (some zero) = none
braced digits (some (suc n)) = elim (hex_number 0 (suc n) digits) [
  | none ↦ none
  | some v ↦ if leb v 1_114_111 then some (utf8 v, 4 + n) else none
]

unfoldable pub after_u : Str → Option (Str × ℕ)
after_u [] = none
after_u (c ∷ s) =
    if c == b'{'
    then (let digits = take 7 s in braced digits (index_byte b'}' digits))
    else with_skip 5 (hex_number 0 4 (c ∷ s))

-- What an escape stands for, from the byte after the backslash, and how many bytes it takes after the
-- backslash; none where it is none.
unfoldable pub js_escape : Str → Option (Str × ℕ)
unfolding hex_number utf8 index_byte after_u
js_escape [] = none
js_escape (c ∷ s) =
    if c == b'\\'
    then some (b'\\' ∷ b'\\' ∷ [], 1)
    else if c == b'x'
    then with_skip 3 (hex_number 0 2 s)
    else if c == b'u'
    then after_u s
    else none

-- `decodeJSEscapes`.
unfoldable pub decode_js : ℕ → Str → Str
unfolding js_escape
decode_js skip [] = []
decode_js (suc skip) (c ∷ s) = decode_js skip s
decode_js zero (c ∷ s) =
    if c == b'\\'
    then elim (js_escape s) [ none ↦ c ∷ decode_js 0 s | some (out, n) ↦ out ++ decode_js n s ]
    else c ∷ decode_js 0 s

abbrev pub is_ref_byte : ℕ → Bool
is_ref_byte c =
    c == b'#' || leb b'0' c && leb c b'9' || leb b'a' c && leb c b'z' || leb b'A' c && leb c b'Z'

-- The bytes of a reference after the ampersand, with the semicolon if there is one.
unfoldable pub ref_bytes : Str → Str
ref_bytes [] = []
ref_bytes (c ∷ s) =
    let rest = c ∷ ref_bytes s in if is_ref_byte c then rest else if c == b';' then c ∷ [] else []

module _ (unescape : Str → Str) where
  -- What is written for a reference: an angle bracket stays as it was.
  abbrev pub ref_out : Str → Str
  ref_out ref =
      let u = unescape ref in
      if not (str_eq u ref) && not (any (λ c. c == b'<' || c == b'>') u) then u else ref

  -- `decodeReferences`.
  unfoldable pub decode_refs : ℕ → Str → Str
  unfolding ref_bytes
  decode_refs skip [] = []
  decode_refs (suc skip) (c ∷ s) = decode_refs skip s
  decode_refs zero (c ∷ s) =
      let ref = ref_bytes s in
      if c == b'&' then ref_out (c ∷ ref) ++ decode_refs (length ref) s else c ∷ decode_refs 0 s

  -- `decode`: none where there is nothing to decode.
  unfoldable pub decode : Str → Option Str
  unfolding decode_refs decode_js decode_percent
  decode text =
      let out = decode_percent 0 (decode_js 0 (decode_refs 0 text)) in
      if not (any (λ c. c == b'&' || c == b'\\' || c == b'%') text) || str_eq out text
      then none
      else some out
