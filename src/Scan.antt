-- ===== src/Scan.antt =====
-- internal/abuse/scan.go: the matching of one file as it is written, chunk by chunk. The hash of the
-- bytes is an argument of the result, and the excerpts of the matches are left out. Lower case is that
-- of ASCII.
pub mod Decode
pub mod Splits
pub mod Overlap
pub mod Matches
pub mod Finds
pub mod Verdict
pub mod Total
pub mod Kits
pub mod Blocks
use sitebin_io.Base.{
  ℕ, zero, suc, ◌+◌, ◌-◌, ◌*◌, ◌^◌, ◌≤◌, ◌<◌, Bool, true, false, not, ◌&&◌, ◌||◌, List, [], ◌∷◌,
  ◌++◌, Option, none, some, is_some, if◌then◌else◌, ◌==◌, Str, length, take, drop, keep_if,
}
use Prim.Native.Nat.{min}
use sitebin_io.Text.{to_lower, has_prefix}
use sitebin_io.Scan.Decode.{decode}

-- `chunkSize`, `overlap` and `MaxScanBytes`.
pub record Sizes : Type 0 where
  pub chunk : ℕ
  pub overlap : ℕ
  pub cap : ℕ

abbrev pub scan_sizes : Sizes
scan_sizes = record { chunk = 64 * 2 ^ 10; overlap = 4 * 2 ^ 10; cap = 8 * 2 ^ 20 }

-- `bytes.Index`.
unfoldable pub index_of : Str → Str → Option ℕ
index_of p [] = if has_prefix [] p then some 0 else none
index_of p (c ∷ s) =
    let later = index_of p s in
    if has_prefix (c ∷ s) p then some 0 else elim later [ none ↦ none | some i ↦ some (suc i) ]

-- A pattern: a text in lower case, or a regular expression, with a text that each of its matches has
-- and where it matches first.
pub data Pattern : Type 0 where
  literal : Str → Pattern
  regex : Option Str → (Str → Option (ℕ × ℕ)) → Pattern

abbrev pub has_needed : Option Str → Str → Bool
has_needed none text = true
has_needed (some p) text = is_some (index_of p text)

abbrev pub up_to : ℕ → Option ℕ → Option (ℕ × ℕ)
up_to n none = none
up_to n (some i) = some (i, i + n)

-- `pattern.find`: none where the source answers -1.
unfoldable pub find_pattern : Pattern → Str → Option (ℕ × ℕ)
unfolding index_of
find_pattern (literal p) text = up_to (length p) (index_of p text)
find_pattern (regex need first) text = if has_needed need text then first text else none

-- `Scan`, without the hash and the excerpts.
pub record Scan : Type 0 where
  pub scanned : ℕ
  pub buf : Str
  pub carry : Str
  pub found : List Bool

abbrev pub found_in : Pattern → Option Str → Bool
found_in p none = false
found_in p (some decoded) = is_some (find_pattern p (to_lower decoded))

-- The loop of `flush` over the patterns and what was found of them.
unfoldable pub match_all : List Pattern → Str → Option Str → List Bool → List Bool
match_all [] text decoded found = []
match_all (p ∷ ps) text decoded [] = []
match_all (p ∷ ps) text decoded (f ∷ found) =
    (f || is_some (find_pattern p (to_lower text)) || found_in p decoded)
    ∷ match_all ps text decoded found

-- The last n bytes, or all where there are fewer.
abbrev pub tail_of : ℕ → Str → Str
tail_of n text = drop (length text - min n (length text)) text

unfoldable pub no_matches : List Pattern → List Bool
no_matches [] = []
no_matches (p ∷ ps) = false ∷ no_matches ps

-- The bytes that are matched of what is written.
unfoldable pub strip : Str → Str
strip p = keep_if (λ c. not (c == 0)) p

module _ (sizes : Sizes) (patterns : List Pattern) (unescape : Str → Str) where
  unfoldable pub new_scan : Scan
  unfolding no_matches
  new_scan = record { scanned = 0; buf = []; carry = []; found = no_matches patterns }

  unfoldable pub match_chunk : Str → Scan → Scan
  unfolding match_all
  match_chunk text s = record {
    scanned = s.scanned + length s.buf;
    buf = [];
    carry = tail_of sizes.overlap text;
    found = match_all patterns text (decode unescape text) s.found;
  }

  unfoldable pub flush : Scan → Scan
  unfolding match_chunk
  flush s = if length s.buf == 0 then s else match_chunk (s.carry ++ s.buf) s

  abbrev pub if_full : Scan → Scan
  if_full s = if length s.buf == sizes.chunk then flush s else s

  -- The loop of `Write`, with as much fuel as there are bytes.
  unfoldable pub fill : ℕ → Str → Scan → Scan
  unfolding flush
  fill zero p s = s
  fill (suc fuel) [] s = s
  fill (suc fuel) (c ∷ p) s =
      let n = min (sizes.chunk - length s.buf) (length (c ∷ p)) in
      fill fuel (drop n (c ∷ p)) (if_full (record s { buf = s.buf ++ take n (c ∷ p) }))

  -- The part of `Write` after the zero bytes are gone.
  unfoldable pub write_text : Str → Scan → Scan
  unfolding fill
  write_text p s =
      let room = sizes.cap - s.scanned - length s.buf in
      if room == 0 then s else fill (length (take room p)) (take room p) s

  unfoldable pub write : Str → Scan → Scan
  unfolding write_text strip
  write p s = write_text (strip p) s
