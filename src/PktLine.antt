-- ===== src/PktLine.antt =====
-- internal/gitrepo/pktline.go: git's length-prefixed lines, and the commands of a push in them. A
-- reader is the bytes that are still to come; the copy of the raw bytes is left out.
pub mod RoundTrip
use sitebin_io.Base.{
  ℕ, zero, suc, ◌+◌, ◌-◌, ◌*◌, ◌/◌, ◌%◌, Bool, true, false, not, ◌&&◌, ◌||◌, List, [], ◌∷◌, ◌++◌,
  Option, none, some, leb, ltb, ◌==◌, if◌then◌else◌, Str, str_eq, length, take, drop, Error,
  bad_pkt, short_read, Result, ok, err, ◌>>=◌, ◌>>◌, require,
}
use sitebin_io.Text.{cut, trim_suffix, split_n}

abbrev pub max_pkt : ℕ
max_pkt = 65520

abbrev pub hex_digit : ℕ → ℕ
hex_digit d = if ltb d 10 then b'0' + d else b'a' + (d - 10)

-- `%04x` of a number that has at most four digits.
abbrev pub hex4 : ℕ → Str
hex4 n =
    hex_digit (n / 4096 % 16)
    ∷ hex_digit (n / 256 % 16)
    ∷ hex_digit (n / 16 % 16)
    ∷ hex_digit (n % 16)
    ∷ []

-- `writePkt`: what is written.
unfoldable pub write_pkt : Str → Result Str
write_pkt payload = do
  require (leb (length payload + 4) max_pkt) bad_pkt
  ok (hex4 (length payload + 4) ++ payload)

-- A hexadecimal digit of either case.
abbrev pub hex_value : ℕ → Option ℕ
hex_value c =
    if leb b'0' c && leb c b'9'
    then some (c - b'0')
    else if leb b'a' c && leb c b'f'
    then some (c - b'a' + 10)
    else if leb b'A' c && leb c b'F'
    then some (c - b'A' + 10)
    else none

abbrev pub after_digit : ℕ → Option ℕ → (ℕ → Option ℕ) → Option ℕ
after_digit acc none next = none
after_digit acc (some d) next = next (acc * 16 + d)

-- `strconv.ParseUint(_, 16, 32)` of a text of four bytes: each of them is a digit.
unfoldable pub parse_hex : ℕ → Str → Option ℕ
parse_hex acc [] = some acc
parse_hex acc (c ∷ s) = after_digit acc (hex_value c) (λ more. parse_hex more s)

-- `io.ReadFull`: n bytes and the rest, or an error where there are fewer.
unfoldable pub read_full : ℕ → Str → Result (Str × Str)
read_full n s = if leb n (length s) then ok (take n s, drop n s) else err short_read

-- A line that was read: a flush, or a payload.
pub data Pkt : Type 0 where
  flush : Pkt
  line : Str → Pkt

-- The `switch` on the length, and the read of the payload.
unfoldable pub read_payload : Str → Option ℕ → Result (Pkt × Str)
read_payload rest none = err bad_pkt
read_payload rest (some n) =
    if n == 0
    then ok (flush, rest)
    else if ltb n 4 || ltb max_pkt n
    then err bad_pkt
    else (read_full (n - 4) rest >>= λ (payload, more). ok (line payload, more))

-- `readPkt`: the line and what is still to come.
unfoldable pub read_pkt : Str → Result (Pkt × Str)
unfolding read_payload
read_pkt s = read_full 4 s >>= λ (hdr, rest). read_payload rest (parse_hex 0 hdr)

pub record RefUpdate : Type 0 where
  pub old : Str
  pub new : Str
  pub ref : Str

unfoldable pub command_of : List Str → Result RefUpdate
unfolding str_eq
command_of (old ∷ new ∷ ref ∷ []) = do
  require (length old == 40 && length new == 40 && not (str_eq ref [])) bad_pkt
  ok (record { old = old; new = new; ref = ref })
command_of _ = err bad_pkt

-- `parseCommand`.
unfoldable pub parse_command : Str → Result RefUpdate
unfolding command_of split_n cut trim_suffix
parse_command p = command_of (split_n b' ' 3 (trim_suffix ((cut 0 p).0) (10 ∷ [])))
