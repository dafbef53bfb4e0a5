-- ===== src/Token.antt =====
-- internal/auth/token.go: signed tokens that expire. The MAC and the base64 of the tokens are the
-- standard library's: parameters here. A time is counted in nanoseconds from 1970.
pub mod Genuine
pub mod Purpose
use sitebin_io.Base.{
  ℕ, ◌+◌, ◌/◌, Bool, true, false, List, [], ◌∷◌, ◌++◌, Option, none, some, ltb, if◌then◌else◌, Str,
  str_eq, ◌≡◌,
}
use sitebin_io.Base.Int.{ℤ, pos, negsuc}
use sitebin_io.Text.{cut, cut_last, occurs}
use sitebin_io.Decimal.{itoa, atoi}

-- Unpadded base64 for URLs: `encode` of what it decodes, and an alphabet without dots.
pub record Base64 : Type 0 where
  pub encode : Str → Str
  pub decode : Str → Option Str
  pub decode-encode : (s : Str) → decode (encode s) ≡ some s
  pub no_dot : (s : Str) → occurs b'.' (encode s) ≡ false

-- HMAC with SHA-256, of a secret and a message.
abbrev pub Hmac : Type 0
Hmac = Str → Str → Str

pub record TokenSigner : Type 0 where
  pub secret : Str
  pub purpose : Str

-- What is hashed for a payload.
abbrev pub message : TokenSigner → Str → Str
message s payload = s.purpose ++ 0 ∷ payload

abbrev pub second : ℕ
second = 1_000_000_000

-- `Unix`.
abbrev pub unix : ℕ → ℕ
unix t = t / second

abbrev pub token_payload : Str → ℕ → Str
token_payload site_id exp = site_id ++ b'|' ∷ itoa exp

-- The test of the expiry, on what stands after the last bar.
abbrev pub not_expired : ℕ → ℤ → Bool
not_expired now (pos exp) = ltb (unix now) exp
not_expired now (negsuc n) = false

abbrev pub if_current : ℕ → Str → Option ℤ → Option Str
if_current now subject none = none
if_current now subject (some exp) = if not_expired now exp then some subject else none

unfoldable pub check_payload : ℕ → Option (Str × Str) → Option Str
check_payload now none = none
check_payload now (some (subject, expiry)) = if_current now subject (atoi expiry)

module _ (b : Base64) (hmac : Hmac) where
  unfoldable pub mac : TokenSigner → Str → Str
  mac s payload = hmac s.secret (message s payload)

  unfoldable pub sign : TokenSigner → Str → ℕ → ℕ → Str
  unfolding mac
  sign s site_id now ttl =
      let payload = token_payload site_id (unix (now + ttl)) in
      b.encode payload ++ b'.' ∷ b.encode (mac s payload)

  unfoldable pub check_token : TokenSigner → ℕ → Option Str → Option Str → Option Str
  unfolding mac check_payload
  check_token s now none sig = none
  check_token s now (some payload) none = none
  check_token s now (some payload) (some sig) =
      if str_eq sig (mac s payload) then check_payload now (cut_last b'|' payload) else none

  -- The two halves of a token, around the first dot.
  unfoldable pub parse_halves : TokenSigner → ℕ → Str × Option Str → Option Str
  unfolding check_token
  parse_halves s now (p64, none) = none
  parse_halves s now (p64, some sig64) = check_token s now (b.decode p64) (b.decode sig64)

  -- `Parse`: the subject of a token that is genuine and has not expired.
  unfoldable pub parse : TokenSigner → Str → ℕ → Option Str
  unfolding parse_halves
  parse s token now = parse_halves s now (cut b'.' token)

  abbrev pub is_subject : Str → Option Str → Bool
  is_subject site_id none = false
  is_subject site_id (some subject) = str_eq subject site_id

  unfoldable pub verify : TokenSigner → Str → Str → ℕ → Bool
  unfolding parse
  verify s token site_id now = is_subject site_id (parse s token now)
