-- ===== src/Session.antt =====
-- ee/session/session.go: the account and its token version in a session cookie. The cookie's
-- attributes are left out, and the version is not negative.
use sitebin_io.Base.{
  ℕ, ◌+◌, ◌*◌, ◌^◌, ◌<◌, ◌≡◌, refl, ap, ◌∙◌, Bool, true, false, ◌∷◌, ◌++◌, Option, none, some, ltb,
  if◌then◌else◌, Str, codes,
}
use sitebin_io.Base.Int.{ℤ, pos}
use sitebin_io.Text.{cut_last}
use sitebin_io.Text.Cuts.{cut_last-append}
use sitebin_io.Decimal.{itoa, atoi, atoi-itoa, occurs-itoa}
use sitebin_io.Token.{Base64, Hmac, TokenSigner, unix, second, sign, parse}
use sitebin_io.Token.Genuine.{parse-sign}

abbrev pub default_ttl : ℕ
default_ttl = 7 * 24 * 3600 * second

abbrev pub session_signer : Str → TokenSigner
session_signer secret = record { secret = secret; purpose = codes "session" }

abbrev pub session_subject : Str → ℕ → Str
session_subject account version = account ++ b'|' ∷ itoa version

abbrev pub with_version : Str → Option ℤ → Option (Str × ℤ)
with_version account none = none
with_version account (some version) = some (account, version)

abbrev pub versioned : Option (Str × Str) → Option (Str × ℤ)
versioned none = none
versioned (some (account, version)) = with_version account (atoi version)

unfoldable pub session_of : Option Str → Option (Str × ℤ)
session_of none = none
session_of (some subject) = versioned (cut_last b'|' subject)

module _ (b : Base64) (hmac : Hmac) (secret : Str) (ttl : ℕ) where
  -- The value of `Cookie`.
  unfoldable pub cookie : Str → ℕ → ℕ → Str
  cookie account version now =
      sign b hmac (session_signer secret) (session_subject account version) now ttl

-- The second half of `Validate`, on the cookie's value.
unfoldable pub parse_session : Base64 → Hmac → Str → Str → ℕ → Option (Str × ℤ)
unfolding session_of
parse_session b hmac secret token now = session_of (parse b hmac (session_signer secret) token now)

session_of_subject :
    (account : Str) (version : ℕ)
    → version < 2 ^ 63
    → session_of (some (session_subject account version)) ≡ some (account, pos version)
unfolding session_of
session_of_subject account version fits =
    ap versioned (cut_last-append b'|' account (itoa version) (occurs-itoa b'|' version refl))
    ∙ ap (with_version account) (atoi-itoa version fits)

session_if :
    (t : Bool) (subject : Str) (r : Option (Str × ℤ))
    → session_of (some subject) ≡ r
    → session_of (if t then some subject else none) ≡ (if t then r else none)
unfolding session_of
session_if true subject r h = h
session_if false subject r h = refl

-- A session cookie gives the account and the version that it was issued for, whatever bytes the
-- account's id has, until it expires, and nothing from then on.
parse_session-cookie :
    (b : Base64) (hmac : Hmac) (secret account : Str) (version now ttl at : ℕ)
    → version < 2 ^ 63
    → unix (now + ttl) < 2 ^ 63
    → parse_session b hmac secret (cookie b hmac secret ttl account version now) at
      ≡ (if ltb (unix at) (unix (now + ttl)) then some (account, pos version) else none)
unfolding parse_session cookie
parse_session-cookie b hmac secret account version now ttl at small fits =
    ap session_of
      (parse-sign b hmac (session_signer secret) (session_subject account version) now ttl at fits)
    ∙ session_if (ltb (unix at) (unix (now + ttl))) (session_subject account version)
        (some (account, pos version)) (session_of_subject account version small)
