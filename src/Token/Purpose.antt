-- ===== src/Token/Purpose.antt =====
-- A token for one purpose is none for another.
use sitebin_io.Base.{ℕ, ◌+◌, ◌≡◌, ◌≢◌, sym, ◌∙◌, ◌∷◌, some, arith, Str, str_eq_iff}
use mathlib.Core.List.{append_cancel_right}
use sitebin_io.Token.{
  Base64, Hmac, TokenSigner, unix, mac, message, token_payload, sign, check_token, parse,
}
use sitebin_io.Token.Genuine.{sign_halves}

-- Two messages with the same MAC.
abbrev pub Collision : Hmac → Str → Str → Str → Type 0
Collision hmac secret m n = (m ≢ n) × (hmac secret m ≡ hmac secret n)

accepted_mac :
    (b : Base64) (hmac : Hmac) (q : TokenSigner) (at : ℕ) (payload sig subject : Str)
    → check_token b hmac q at (some payload) (some sig) ≡ some subject
    → sig ≡ mac b hmac q payload
unfolding check_token
accepted_mac b hmac q at payload sig subject h =
    (str_eq_iff sig (mac b hmac q payload)).0 (ground arith)

-- A token that was signed for one purpose and is accepted for another, with the same secret, shows
-- two messages with the same MAC: its payload under the one purpose and under the other.
parse-sign-Collision :
    (b : Base64) (hmac : Hmac) (secret p q : Str) (site_id subject : Str) (now ttl at : ℕ)
    → p ≢ q
    → parse b hmac
        (record { secret = secret; purpose = q })
        (sign b hmac (record { secret = secret; purpose = p }) site_id now ttl)
        at
      ≡ some subject
    → Collision hmac secret
        (message
          (record { secret = secret; purpose = p })
          (token_payload site_id (unix (now + ttl))))
        (message
          (record { secret = secret; purpose = q })
          (token_payload site_id (unix (now + ttl))))
unfolding mac
parse-sign-Collision b hmac secret p q site_id subject now ttl at ne h =
    let from : TokenSigner = record { secret = secret; purpose = p } in
    let to : TokenSigner = record { secret = secret; purpose = q } in
    let payload = token_payload site_id (unix (now + ttl)) in
    let sig =
      accepted_mac b hmac to at payload (mac b hmac from payload) subject
        (sym (sign_halves b hmac from to site_id now ttl at) ∙ h) in
    (λ e. ne (append_cancel_right p q (0 ∷ payload) e), sig)
