-- ===== src/Token/Genuine.antt =====
-- What a token that is accepted says, and which tokens are accepted.
use sitebin_io.Base.{
  ℕ, ◌+◌, ◌^◌, ◌<◌, ◌≡◌, refl, ap, ◌∙◌, Bool, true, false, Option, none, some, arith, ltb,
  if◌then◌else◌, Str, str_eq, str_eq_iff, str_eq_refl,
}
use sitebin_io.Base.Int.{ℤ, pos, negsuc}
use sitebin_io.Text.{cut, cut_last}
use sitebin_io.Text.Cuts.{cut-append, cut_last-append}
use sitebin_io.Decimal.{itoa, atoi, atoi-itoa, occurs-itoa}
use sitebin_io.Token.{
  Base64, Hmac, TokenSigner, unix, mac, token_payload, if_current, sign, check_payload, check_token,
  parse_halves, parse,
}

-- Whoever reads a token that was signed finds the payload and its MAC.
pub sign_halves :
    (b : Base64) (hmac : Hmac) (s q : TokenSigner) (site_id : Str) (now ttl at : ℕ)
    → parse b hmac q (sign b hmac s site_id now ttl) at
      ≡ check_token b hmac q at
          (some (token_payload site_id (unix (now + ttl))))
          (some (mac b hmac s (token_payload site_id (unix (now + ttl)))))
unfolding parse sign
sign_halves b hmac s q site_id now ttl at =
    let payload = token_payload site_id (unix (now + ttl)) in
    let sig = mac b hmac s payload in
    ap (parse_halves b hmac q at)
      (cut-append b'.' (b.encode payload) (b.encode sig) (b.no_dot payload))
    ∙ (λ i. check_token b hmac q at (b.decode-encode payload i) (b.decode-encode sig i))

payload_current :
    (site_id : Str) (exp at : ℕ)
    → exp < 2 ^ 63
    → check_payload at (cut_last b'|' (token_payload site_id exp))
      ≡ (if ltb (unix at) exp then some site_id else none)
unfolding check_payload
payload_current site_id exp at fits =
    ap (check_payload at) (cut_last-append b'|' site_id (itoa exp) (occurs-itoa b'|' exp refl))
    ∙ ap (if_current at site_id) (atoi-itoa exp fits)

-- A token that was signed gives its subject, whatever bytes that has, until it expires, and nothing
-- from then on. The expiry in seconds has to fit in 64 bits.
pub parse-sign :
    (b : Base64) (hmac : Hmac) (s : TokenSigner) (site_id : Str) (now ttl at : ℕ)
    → unix (now + ttl) < 2 ^ 63
    → parse b hmac s (sign b hmac s site_id now ttl) at
      ≡ (if ltb (unix at) (unix (now + ttl)) then some site_id else none)
unfolding check_token
parse-sign b hmac s site_id now ttl at fits =
    let payload = token_payload site_id (unix (now + ttl)) in
    sign_halves b hmac s s site_id now ttl at
    ∙ ap (λ t. if t then check_payload at (cut_last b'|' payload) else none)
        (str_eq_refl (mac b hmac s payload))
    ∙ payload_current site_id (unix (now + ttl)) at fits

-- A payload that carries the subject and a time that has not come, and the signer's MAC of it.
pub record Genuine (b : Base64) (hmac : Hmac) (s : TokenSigner) (token subject : Str) (now : ℕ)
    : Type 0 where
  pub halves : Str × Str
  pub payload : Str
  pub expiry : Str × ℕ
  pub cut_lem : cut b'.' token ≡ (halves.0, some halves.1)
  pub decoded : b.decode halves.0 ≡ some payload
  pub signed : b.decode halves.1 ≡ some (mac b hmac s payload)
  pub says : cut_last b'|' payload ≡ some (subject, expiry.0)
  pub until : atoi expiry.0 ≡ some (pos expiry.1)
  pub current : unix now < expiry.1

payload_parts :
    (now : ℕ) (o : Option (Str × Str)) (subject : Str)
    → check_payload now o ≡ some subject
    → (expiry : Str) × (exp : ℕ) × (o ≡ some (subject, expiry))
      × (atoi expiry ≡ some (pos exp))
      × (unix now < exp)
unfolding check_payload
payload_parts now none subject h = absurd (ground arith)
payload_parts now (some (s, e)) subject h = go (atoi e) refl h
  where
    go :
        (o : Option ℤ)
        → atoi e ≡ o
        → if_current now s o ≡ some subject
        → (expiry : Str) × (exp : ℕ) × (◌≡◌ {A = Option (Str × Str)}
            (some (s, e))
            (some (subject, expiry)))
          × (atoi expiry ≡ some (pos exp))
          × (unix now < exp)
    go none p k = absurd (ground arith)
    go (some (negsuc n)) p k = absurd (ground arith)
    go (some (pos n)) p k = (e, n, ground arith, p, ground arith)

guarded_some {ℓ} :
    {A : Type ℓ} {a : A} (t : Bool) (o : Option A)
    → (if t then o else none) ≡ some a
    → (t ≡ true) × (o ≡ some a)
guarded_some true o h = (refl, h)
guarded_some false o h = cc

module _ (b : Base64) (hmac : Hmac) (s : TokenSigner) (token subject : Str) (now : ℕ) where
  check_token-Genuine :
      (p64 sig64 : Str) (p sig : Option Str)
      → cut b'.' token ≡ (p64, some sig64)
      → b.decode p64 ≡ p
      → b.decode sig64 ≡ sig
      → check_token b hmac s now p sig ≡ some subject
      → Genuine b hmac s token subject now
  unfolding check_token
  check_token-Genuine p64 sig64 none sig c d e h = absurd (ground arith)
  check_token-Genuine p64 sig64 (some payload) none c d e h = absurd (ground arith)
  check_token-Genuine p64 sig64 (some payload) (some m) c d e h =
      let (same, k) =
        guarded_some (str_eq m (mac b hmac s payload)) (check_payload now (cut_last b'|' payload))
          h in
      let (expiry, exp, says, until, current) =
        payload_parts now (cut_last b'|' payload) subject k in
      record {
        halves = (p64, sig64);
        payload = payload;
        expiry = (expiry, exp);
        cut_lem = c;
        decoded = d;
        signed = e ∙ ap some ((str_eq_iff m (mac b hmac s payload)).0 same);
        says = says;
        until = until;
        current = current;
      }

  halves-Genuine :
      (halves : Str × Option Str)
      → cut b'.' token ≡ halves
      → parse_halves b hmac s now halves ≡ some subject
      → Genuine b hmac s token subject now
  unfolding parse_halves
  halves-Genuine (p64, none) c h = absurd (ground arith)
  halves-Genuine (p64, some sig64) c h =
      check_token-Genuine p64 sig64 (b.decode p64) (b.decode sig64) c refl refl h

-- A token is accepted only if its first half is a payload with that subject and a time that has not
-- come, and its second half is the signer's MAC of this payload.
pub parse-Genuine :
    (b : Base64) (hmac : Hmac) (s : TokenSigner) (token subject : Str) (now : ℕ)
    → parse b hmac s token now ≡ some subject
    → Genuine b hmac s token subject now
unfolding parse
parse-Genuine b hmac s token subject now h =
    halves-Genuine b hmac s token subject now (cut b'.' token) refl h
