-- ===== src/FormLinks.antt =====
-- internal/forms/links.go: the two links in a mail to a form's recipient.
use sitebin_io.Base.{
  ℕ, ◌+◌, ◌*◌, ◌^◌, ◌<◌, ◌≡◌, refl, ap, ◌∙◌, Bool, true, false, List, [], ◌∷◌, ◌++◌, Option, none,
  some, ltb, if◌then◌else◌, Str, codes,
}
use sitebin_io.Base.Int.{ℤ, pos}
use sitebin_io.Text.{split_n, occurs}
use sitebin_io.Text.Cuts.{split_n-append}
use sitebin_io.Decimal.{itoa, atoi, atoi-itoa, occurs-itoa}
use sitebin_io.Token.{Base64, Hmac, TokenSigner, unix, second, sign, parse}
use sitebin_io.Token.Genuine.{parse-sign}

abbrev pub confirm_ttl : ℕ
confirm_ttl = 7 * 24 * 3600 * second

abbrev pub stop_ttl : ℕ
stop_ttl = 100 * 365 * 24 * 3600 * second

abbrev pub confirm_signer : Str → TokenSigner
confirm_signer secret = record { secret = secret; purpose = codes "forms:confirm" }

abbrev pub stop_signer : Str → TokenSigner
stop_signer secret = record { secret = secret; purpose = codes "forms:stop" }

-- `Seq` may be any integer when a link is read.
pub record ConfirmClaim : Type 0 where
  pub view_id : Str
  pub key : Str
  pub recipient : Str
  pub seq : ℤ

pub record StopClaim : Type 0 where
  pub view_id : Str
  pub key : Str
  pub recipient : Str

abbrev pub confirm_subject : Str → Str → ℕ → Str → Str
confirm_subject view_id key seq recipient =
    view_id ++ b'|' ∷ (key ++ b'|' ∷ (itoa seq ++ b'|' ∷ recipient))

abbrev pub stop_subject : StopClaim → Str
stop_subject c = c.view_id ++ b'|' ∷ (c.key ++ b'|' ∷ c.recipient)

abbrev pub with_seq : Str → Str → Str → Option ℤ → Option ConfirmClaim
with_seq view_id key recipient none = none
with_seq view_id key recipient (some seq) =
    some (record { view_id = view_id; key = key; recipient = recipient; seq = seq })

abbrev pub confirm_parts : List Str → Option ConfirmClaim
confirm_parts (view_id ∷ key ∷ seq ∷ recipient ∷ []) = with_seq view_id key recipient (atoi seq)
confirm_parts _ = none

abbrev pub stop_parts : List Str → Option StopClaim
stop_parts (view_id ∷ key ∷ recipient ∷ []) =
    some (record { view_id = view_id; key = key; recipient = recipient })
stop_parts _ = none

unfoldable pub read_confirm : Option Str → Option ConfirmClaim
read_confirm none = none
read_confirm (some subject) = confirm_parts (split_n b'|' 4 subject)

unfoldable pub read_stop : Option Str → Option StopClaim
read_stop none = none
read_stop (some subject) = stop_parts (split_n b'|' 3 subject)

module _ (b : Base64) (hmac : Hmac) (secret : Str) where
  -- `ConfirmToken`, of a claim whose seq is a number from 0 on.
  unfoldable pub confirm_token : Str → Str → ℕ → Str → ℕ → Str
  confirm_token view_id key seq recipient now =
      sign b hmac (confirm_signer secret) (confirm_subject view_id key seq recipient) now
        confirm_ttl

  unfoldable pub parse_confirm : Str → ℕ → Option ConfirmClaim
  unfolding read_confirm
  parse_confirm token now = read_confirm (parse b hmac (confirm_signer secret) token now)

  unfoldable pub stop_token : StopClaim → ℕ → Str
  stop_token c now = sign b hmac (stop_signer secret) (stop_subject c) now stop_ttl

  unfoldable pub parse_stop : Str → ℕ → Option StopClaim
  unfolding read_stop
  parse_stop token now = read_stop (parse b hmac (stop_signer secret) token now)

read_confirm_subject :
    (view_id key recipient : Str) (seq : ℕ)
    → occurs b'|' view_id ≡ false
    → occurs b'|' key ≡ false
    → seq < 2 ^ 63
    → read_confirm (some (confirm_subject view_id key seq recipient))
      ≡ some (record { view_id = view_id; key = key; recipient = recipient; seq = pos seq })
unfolding read_confirm split_n
read_confirm_subject view_id key recipient seq no_view no_key fits =
    ap confirm_parts (
      split_n-append b'|' 2 view_id (key ++ b'|' ∷ (itoa seq ++ b'|' ∷ recipient)) no_view
      ∙ ap (λ (more : List Str). view_id ∷ more)
          (split_n-append b'|' 1 key (itoa seq ++ b'|' ∷ recipient) no_key
            ∙ ap (λ (more : List Str). key ∷ more)
                (split_n-append b'|' 0 (itoa seq) recipient (occurs-itoa b'|' seq refl))))
    ∙ ap (with_seq view_id key recipient) (atoi-itoa seq fits)

read_confirm_if :
    (t : Bool) (subject : Str) (r : Option ConfirmClaim)
    → read_confirm (some subject) ≡ r
    → read_confirm (if t then some subject else none) ≡ (if t then r else none)
unfolding read_confirm
read_confirm_if true subject r h = h
read_confirm_if false subject r h = refl

-- A confirmation link gives back its claim for a week and nothing afterwards, also where the
-- recipient's address contains the separator; the view id and the form's key do not.
parse_confirm-confirm_token :
    (b : Base64) (hmac : Hmac) (secret view_id key recipient : Str) (seq now at : ℕ)
    → occurs b'|' view_id ≡ false
    → occurs b'|' key ≡ false
    → seq < 2 ^ 63
    → unix (now + confirm_ttl) < 2 ^ 63
    → parse_confirm b hmac secret (confirm_token b hmac secret view_id key seq recipient now) at ≡ (
        if ltb (unix at) (unix (now + confirm_ttl))
        then some (record { view_id = view_id; key = key; recipient = recipient; seq = pos seq })
        else none)
unfolding parse_confirm confirm_token
parse_confirm-confirm_token b hmac secret view_id key recipient seq now at no_view no_key small
      fits =
    ap read_confirm (
      parse-sign b hmac (confirm_signer secret) (confirm_subject view_id key seq recipient) now
        confirm_ttl at fits)
    ∙ read_confirm_if (ltb (unix at) (unix (now + confirm_ttl)))
        (confirm_subject view_id key seq recipient)
        (some (record { view_id = view_id; key = key; recipient = recipient; seq = pos seq }))
        (read_confirm_subject view_id key recipient seq no_view no_key small)
