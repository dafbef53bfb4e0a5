-- ===== src/Tests/Tokens.antt =====
-- Tokens, cookies and links with stand-ins for base64 and for the MAC, and a licence key.
use sitebin_io.Base.{
  ◌≡◌, ◌≢◌, ◌+◌, ◌-◌, ◌*◌, ◌^◌, ◌<◌, ℕ, zero, suc, refl, Bool, true, false, ◌&&◌, not, List, [],
  ◌∷◌, ◌++◌, Option, none, some, if◌then◌else◌, ltb, Str, str_eq, codes, Result, ok, err, arith,
  bad_plan, bad_cert_sig,
}
use sitebin_io.Text.{occurs}
use sitebin_io.Token.{Base64, Hmac, TokenSigner, second, unix, sign, parse}
use sitebin_io.Token.Genuine.{Genuine, parse-sign, parse-Genuine}
use sitebin_io.Licence.{CertPayload, LicensePayload, License}
use sitebin_io.Licence.Key.{KeyFormat, verify_key}
use sitebin_io.Licence.Key.Genuine.{Chain, verify_key-Chain}

-- Every byte moved out of the way of the dot.
abbrev encode : Str → Str
encode [] = []
encode (c ∷ s) = (c + 100) ∷ encode s

abbrev with_byte : ℕ → Option Str → Option Str
with_byte c none = none
with_byte c (some s) = some (c ∷ s)

abbrev decode : Str → Option Str
decode [] = some []
decode (c ∷ s) = if ltb c 100 then none else with_byte (c - 100) (decode s)

decode_encode : (s : Str) → decode (encode s) ≡ some s
decode_encode [] = refl
decode_encode (c ∷ s) = ground (arith, decode_encode s)

encode_no_dot : (s : Str) → occurs b'.' (encode s) ≡ false
encode_no_dot [] = refl
encode_no_dot (c ∷ s) = ground (arith, encode_no_dot s)

abbrev shifted : Base64
shifted = record {
  encode = encode;
  decode = decode;
  decode-encode = decode_encode;
  no_dot = encode_no_dot;
}

abbrev joined : Hmac
joined secret m = secret ++ m

abbrev weak : Hmac
weak secret m = []

abbrev signer : TokenSigner
signer = record { secret = codes "k"; purpose = codes "edit" }

abbrev token : Str
token = sign shifted joined signer (codes "a|b") (5 * second) (10 * second)

parse-sign_example : parse shifted joined signer token (14 * second) ≡ (
    if ltb (unix (14 * second)) (unix (5 * second + 10 * second)) then some (codes "a|b") else none)
parse-sign_example =
    parse-sign shifted joined signer (codes "a|b") (5 * second) (10 * second) (14 * second)
      (omega arith)

accepted : parse shifted joined signer token (14 * second) ≡ some (codes "a|b")
unfolding parse sitebin_io.Text.cut sign sitebin_io.Decimal.itoa str_eq sitebin_io.Text.cut_last
    sitebin_io.Decimal.atoi
accepted = refl

too_late : parse shifted joined signer token (15 * second) ≡ none
unfolding parse sitebin_io.Text.cut sign sitebin_io.Decimal.itoa str_eq sitebin_io.Text.cut_last
    sitebin_io.Decimal.atoi
too_late = refl

parse-Genuine_example : Genuine shifted joined signer token (codes "a|b") (14 * second)
parse-Genuine_example =
    parse-Genuine shifted joined signer token (codes "a|b") (14 * second) accepted

abbrev purposed : Str → TokenSigner
purposed p = record { secret = codes "k"; purpose = p }

-- A MAC that tells no messages apart.
accepted_elsewhere :
    parse shifted weak
      (purposed (codes "view"))
      (sign shifted weak (purposed (codes "edit")) (codes "s") 0 second)
      0
    ≡ some (codes "s")
unfolding parse sitebin_io.Text.cut sign sitebin_io.Decimal.itoa str_eq sitebin_io.Text.cut_last
    sitebin_io.Decimal.atoi
accepted_elsewhere = refl

refused_elsewhere :
    parse shifted joined
      (purposed (codes "view"))
      (sign shifted joined (purposed (codes "edit")) (codes "s") 0 second)
      0
    ≡ none
unfolding parse sitebin_io.Text.cut sign sitebin_io.Decimal.itoa str_eq
refused_elsewhere = refl

edit_view : codes "edit" ≢ codes "view"
edit_view h = ground (arith, h)

abbrev times : ℕ → ℕ → Str
times zero c = []
times (suc n) c = c ∷ times n c

abbrev root_key : Str
root_key = times 32 b'r'

abbrev app_key : Str
app_key = times 32 b'a'

abbrev cert : CertPayload
cert = record { app_id = codes "sitebin"; pub_key = app_key; issued_at = 1; expires_at = 100 }

abbrev licence : LicensePayload
licence = record {
  app_id = codes "sitebin";
  holder = codes "acc";
  plan = codes "team";
  issued_at = 1;
  expires_at = 50;
  grace_until = 0;
  max_custom_domains = 3;
}

-- Nothing is encoded, and a signature is the key twice.
abbrev format : KeyFormat
format = record {
  decode = λ s. some s;
  alphabets = (λ s. some s) ∷ [];
  signed = λ key text sig. str_eq sig (key ++ key);
  read_cert = λ s. if str_eq s (codes "c") then some cert else none;
  read_licence = λ s. if str_eq s (codes "l") then some licence else none;
}

abbrev licence_key : Str
licence_key = codes " c." ++ times 64 b'r' ++ codes ".l." ++ times 64 b'a'

verified :
    verify_key format licence_key (root_key ∷ []) (codes "sitebin") 60
    ≡ ok (record { cert = cert; lic = licence })
unfolding verify_key sitebin_io.Licence.Key.segments sitebin_io.Text.split
    sitebin_io.Text.trim_space sitebin_io.Licence.Key.verify_cert str_eq
    sitebin_io.Licence.Key.verify_licence sitebin_io.Licence.Key.decode_key sitebin_io.Base.contains
verified = refl

untrusted : verify_key format licence_key (app_key ∷ []) (codes "sitebin") 60 ≡ err bad_cert_sig
unfolding verify_key sitebin_io.Licence.Key.segments sitebin_io.Text.split
    sitebin_io.Text.trim_space sitebin_io.Licence.Key.verify_cert str_eq
untrusted = refl

verify_key-Chain_example :
    Chain format licence_key
      (root_key ∷ [])
      (codes "sitebin")
      60
      (record { cert = cert; lic = licence })
verify_key-Chain_example =
    verify_key-Chain format licence_key (root_key ∷ []) (codes "sitebin") 60
      (record { cert = cert; lic = licence }) verified
