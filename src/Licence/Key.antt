-- ===== src/Licence/Key.antt =====
-- ee/licensing/licensing.go: the verification of a licence key. Base64, JSON and ed25519 are the
-- standard library's: parameters here.
pub mod Genuine
use sitebin_io.Base.{
  ℕ, Bool, true, false, not, ◌&&◌, ◌||◌, List, [], ◌∷◌, map, Option, none, some, if◌then◌else◌, leb,
  ◌==◌, Str, codes, str_eq, contains, any, length, no_roots, malformed, bad_cert_sig, cert_expired,
  bad_lic_sig, bad_app_id, bad_plan, Result, ok, err, ◌>>=◌, ◌>>◌, require,
}
use sitebin_io.Meta.{Time}
use sitebin_io.Text.{split, trim_space}
use sitebin_io.Licence.{CertPayload, LicensePayload, License}

pub record KeyFormat : Type 0 where
  -- Unpadded base64 for URLs.
  pub decode : Str → Option Str
  -- The four alphabets that `decodeKey` tries in turn.
  pub alphabets : List (Str → Option Str)
  -- `ed25519.Verify`, of a public key, a message and a signature.
  pub signed : Str → Str → Str → Bool
  -- `json.Unmarshal` of the two payloads.
  pub read_cert : Str → Option CertPayload
  pub read_licence : Str → Option LicensePayload

abbrev pub public_key_size : ℕ
public_key_size = 32

abbrev pub signature_size : ℕ
signature_size = 64

-- `EnterprisePlans`.
abbrev pub enterprise_plans : List Str
enterprise_plans = codes "team" ∷ codes "business" ∷ codes "platform" ∷ []

abbrev pub or_malformed {ℓ} : {A : Type ℓ} → Option A → Result A
or_malformed none = err malformed
or_malformed (some a) = ok a

abbrev pub sized : ℕ → Option Str → Option Str
sized n none = none
sized n (some b) = if length b == n then some b else none

-- The first alphabet that decodes the text decides, on its length too.
unfoldable pub decode_key : List (Str → Option Str) → Str → Option Str
decode_key [] s = none
decode_key (decode ∷ more) s = elim (decode s) [
  | some b ↦ sized public_key_size (some b)
  | none ↦ decode_key more s
]

abbrev pub and_root : Result (List Str) → Option Str → Result (List Str)
and_root more none = err malformed
and_root more (some b) = do roots ← more; ok (b ∷ roots)

-- The loop of `parseRoots`, on the parts of the list.
unfoldable pub parse_parts : List (Str → Option Str) → List Str → Result (List Str)
parse_parts alphabets [] = ok []
parse_parts alphabets (part ∷ more) =
    let rest = parse_parts alphabets more in
    if str_eq (trim_space part) []
    then rest
    else and_root rest (decode_key alphabets (trim_space part))

unfoldable pub parse_roots : List (Str → Option Str) → Str → Result (List Str)
unfolding parse_parts
parse_roots alphabets s = parse_parts alphabets (split b',' s)

-- The four segments of a key.
pub record Segments : Type 0 where
  pub cert : Str
  pub cert_sig : Str
  pub lic : Str
  pub lic_sig : Str

unfoldable pub segments : List Str → Result Segments
segments (a ∷ b ∷ c ∷ d ∷ []) = ok (record { cert = a; cert_sig = b; lic = c; lic_sig = d })
segments _ = err malformed

abbrev pub some_root : List Str → Bool
some_root [] = false
some_root (r ∷ rs) = true

module _ (f : KeyFormat) where
  -- The steps 2 and 3: a root signed the segment, and the certificate in it has not expired.
  unfoldable pub verify_cert : List Str → Time → Str → Str → Str → Result CertPayload
  verify_cert roots now segment raw sig = do
    require (any (λ root. f.signed root segment sig) roots) bad_cert_sig
    cert ← or_malformed (f.read_cert raw)
    require (cert.expires_at == 0 || leb now cert.expires_at) cert_expired
    ok cert

  -- The steps 4 to 6, under a certificate.
  unfoldable pub verify_licence : Str → CertPayload → Str → Str → Str → Result License
  verify_licence app_id cert segment raw sig = do
    app_pub ← or_malformed (decode_key f.alphabets cert.pub_key)
    require (f.signed app_pub segment sig) bad_lic_sig
    lic ← or_malformed (f.read_licence raw)
    require (str_eq lic.app_id cert.app_id) bad_app_id
    require (str_eq lic.app_id app_id) bad_app_id
    require (contains lic.plan enterprise_plans) bad_plan
    ok (record { cert = cert; lic = lic })

  -- `Verify`.
  unfoldable pub verify_key : Str → List Str → Str → Time → Result License
  verify_key key roots app_id now = do
    require (some_root roots) no_roots
    s ← segments (split b'.' (trim_space key))
    cert_raw ← or_malformed (f.decode s.cert)
    cert_sig ← or_malformed (sized signature_size (f.decode s.cert_sig))
    lic_raw ← or_malformed (f.decode s.lic)
    lic_sig ← or_malformed (sized signature_size (f.decode s.lic_sig))
    cert ← verify_cert roots now s.cert cert_raw cert_sig
    verify_licence app_id cert s.lic lic_raw lic_sig
