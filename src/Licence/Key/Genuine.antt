-- ===== src/Licence/Key/Genuine.antt =====
-- What a licence key that verifies guarantees: a chain of signatures from a root of the build.
use sitebin_io.Base.{
  ℕ, ◌≡◌, refl, sym, ap, subst, ◌∙◌, ◌⊎◌, inl, inr, Bool-cases, Bool, true, false, ◌||◌, List, [],
  ◌∷◌, Option, none, some, arith, leb, ◌==◌, Str, str_eq, str_eq_iff, contains, any, Error,
  bad_cert_sig, cert_expired, bad_lic_sig, bad_app_id, bad_plan, no_roots, ok, >>=-eq-ok, require,
}
use sitebin_io.Meta.{Time}
use sitebin_io.Text.{split, trim_space}
use sitebin_io.Licence.{CertPayload, License, cert_live, usable}
use sitebin_io.Licence.Key.{
  KeyFormat, Segments, segments, some_root, or_malformed, sized, signature_size, decode_key,
  enterprise_plans, verify_cert, verify_licence, verify_key,
}

-- Some root signed the segment.
abbrev pub RootSigned : (Str → Str → Str → Bool) → List Str → Str → Str → Type 0
RootSigned signed [] segment sig = ⊥
RootSigned signed (r ∷ rs) segment sig =
    (signed r segment sig ≡ true) ⊎ RootSigned signed rs segment sig

-- The chain behind a licence: the key is four segments; the third was signed by the key that the
-- certificate names, and the first, which is the certificate, by a root.
pub record Chain (f : KeyFormat) (key : Str) (roots : List Str) (app_id : Str) (now : Time)
    (l : License) : Type 0 where
  pub cert_segment : Str
  pub cert_sig_segment : Str
  pub lic_segment : Str
  pub lic_sig_segment : Str
  pub cert_raw : Str
  pub cert_sig : Str
  pub lic_raw : Str
  pub lic_sig : Str
  pub app_key : Str
  pub in_key :
      split b'.' (trim_space key)
      ≡ cert_segment ∷ cert_sig_segment ∷ lic_segment ∷ lic_sig_segment ∷ []
  pub cert_decoded : f.decode cert_segment ≡ some cert_raw
  pub cert_sig_decoded : f.decode cert_sig_segment ≡ some cert_sig
  pub lic_decoded : f.decode lic_segment ≡ some lic_raw
  pub lic_sig_decoded : f.decode lic_sig_segment ≡ some lic_sig
  pub root_signed : RootSigned f.signed roots cert_segment cert_sig
  pub is_cert : f.read_cert cert_raw ≡ some l.cert
  pub names_key : decode_key f.alphabets l.cert.pub_key ≡ some app_key
  pub app_signed : f.signed app_key lic_segment lic_sig ≡ true
  pub is_licence : f.read_licence lic_raw ≡ some l.lic
  pub same_app : l.lic.app_id ≡ l.cert.app_id
  pub this_app : l.lic.app_id ≡ app_id
  pub plan_sold : contains l.lic.plan enterprise_plans ≡ true
  pub in_force : usable (some l) now ≡ some l

any-RootSigned :
    (signed : Str → Str → Str → Bool) (roots : List Str) (segment sig : Str)
    → any (λ root. signed root segment sig) roots ≡ true
    → RootSigned signed roots segment sig
any-RootSigned signed [] segment sig h = absurd (ground arith)
any-RootSigned signed (r ∷ rs) segment sig h = elim (Bool-cases (signed r segment sig)) [
  | inl e ↦ inl e
  | inr e ↦ inr (any-RootSigned signed rs segment sig (ground (arith, e)))
]

require-true : (b : Bool) (why : Error) → require b why ≡ ok tt → b ≡ true
require-true false why h = absurd (ground arith)
require-true true why h = refl

or_malformed-some : {A : Type 0} (o : Option A) (a : A) → or_malformed o ≡ ok a → o ≡ some a
or_malformed-some none a h = absurd (ground arith)
or_malformed-some (some b) a h = ground arith

sized-some : (n : ℕ) (o : Option Str) (b : Str) → sized n o ≡ some b → o ≡ some b
sized-some n none b h = absurd (ground arith)
sized-some n (some c) b h = ground arith

segments-eq :
    (parts : List Str) (s : Segments)
    → segments parts ≡ ok s
    → parts ≡ s.cert ∷ s.cert_sig ∷ s.lic ∷ s.lic_sig ∷ []
unfolding segments
segments-eq [] s h = absurd (ground arith)
segments-eq (a ∷ []) s h = absurd (ground arith)
segments-eq (a ∷ b ∷ []) s h = absurd (ground arith)
segments-eq (a ∷ b ∷ c ∷ []) s h = absurd (ground arith)
segments-eq (a ∷ b ∷ c ∷ d ∷ []) s h =
    let same : record { cert = a; cert_sig = b; lic = c; lic_sig = d } ≡ s = ground (arith, h) in
    subst (λ (t : Segments). a ∷ b ∷ c ∷ d ∷ [] ≡ t.cert ∷ t.cert_sig ∷ t.lic ∷ t.lic_sig ∷ []) same
      refl
segments-eq (a ∷ b ∷ c ∷ d ∷ e ∷ more) s h = absurd (ground arith)

-- What the half of a chain that vouches for the certificate says.
record CertPart (f : KeyFormat) (roots : List Str) (now : Time) (segment raw sig : Str)
    (cert : CertPayload) : Type 0 where
  root_signed : RootSigned f.signed roots segment sig
  is_cert : f.read_cert raw ≡ some cert
  live : (cert.expires_at == 0 || leb now cert.expires_at) ≡ true

verify_cert-CertPart :
    (f : KeyFormat) (roots : List Str) (now : Time) (segment raw sig : Str) (cert : CertPayload)
    → verify_cert f roots now segment raw sig ≡ ok cert
    → CertPart f roots now segment raw sig cert
unfolding verify_cert
verify_cert-CertPart f roots now segment raw sig cert h =
    let (_, signed, h1) =
      >>=-eq-ok (require (any (λ root. f.signed root segment sig) roots) bad_cert_sig) _ h in
    let (c, read, h2) = >>=-eq-ok (or_malformed (f.read_cert raw)) _ h1 in
    let (_, live, h3) =
      >>=-eq-ok (require (c.expires_at == 0 || leb now c.expires_at) cert_expired) _ h2 in
    let same : c ≡ cert = ground (arith, h3) in
    subst (CertPart f roots now segment raw sig) same (record {
      root_signed = any-RootSigned f.signed roots segment sig (require-true _ bad_cert_sig signed);
      is_cert = or_malformed-some (f.read_cert raw) c read;
      live = require-true _ cert_expired live;
    })

usable-live :
    (l : License) (now : Time)
    → (l.cert.expires_at == 0 || leb now l.cert.expires_at) ≡ true
    → usable (some l) now ≡ some l
unfolding usable cert_live
usable-live l now h = rw h refl

record LicencePart (f : KeyFormat) (app_id : Str) (cert : CertPayload) (segment raw sig : Str)
    (l : License) : Type 0 where
  under : cert ≡ l.cert
  app_key : Str
  names_key : decode_key f.alphabets l.cert.pub_key ≡ some app_key
  app_signed : f.signed app_key segment sig ≡ true
  is_licence : f.read_licence raw ≡ some l.lic
  same_app : l.lic.app_id ≡ l.cert.app_id
  this_app : l.lic.app_id ≡ app_id
  plan_sold : contains l.lic.plan enterprise_plans ≡ true

verify_licence-LicencePart :
    (f : KeyFormat) (app_id : Str) (cert : CertPayload) (segment raw sig : Str) (l : License)
    → verify_licence f app_id cert segment raw sig ≡ ok l
    → LicencePart f app_id cert segment raw sig l
unfolding verify_licence
verify_licence-LicencePart f app_id cert segment raw sig l h =
    let (app_pub, named, h1) = >>=-eq-ok (or_malformed (decode_key f.alphabets cert.pub_key)) _ h in
    let (_, signed, h2) = >>=-eq-ok (require (f.signed app_pub segment sig) bad_lic_sig) _ h1 in
    let (lic, read, h3) = >>=-eq-ok (or_malformed (f.read_licence raw)) _ h2 in
    let (_, same_id, h4) = >>=-eq-ok (require (str_eq lic.app_id cert.app_id) bad_app_id) _ h3 in
    let (_, this_id, h5) = >>=-eq-ok (require (str_eq lic.app_id app_id) bad_app_id) _ h4 in
    let (_, sold, h6) = >>=-eq-ok (require (contains lic.plan enterprise_plans) bad_plan) _ h5 in
    let same : record { cert = cert; lic = lic } ≡ l = ground (arith, h6) in
    subst (LicencePart f app_id cert segment raw sig) same (record {
      under = refl;
      app_key = app_pub;
      names_key = or_malformed-some _ app_pub named;
      app_signed = require-true _ bad_lic_sig signed;
      is_licence = or_malformed-some _ lic read;
      same_app = (str_eq_iff lic.app_id cert.app_id).0 (require-true _ bad_app_id same_id);
      this_app = (str_eq_iff lic.app_id app_id).0 (require-true _ bad_app_id this_id);
      plan_sold = require-true _ bad_plan sold;
    })

-- A key that verifies is four segments of which the first two are a certificate that a root of the
-- build signed and that has not expired, and the other two a licence that the certificate's key signed,
-- for the certificate's app, which is this one, on a plan that is sold for self-hosting. The licence is
-- then one that the status goes by at that moment.
pub verify_key-Chain :
    (f : KeyFormat) (key : Str) (roots : List Str) (app_id : Str) (now : Time) (l : License)
    → verify_key f key roots app_id now ≡ ok l
    → Chain f key roots app_id now l
unfolding verify_key
verify_key-Chain f key roots app_id now l h =
    let (_, _, h1) = >>=-eq-ok (require (some_root roots) no_roots) _ h in
    let (s, four, h2) = >>=-eq-ok (segments (split b'.' (trim_space key))) _ h1 in
    let (cert_raw, c1, h3) = >>=-eq-ok (or_malformed (f.decode s.cert)) _ h2 in
    let (cert_sig, c2, h4) =
      >>=-eq-ok (or_malformed (sized signature_size (f.decode s.cert_sig))) _ h3 in
    let (lic_raw, c3, h5) = >>=-eq-ok (or_malformed (f.decode s.lic)) _ h4 in
    let (lic_sig, c4, h6) =
      >>=-eq-ok (or_malformed (sized signature_size (f.decode s.lic_sig))) _ h5 in
    let (cert, vouched, h7) = >>=-eq-ok (verify_cert f roots now s.cert cert_raw cert_sig) _ h6 in
    let a = verify_cert-CertPart f roots now s.cert cert_raw cert_sig cert vouched in
    let b = verify_licence-LicencePart f app_id cert s.lic lic_raw lic_sig l h7 in
    record {
      cert_segment = s.cert;
      cert_sig_segment = s.cert_sig;
      lic_segment = s.lic;
      lic_sig_segment = s.lic_sig;
      cert_raw = cert_raw;
      cert_sig = cert_sig;
      lic_raw = lic_raw;
      lic_sig = lic_sig;
      app_key = b.app_key;
      in_key = segments-eq _ s four;
      cert_decoded = or_malformed-some _ cert_raw c1;
      cert_sig_decoded = sized-some signature_size _ cert_sig (or_malformed-some _ cert_sig c2);
      lic_decoded = or_malformed-some _ lic_raw c3;
      lic_sig_decoded = sized-some signature_size _ lic_sig (or_malformed-some _ lic_sig c4);
      root_signed = a.root_signed;
      is_cert = a.is_cert ∙ ap some b.under;
      names_key = b.names_key;
      app_signed = b.app_signed;
      is_licence = b.is_licence;
      same_app = b.same_app;
      this_app = b.this_app;
      plan_sold = b.plan_sold;
      in_force = usable-live l now (
          ap (λ (c : CertPayload). c.expires_at == 0 || leb now c.expires_at) (sym b.under)
          ∙ a.live);
    }
