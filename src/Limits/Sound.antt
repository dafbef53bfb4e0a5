-- ===== src/Limits/Sound.antt =====
-- A check without a failed line: everything fits, and everything was answered.
use sitebin_io.Base.{
  ℕ, zero, suc, ◌+◌, ◌≤◌, ◌≡◌, refl, ap, ◌∙◌, ◌⊎◌, inl, inr, true, Bool-cases, List, [], ◌∷◌, ◌++◌,
  arith, leb, ◌==◌, leb→le, Str, length, no_sizes, ok, >>=-eq-ok, require,
}
use sitebin_io.Limits.{
  sharing_label, Label, SiteInfo, Tier, CheckLine, Answers, failed_lines, cap_line, moving,
  lines_of_site, site_label, storage_label, files_label, domains_label, forms_label, read_infos,
  sites_lines, incoming, services_lines, site_lines, cap_lines, limits_check,
}

-- Within a cap of which 0 is none.
abbrev pub Within : ℕ → ℕ → Type 0
Within cap n = (cap ≡ 0) ⊎ (n ≤ cap)

-- A site within the caps on one site: its size was answered.
pub record SiteFits (w : Answers) (t : Tier) (id : Str) (i : SiteInfo) : Type 0 where
  pub bytes : ℕ
  pub files : ℕ
  pub measured : w.size id ≡ ok (bytes, files)
  pub bytes_fit : Within t.max_site_bytes bytes
  pub files_fit : Within t.max_files files
  pub domains_fit : moving (w.stays id i.owner) i.domains ≤ t.custom_domains
  pub forms_fit : i.forms ≤ t.max_forms

abbrev pub AllFit : Answers → Tier → List (Str × SiteInfo) → Type 0
AllFit w t [] = Unit
AllFit w t ((id, i) ∷ more) = SiteFits w t id i × AllFit w t more

-- The sites that the account owns, with those that are added.
abbrev pub SitesFit : Answers → Tier → ℕ → Type 0
SitesFit w t added =
    (t.max_sites ≡ 0) ⊎ ((owned : ℕ) × (w.owned ≡ ok owned) × (owned + added ≤ t.max_sites))

abbrev pub ServicesFit : Answers → Tier → ℕ → Type 0
ServicesFit w t added =
    (added ≡ 0) ⊎ ((n : ℕ) × (w.running ≡ ok n) × (n + added ≤ t.max_containers))

-- The sites fit the plan together and one by one.
pub record Fits (w : Answers) (infos : List (Str × SiteInfo)) (view_ids : List Str) : Type 0 where
  pub tier : Tier
  pub read : List (Str × SiteInfo)
  pub added : ℕ
  pub has_plan : w.tier ≡ ok tier
  pub are_read : read_infos w infos view_ids ≡ ok read
  pub sites_fit : SitesFit w tier (length view_ids)
  pub are_counted : incoming w view_ids ≡ ok added
  pub services_fit : ServicesFit w tier added
  pub each_fits : AllFit w tier read

failed_lines-append :
    (xs ys : List CheckLine)
    → failed_lines (xs ++ ys) ≡ []
    → (failed_lines xs ≡ []) × (failed_lines ys ≡ [])
unfolding failed_lines
failed_lines-append [] ys h = (refl, h)
failed_lines-append (x ∷ xs) ys h = elim (Bool-cases x.fits) [
  | inl e ↦
      (let rest = failed_lines-append xs ys (ground (arith, e)) in
        (ground (arith, e, rest.0), rest.1))
  | inr e ↦ absurd (ground (arith, e))
]

failed_lines-cons :
    (x : CheckLine) (xs : List CheckLine)
    → failed_lines (x ∷ xs) ≡ []
    → (x.fits ≡ true) × (failed_lines xs ≡ [])
unfolding failed_lines
failed_lines-cons x xs h = elim (Bool-cases x.fits) [
  | inl e ↦ (e, ground (arith, e))
  | inr e ↦ absurd (ground (arith, e))
]

cap_line-Within :
    (cap n : ℕ) (label : Label) (site : Str)
    → failed_lines (cap_line cap n label site) ≡ []
    → Within cap n
cap_line-Within zero n label site h = inl refl
cap_line-Within (suc cap) n label site h = inr (
    leb→le n (suc cap)
      (failed_lines-cons (record { fits = leb n (suc cap); label = label; site = site }) [] h).0)

lines_of_site-SiteFits :
    (w : Answers) (t : Tier) (id : Str) (i : SiteInfo) (bytes files : ℕ)
    → w.size id ≡ ok (bytes, files)
    → failed_lines (lines_of_site t i (w.stays id i.owner) (bytes, files)) ≡ []
    → SiteFits w t id i
lines_of_site-SiteFits w t id i bytes files e h =
    let domain_line : CheckLine = record {
      fits = leb (moving (w.stays id i.owner) i.domains) t.custom_domains;
      label = domains_label;
      site = site_label i;
    } in
    let form_line : CheckLine = record {
      fits = leb i.forms t.max_forms;
      label = forms_label;
      site = site_label i;
    } in
    let file_lines = cap_line t.max_files files files_label (site_label i) in
    let (h1, h2) =
      failed_lines-append (cap_line t.max_site_bytes bytes storage_label (site_label i))
        (file_lines ++ domain_line ∷ form_line ∷ []) h in
    let (h3, h4) = failed_lines-append file_lines (domain_line ∷ form_line ∷ []) h2 in
    let (h5, h6) = failed_lines-cons domain_line (form_line ∷ []) h4 in
    let (h7, _) = failed_lines-cons form_line [] h6 in
    record {
      bytes = bytes;
      files = files;
      measured = e;
      bytes_fit = cap_line-Within t.max_site_bytes bytes storage_label (site_label i) h1;
      files_fit = cap_line-Within t.max_files files files_label (site_label i) h3;
      domains_fit = leb→le (moving (w.stays id i.owner) i.domains) t.custom_domains h5;
      forms_fit = leb→le i.forms t.max_forms h7;
    }

site_lines-AllFit :
    (w : Answers) (t : Tier) (read : List (Str × SiteInfo)) (lines : List CheckLine)
    → site_lines w t read ≡ ok lines
    → failed_lines lines ≡ []
    → AllFit w t read
unfolding site_lines
site_lines-AllFit w t [] lines e h = tt
site_lines-AllFit w t ((id, i) ∷ more) lines e h =
    let ((bytes, files), measured, e1) = >>=-eq-ok (w.size id) _ e in
    let (rest, each, e2) = >>=-eq-ok (site_lines w t more) _ e1 in
    let here = lines_of_site t i (w.stays id i.owner) (bytes, files) in
    let same : here ++ rest ≡ lines = ground (arith, e2) in
    let (h1, h2) = failed_lines-append here rest (ap failed_lines same ∙ h) in
    (
      lines_of_site-SiteFits w t id i bytes files measured h1,
      site_lines-AllFit w t more rest each h2,
    )

sites_lines-SitesFit :
    (w : Answers) (t : Tier) (added : ℕ) (lines : List CheckLine)
    → sites_lines w t added ≡ ok lines
    → failed_lines lines ≡ []
    → SitesFit w t added
unfolding sites_lines failed_lines
sites_lines-SitesFit w t added lines e h = elim (Bool-cases (t.max_sites == 0)) [
  | inl z ↦ inl (ground (arith, z))
  | inr z ↦
      let (owned, known, e1) = >>=-eq-ok w.owned _ (rw z at e) in
      inr (owned, known, ground (arith, e1, h))
]

services_lines-ServicesFit :
    (w : Answers) (t : Tier) (added : ℕ) (lines : List CheckLine)
    → services_lines w t added ≡ ok lines
    → failed_lines lines ≡ []
    → ServicesFit w t added
unfolding services_lines failed_lines
services_lines-ServicesFit w t added lines e h = elim (Bool-cases (added == 0)) [
  | inl z ↦ inl (ground (arith, z))
  | inr z ↦
      let (n, known, e1) = >>=-eq-ok w.running _ (rw z at e) in
      inr (n, known, ground (arith, e1, h))
]

cap_lines-Fits :
    (w : Answers) (infos : List (Str × SiteInfo)) (view_ids : List Str) (lines : List CheckLine)
    → cap_lines w infos view_ids ≡ ok lines
    → failed_lines lines ≡ []
    → Fits w infos view_ids
unfolding cap_lines
cap_lines-Fits w infos view_ids lines e h =
    let (t, has_plan, e1) = >>=-eq-ok w.tier _ e in
    let (read, are_read, e2) = >>=-eq-ok (read_infos w infos view_ids) _ e1 in
    let (of_sites, s, e3) = >>=-eq-ok (sites_lines w t (length view_ids)) _ e2 in
    let (added, are_counted, e4) = >>=-eq-ok (incoming w view_ids) _ e3 in
    let (of_services, v, e5) = >>=-eq-ok (services_lines w t added) _ e4 in
    let (_, _, e6) = >>=-eq-ok (require w.can_size no_sizes) _ e5 in
    let (each, a, e7) = >>=-eq-ok (site_lines w t read) _ e6 in
    let same : of_sites ++ (of_services ++ each) ≡ lines = ground (arith, e7) in
    let (h1, h2) = failed_lines-append of_sites (of_services ++ each) (ap failed_lines same ∙ h) in
    let (h3, h4) = failed_lines-append of_services each h2 in
    record {
      tier = t;
      read = read;
      added = added;
      has_plan = has_plan;
      are_read = are_read;
      sites_fit = sites_lines-SitesFit w t (length view_ids) of_sites s h1;
      are_counted = are_counted;
      services_fit = services_lines-ServicesFit w t added of_services v h3;
      each_fits = site_lines-AllFit w t read each a h4;
    }

-- A check that answers no failed line, on an instance with plans: the plan takes sites over, every
-- figure that matters was answered, and the sites fit the plan together with what the account has,
-- and one by one.
pub limits_check-Fits :
    (w : Answers) (infos : List (Str × SiteInfo)) (view_ids : List Str) (lines : List CheckLine)
    → limits_check w true infos view_ids ≡ ok lines
    → failed_lines lines ≡ []
    → (w.sharing_allowed ≡ ok true) × Fits w infos view_ids
unfolding limits_check
limits_check-Fits w infos view_ids lines e h =
    let (allowed, known, e1) = >>=-eq-ok w.sharing_allowed _ e in
    let (more, caps, e2) = >>=-eq-ok (cap_lines w infos view_ids) _ e1 in
    let first : CheckLine = record { fits = allowed; label = sharing_label; site = [] } in
    let same : first ∷ more ≡ lines = ground (arith, e2) in
    let (allows, rest) = failed_lines-cons first more (ap failed_lines same ∙ h) in
    (known ∙ ap ok allows, cap_lines-Fits w infos view_ids more caps rest)
