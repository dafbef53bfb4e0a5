-- ===== src/Limits.antt =====
-- ee/limitscheck.go: whether sites that an account takes over fit its plan. The wording of the lines is
-- left out. What the plan, the store and the containers answer is an argument; a cap or a count below
-- zero could not be taken.
pub mod Sound
use sitebin_io.Base.{
  ℕ, zero, suc, ◌+◌, Bool, true, false, not, ◌&&◌, ◌||◌, List, [], ◌∷◌, ◌++◌, Option, none, some,
  if◌then◌else◌, leb, ◌==◌, Str, codes, str_eq, lookup, contains, length, keep_if, Error, site_gone,
  no_sizes, Result, ok, err, ◌>>=◌, ◌>>◌, require,
}

-- The part of `ext.SiteInfo` that is read.
pub record SiteInfo : Type 0 where
  pub view_id : Str
  pub name : Str
  pub view_url : Str
  pub owner : Str
  pub domains : List Str
  pub forms : ℕ

-- The caps of a plan; 0 is no cap for the first three.
pub record Tier : Type 0 where
  pub max_sites : ℕ
  pub max_site_bytes : ℕ
  pub max_files : ℕ
  pub max_containers : ℕ
  pub custom_domains : ℕ
  pub max_forms : ℕ

-- `Label`.
pub data Label : Type 0 where
  sharing_label sites_label services_label storage_label files_label domains_label forms_label :
      Label

-- `checkLine`; a line about the whole set has no site.
pub record CheckLine : Type 0 where
  pub fits : Bool
  pub label : Label
  pub site : Str

-- What the check asks: whether the plan shares, the plan, a site, how many sites and running services
-- the account has, the running services of a site (0 where it does not count), its size in bytes and
-- files, and which domains of it do not move. `can_size` is whether sizes can be asked for at all.
pub record Answers : Type 0 where
  pub sharing_allowed : Result Bool
  pub tier : Result Tier
  pub info : Str → Option SiteInfo
  pub owned : Result ℕ
  pub services_of_site : Str → Result ℕ
  pub running : Result ℕ
  pub can_size : Bool
  pub size : Str → Result (ℕ × ℕ)
  pub stays : Str → Str → List Str

unfoldable pub failed_lines : List CheckLine → List CheckLine
failed_lines lines = keep_if (λ l. not l.fits) lines

-- `siteLabel`.
unfoldable pub site_label : SiteInfo → Str
site_label i =
    if not (str_eq i.name []) && not (str_eq i.view_url [])
    then i.name ++ codes " (" ++ i.view_url ++ codes ")"
    else if not (str_eq i.name [])
    then i.name
    else if not (str_eq i.view_url [])
    then i.view_url
    else i.view_id

abbrev pub info_or_gone : Option SiteInfo → Option SiteInfo → Result SiteInfo
info_or_gone (some i) o = ok i
info_or_gone none (some i) = ok i
info_or_gone none none = err site_gone

-- A cap of 0 gives no line.
abbrev pub cap_line : ℕ → ℕ → Label → Str → List CheckLine
cap_line zero n label site = []
cap_line (suc cap) n label site = record { fits = leb n (suc cap); label = label; site = site } ∷ []

-- The domains that move with the site.
unfoldable pub moving : List Str → List Str → ℕ
moving stays domains = length (keep_if (λ d. not (contains d stays)) domains)

abbrev pub lines_of_site : Tier → SiteInfo → List Str → ℕ × ℕ → List CheckLine
lines_of_site t i stays (bytes, files_of) =
    cap_line t.max_site_bytes bytes storage_label (site_label i)
    ++ (cap_line t.max_files files_of files_label (site_label i)
        ++ record {
          fits = leb (moving stays i.domains) t.custom_domains;
          label = domains_label;
          site = site_label i;
        }
          ∷ record { fits = leb i.forms t.max_forms; label = forms_label; site = site_label i }
          ∷ [])

module _ (w : Answers) where
  unfoldable pub read_infos : List (Str × SiteInfo) → List Str → Result (List (Str × SiteInfo))
  read_infos infos [] = ok []
  read_infos infos (id ∷ more) = info_or_gone (lookup id infos) (w.info id) >>= λ i.
      read_infos infos more >>= λ rest. ok ((id, i) ∷ rest)

  unfoldable pub sites_lines : Tier → ℕ → Result (List CheckLine)
  sites_lines t added =
      if t.max_sites == 0
      then ok []
      else (w.owned >>= λ owned.
          ok (
            record { fits = leb (owned + added) t.max_sites; label = sites_label; site = [] } ∷ []))

  -- The running services that the sites bring along.
  unfoldable pub incoming : List Str → Result ℕ
  incoming [] = ok 0
  incoming (id ∷ more) = w.services_of_site id >>= λ n. incoming more >>= λ rest. ok (n + rest)

  -- What the account runs is not asked for where nothing comes in.
  unfoldable pub services_lines : Tier → ℕ → Result (List CheckLine)
  services_lines t added =
      if added == 0
      then ok []
      else (w.running >>= λ running. ok (
          record {
            fits = leb (running + added) t.max_containers;
            label = services_label;
            site = [];
          }
          ∷ []))

  unfoldable pub site_lines : Tier → List (Str × SiteInfo) → Result (List CheckLine)
  site_lines t [] = ok []
  site_lines t ((id, i) ∷ more) = w.size id >>= λ size.
      site_lines t more >>= λ rest. ok (lines_of_site t i (w.stays id i.owner) size ++ rest)

  -- The part with a plan's caps.
  unfoldable pub cap_lines : List (Str × SiteInfo) → List Str → Result (List CheckLine)
  unfolding read_infos sites_lines incoming services_lines site_lines
  cap_lines infos ids = do
    t ← w.tier
    read ← read_infos infos ids
    of_sites ← sites_lines t (length ids)
    added ← incoming ids
    of_services ← services_lines t added
    require w.can_size no_sizes
    each ← site_lines t read
    ok (of_sites ++ (of_services ++ each))

  -- `limitsCheckWith`; `tiers` is whether the instance has plans.
  unfoldable pub limits_check : Bool → List (Str × SiteInfo) → List Str → Result (List CheckLine)
  unfolding cap_lines
  limits_check tiers infos ids = do
    allowed ← w.sharing_allowed
    more ← if tiers then cap_lines infos ids else ok []
    ok (record { fits = allowed; label = sharing_label; site = [] } ∷ more)
