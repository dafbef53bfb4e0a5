-- ===== src/Tests/Plans.antt =====
-- The check of a plan's limits on two sites.
use sitebin_io.Base.{
  ℕ, ◌+◌, ◌≡◌, refl, true, false, List, [], ◌∷◌, some, none, Option, Str, codes, Result, ok, err,
  not_found, read_failed,
}
use sitebin_io.Limits.{
  SiteInfo, Tier, CheckLine, Answers, failed_lines, limits_check, sharing_label, sites_label,
  storage_label, domains_label, forms_label,
}
use sitebin_io.Limits.Sound.{Fits, limits_check-Fits}

abbrev shop : SiteInfo
shop = record {
  view_id = codes "v";
  name = codes "Shop";
  view_url = codes "u";
  owner = codes "acc";
  domains = codes "a.de" ∷ codes "b.de" ∷ [];
  forms = 1;
}

abbrev plan : Tier
plan = record {
  max_sites = 3;
  max_site_bytes = 100;
  max_files = 0;
  max_containers = 0;
  custom_domains = 1;
  max_forms = 1;
}

-- One of the two domains stays.
abbrev answers : Answers
answers = record {
  sharing_allowed = ok true;
  tier = ok plan;
  info = λ _. some shop;
  owned = ok 2;
  services_of_site = λ _. ok 0;
  running = err read_failed;
  can_size = true;
  size = λ _. ok (100, 7);
  stays = λ _ _. codes "b.de" ∷ [];
}

abbrev named : Str
named = codes "Shop (u)"

abbrev answered_lines : List CheckLine
answered_lines =
    record { fits = true; label = sharing_label; site = [] }
    ∷ record { fits = true; label = sites_label; site = [] }
    ∷ record { fits = true; label = storage_label; site = named }
    ∷ record { fits = true; label = domains_label; site = named }
    ∷ record { fits = true; label = forms_label; site = named }
    ∷ []

-- What the account runs is not asked for.
checked_lines : limits_check answers true [] (codes "v" ∷ []) ≡ ok answered_lines
unfolding limits_check sitebin_io.Base.lookup sitebin_io.Limits.site_label sitebin_io.Limits.moving
    sitebin_io.Base.str_eq sitebin_io.Base.contains
checked_lines = refl

-- A size that cannot be had is no passing line.
unmeasured :
    limits_check (record answers { size = λ _. err read_failed }) true [] (codes "v" ∷ [])
    ≡ err read_failed
unfolding limits_check sitebin_io.Base.lookup
unmeasured = refl

none_failed : failed_lines answered_lines ≡ []
unfolding failed_lines
none_failed = refl

limits_check-Fits_example : (answers.sharing_allowed ≡ ok true) × Fits answers [] (codes "v" ∷ [])
limits_check-Fits_example =
    limits_check-Fits answers [] (codes "v" ∷ []) answered_lines checked_lines none_failed
