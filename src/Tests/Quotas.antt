-- ===== src/Tests/Quotas.antt =====
-- Expiry dates under tier changes and renewals, and the licence, on sample values.
use sitebin_io.Base.{◌≡◌, ◌⊎◌, ℕ, ◌*◌, refl, true, false, [], some, codes}
use sitebin_io.Meta.{Meta}
use sitebin_io.Store.{Site}
use sitebin_io.Expiry.{day, renew_expiry, grew, shrank}
use sitebin_io.Expiry.Renewal.{Renewal, renew_expiry-Renewed}
use sitebin_io.Licence.{Snapshot, License, status_at}
use sitebin_io.Samples.{plain, days_cap, site_of, all_written}

abbrev in_a_year : ℕ
in_a_year = 365 * day

-- A date that the owner chose, on a tier without a cap.
abbrev chosen : Meta
chosen = record plain { expires_at = some in_a_year }

shrinks : shrank 0 30 ≡ true
unfolding shrank
shrinks = refl

-- Two days after a downgrade to three days, whose grace runs for thirty.
abbrev downgraded : Meta
downgraded = record plain {
  quota = days_cap 3;
  expires_at = some (30 * day);
  expiry_from_tier = true;
}

grows : grew 3 7 ≡ true
unfolding grew
grows = refl

abbrev renewable : Site
renewable = site_of downgraded

renew_expiry-Renewed_example :
    Renewal (29 * day) all_written renewable (renew_expiry (29 * day) all_written renewable)
renew_expiry-Renewed_example = renew_expiry-Renewed (29 * day) all_written renewable refl

moves : (renew_expiry (29 * day) all_written renewable).1.cached.expires_at ≡ some (32 * day)
unfolding renew_expiry sitebin_io.Base.str_eq sitebin_io.Base.Int.add_duration
    sitebin_io.Base.Int.int64
moves = refl

abbrev licence : License
licence = record {
  cert = record { app_id = codes "sitebin"; pub_key = []; issued_at = 0; expires_at = 0 };
  lic = record {
    app_id = codes "sitebin";
    holder = codes "ACME";
    plan = codes "team";
    issued_at = 0;
    expires_at = 100;
    grace_until = 150;
    max_custom_domains = 5;
  };
}

abbrev snapshot : Snapshot
snapshot = record {
  loaded = true;
  license = some licence;
  rejected = false;
  source = codes "cache";
  trial_start = 1;
}

in_grace : (status_at snapshot 120).restricted ≡ false
unfolding status_at
in_grace = refl
