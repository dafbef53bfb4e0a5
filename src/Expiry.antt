-- ===== src/Expiry.antt =====
-- internal/store/expiry.go: the sliding renewal of a site's expiry and the tier change. The product
-- of a count of days and 24 hours is a 64-bit duration and wraps as Go's does.
pub mod Quota
pub mod Renewal
use sitebin_io.Base.{
  ℕ, ◌+◌, ◌*◌, Bool, true, false, not, ◌&&◌, ◌||◌, Option, none, some, if◌then◌else◌, ltb, leb,
  ◌==◌, str_eq, [], is_some, not_found, read_failed, write_failed, Result, ok, err,
}
use sitebin_io.Base.Int.{int64, add_duration}
use sitebin_io.Meta
use sitebin_io.Meta.{Meta, Time}
use sitebin_io.Store.{
  WriteEnds, commit, Site, Disk, missing, unreadable, stored, read_meta, update, stamp,
}

abbrev pub second : ℕ
second = 1_000_000_000

abbrev pub renew_grace : ℕ
renew_grace = 60 * second

abbrev pub day : ℕ
day = 24 * 3600 * second

-- `DowngradeGrace`.
abbrev pub downgrade_grace : ℕ
downgrade_grace = 30 * day

-- now + days * 24h.
unfoldable pub after_days : Time → ℕ → Time
after_days now days = add_duration now (int64 (days * day))

-- Whether the expiry of a site with these settings slides at all.
unfoldable pub slides : Meta → Bool
slides m =
    not (str_eq m.owner_account_id [])
    && ltb 0 m.quota.expiry_days
    && is_some m.expires_at
    && m.expiry_from_tier

-- Whether the stored expiry lies far enough before the one recomputed.
unfoldable pub worth_renewing : Time → Option Time → Bool
worth_renewing want none = false
worth_renewing want (some e) = leb (e + renew_grace) want

abbrev pub renewed : Time → Time → Meta → Meta
renewed now want m = record m { expires_at = some want; updated_at = now }

-- The write of a renewal, on what reading meta.json gave.
unfoldable pub write_renewal :
    Time → Time → WriteEnds → Result Meta → Site → Result (Unit {0}) × Site
unfolding commit
write_renewal now want ends (err e) site = (err e, site)
write_renewal now want ends (ok m) site = commit ends (renewed now want m) site

-- `renewExpiryLocked`: it decides on the cached meta and writes the one on the disk.
unfoldable pub renew_expiry : Time → WriteEnds → Site → Result (Unit {0}) × Site
unfolding slides worth_renewing after_days write_renewal
renew_expiry now ends site =
    let want = after_days now site.cached.quota.expiry_days in
    if slides site.cached && worth_renewing want site.cached.expires_at
    then write_renewal now want ends (read_meta site.disk) site
    else (ok tt, site)

-- The cap shrank: from unlimited to a cap, or to a smaller one.
unfoldable pub shrank : ℕ → ℕ → Bool
shrank old_days days = old_days == 0 || ltb days old_days

unfoldable pub grew : ℕ → ℕ → Bool
grew old_days days = ltb 0 old_days && ltb old_days days

-- The `switch` of `ApplyQuota`: the expiry under the new cap and whether the tier imposed it, from
-- the two before. A negative grace counts as 0.
unfoldable pub reconciled : Time → ℕ → Time → ℕ → ℕ → Option Time → Bool → Option Time × Bool
unfolding shrank grew
reconciled now grace limit old_days days none from_tier =
    if grace == 0 then (none, from_tier) else (some (now + grace), true)
reconciled now grace limit old_days days (some e) from_tier =
    if shrank old_days days && ltb limit e
    then (some limit, from_tier)
    else if grew old_days days && from_tier
    then (some limit, from_tier)
    else (some e, from_tier)

-- Without a cap only what the tier imposed is lifted.
unfoldable pub lifted : Option Time → Bool → Option Time × Bool
lifted expiry true = (none, false)
lifted expiry false = (expiry, false)

-- The closure of `ApplyQuota`.
unfoldable pub apply_quota : Time → Meta.Quota → ℕ → Meta → Meta
unfolding reconciled lifted after_days
apply_quota now q grace m =
    let (expiry, from_tier) =
      (if q.expiry_days == 0
        then lifted m.expires_at m.expiry_from_tier
        else reconciled now grace (after_days now q.expiry_days) m.quota.expiry_days q.expiry_days
            m.expires_at m.expiry_from_tier) in
    record m { quota = q; expires_at = expiry; expiry_from_tier = from_tier }

unfoldable pub set_quota : Time → WriteEnds → Meta.Quota → ℕ → Site → Result (Unit {0}) × Site
unfolding update apply_quota
set_quota now ends q grace = update now ends (λ m. ok (apply_quota now q grace m))
