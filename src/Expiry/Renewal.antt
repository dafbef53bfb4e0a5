-- ===== src/Expiry/Renewal.antt =====
-- Laws of the sliding renewal.
use sitebin_io.Base.{
  ◌+◌, ◌≤◌, ◌≡◌, ◌≢◌, refl, ap, ◌<◌, ◌&&◌, inl, inr, ◌⊎◌, Bool, true, str_eq, Bool-cases, Option,
  none, some, arith, [], str_eq_iff, Result, ok,
}
use sitebin_io.Meta.{Meta, Time}
use sitebin_io.Store.{Site, WriteEnds, stored, read_meta}
use sitebin_io.Store.Atomic.{Wrote, commit-Wrote}
use sitebin_io.Expiry.{
  renewed, after_days, slides, worth_renewing, renew_expiry, write_renewal, renew_grace,
}

-- The site of an account, on a plan with a term, whose date the plan imposed, and lies at least the
-- minute of grace before the end of a term from now on.
pub record Due (now : Time) (m : Meta) : Type 0 where
  pub owned : m.owner_account_id ≢ []
  pub capped : 0 < m.quota.expiry_days
  pub imposed : m.expiry_from_tier ≡ true
  pub before : Time
  pub before_lem : m.expires_at ≡ some before
  pub later : before + renew_grace ≤ after_days now m.quota.expiry_days

abbrev pub moved : Time → Meta → Meta
moved now m = renewed now (after_days now m.quota.expiry_days) m

-- What a renewal answers and leaves: where the date is due, it writes the meta with the date moved, and
-- nothing else changed but the time of the change; else nothing happens.
abbrev pub Renewal : Time → WriteEnds → Site → Result (Unit {0}) × Site → Type 0
Renewal now ends site (r, site') =
    (Due now site.cached × Wrote ends (moved now site.cached) site r site')
    ⊎ ((¬ Due now site.cached) × (r ≡ ok tt) × (site' ≡ site))

worth_renewing-le :
    (want : Time) (o : Option Time)
    → worth_renewing want o ≡ true
    → (e : Time) × (o ≡ some e) × (e + renew_grace ≤ want)
unfolding worth_renewing
worth_renewing-le want none h = absurd (ground arith)
worth_renewing-le want (some e) h = (e, refl, ground arith)

is_due : Time → Meta → Bool
is_due now m = slides m && worth_renewing (after_days now m.quota.expiry_days) m.expires_at

is_due-Due : (now : Time) (m : Meta) → is_due now m ≡ true → Due now m
unfolding is_due slides
is_due-Due now m h =
    let (e, he, le) =
      worth_renewing-le (after_days now m.quota.expiry_days) m.expires_at (ground arith) in
    record {
      owned = λ none_owns. ground (arith, h, str_eq_iff m.owner_account_id []);
      capped = ground (arith, h);
      imposed = ground (arith, h);
      before = e;
      before_lem = he;
      later = le;
    }

Due-is_due : (now : Time) (m : Meta) → Due now m → is_due now m ≡ true
unfolding is_due slides worth_renewing
Due-is_due now m d = elim (Bool-cases (str_eq m.owner_account_id [])) [
  | inl e ↦ absurd (d.owned ((str_eq_iff m.owner_account_id []).0 e))
  | inr e ↦ ground (arith, e, d.capped, d.imposed, d.before_lem, d.later)
]

write_renewal-Wrote :
    (now : Time) (ends : WriteEnds) (site : Site) (read : Result Meta)
    → read ≡ ok site.cached
    → Wrote ends
        (moved now site.cached)
        site
        (write_renewal now (after_days now site.cached.quota.expiry_days) ends read site).0
        (write_renewal now (after_days now site.cached.quota.expiry_days) ends read site).1
unfolding write_renewal
write_renewal-Wrote now ends site read e = rw e (commit-Wrote ends (moved now site.cached) site)

-- Where the cached meta is the one on the disk, a renewal moves the date of a site to the end of a term
-- from now on exactly where the site has an owner and a term, the plan imposed the date, and the new one
-- lies at least the minute of grace beyond it; so no date moves closer, and neither an anonymous site
-- nor a date that the owner chose is touched. The meta on the disk and the cached one then differ from
-- those before in the date and the time of the change alone, unless a call of the write fails: then both
-- stay as they were.
pub renew_expiry-Renewed :
    (now : Time) (ends : WriteEnds) (site : Site)
    → site.disk ≡ stored site.cached
    → Renewal now ends site (renew_expiry now ends site)
unfolding renew_expiry is_due
renew_expiry-Renewed now ends site current = elim (Bool-cases (is_due now site.cached)) [
  | inl d ↦
      rw (d, renew_expiry, is_due)
        (inl (
          is_due-Due now site.cached d,
          write_renewal-Wrote now ends site (read_meta site.disk) (ap read_meta current),
        ))
  | inr n ↦
      rw (n, renew_expiry, is_due)
        (inr (λ d. ground (arith, n, Due-is_due now site.cached d), refl, refl))
]
