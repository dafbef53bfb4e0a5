-- ===== src/Zones.antt =====
-- internal/store/zones.go: the zones that accounts claim, prove and lose. The files of the two folders
-- are two lists, of which no order matters; every file can be read and written. What DNS answers and
-- which domains conflict are arguments. Each function is one critical section of the zones' lock.
pub mod Apart
pub mod Separate
pub mod Lookup
pub mod Gate
use sitebin_io.Base.{
  ℕ, suc, zero, ◌+◌, ◌*◌, Bool, true, false, not, ◌&&◌, ◌||◌, List, [], ◌∷◌, ◌++◌, Option, none,
  some, if◌then◌else◌, ltb, leb, Str, codes, str_eq, any, find, keep_if, is_some, length, Error,
  bad_domain, not_found, too_many_zones, Result, ok, err, ◌>>=◌, ◌>>◌, require,
}
use sitebin_io.Meta.{Time}
use sitebin_io.Text.{trim_space, trim_prefix}
use sitebin_io.DomainName.{normalize_domain, overlaps}
use sitebin_io.Sweep.{pending_claim_ttl, revoke_after, fresh}

pub record Zone : Type 0 where
  pub zone : Str
  pub account : Str
  pub token : Str
  pub requested_at : Time
  pub verified_at : Option Time
  pub checked_at : Option Time
  pub failing_since : Option Time
  pub conflicts : List Str

-- The folder of verified zones, one to a name, and that of pending claims, one to a name and account.
pub record Zones : Type 0 where
  pub held : List Zone
  pub pending : List Zone

unfoldable pub all_zones : Zones → List Zone
all_zones s = s.held ++ s.pending

abbrev pub same_claim : Str → Str → Zone → Bool
same_claim zone account z = str_eq z.zone zone && str_eq z.account account

unfoldable pub remove_held : Str → Zones → Zones
remove_held zone s = record s { held = keep_if (λ z. not (str_eq z.zone zone)) s.held }

unfoldable pub remove_pending : Str → Str → Zones → Zones
remove_pending zone account s = record s {
  pending = keep_if (λ z. not (same_claim zone account z)) s.pending;
}

-- `writeZone` of a zone that is verified, and of one that is not.
unfoldable pub write_held : Zone → Zones → Zones
unfolding remove_held
write_held z s = record s { held = z ∷ (remove_held z.zone s).held }

unfoldable pub write_pending : Zone → Zones → Zones
unfolding remove_pending
write_pending z s = record s { pending = z ∷ (remove_pending z.zone z.account s).pending }

-- The name in the request, with or without the wildcard.
unfoldable pub zone_name : Str → Result Str
zone_name zone = normalize_domain (trim_prefix (trim_space zone) (codes "*."))

-- A verified zone that a claim of this account on d may not overlap.
abbrev pub in_the_way : Str → Str → Zone → Bool
in_the_way d account o = not (same_claim d account o) && is_some o.verified_at && overlaps d o.zone

abbrev pub new_claim : Str → Str → Str → Time → Zone
new_claim d account token now = record {
  zone = d;
  account = account;
  token = token;
  requested_at = now;
  verified_at = none;
  checked_at = none;
  failing_since = none;
  conflicts = [];
}

-- The part of `ClaimZone` that runs under the lock: the account's claim or zone, whether it is new, and
-- the zones. `max` is what the plan allows.
unfoldable pub record_claim : Str → Str → Str → Time → ℕ → Zones → Result (Zone × Bool × Zones)
record_claim account d token now max s = do
  require (not (any (in_the_way d account) (all_zones s))) bad_domain
  elim (find (same_claim d account) (all_zones s)) [
    | some z ↦ ok (z, false, s)
    | none ↦
        require (ltb (length (keep_if (λ o. str_eq o.account account) (all_zones s))) max)
          too_many_zones
        >> ok (new_claim d account token now, true, write_pending (new_claim d account token now) s)
  ]

-- `ClaimZone` up to its check of the proof: `reserved` are the instance's own domains and the zones of
-- the operator.
unfoldable pub claim_zone :
    List Str → Str → Str → Str → Time → ℕ → Zones → Result (Zone × Bool × Zones)
claim_zone reserved account zone token now max s = do
  require (not (str_eq account [])) bad_domain
  d ← zone_name zone
  require (not (any (overlaps d) reserved)) bad_domain
  record_claim account d token now max s

abbrev pub checked : Time → List Str → Zone → Zone
checked now conflicts z = record z { checked_at = some now; conflicts = conflicts }

abbrev pub promoted : Time → Zone → Zone
promoted now z = record z { verified_at = some now; failing_since = none }

-- The rest of `recordZoneCheck`, on the pending claim.
unfoldable pub settle_check : Bool → Time → Zone → Zones → Option Zone × Zones
settle_check proven now z s =
    if not proven
    then (some z, write_pending z s)
    else if any (λ o. is_some o.verified_at && overlaps o.zone z.zone) (all_zones s)
    then (none, remove_pending z.zone z.account s)
    else (some (promoted now z), remove_pending z.zone z.account (write_held (promoted now z) s))

unfoldable pub check_found : Bool → List Str → Time → Zones → Option Zone → Option Zone × Zones
unfolding settle_check
check_found proven conflicts now s none = (none, s)
check_found proven conflicts now s (some z) = settle_check proven now (checked now conflicts z) s

-- `recordZoneCheck`: the zone as written, if it is there still, and the zones.
unfoldable pub record_zone_check : Str → Str → Bool → List Str → Time → Zones → Option Zone × Zones
unfolding check_found
record_zone_check zone account proven conflicts now s =
    check_found proven conflicts now s (find (same_claim zone account) s.pending)

-- The part of `ReleaseZone` under the lock, of a name in normal form.
unfoldable pub release_named : Str → Str → Zones → Result Zones
release_named account d s =
    let mine = any (same_claim d account) s.held in
    let asked = any (same_claim d account) s.pending in
    if mine || asked
    then ok (remove_pending d account (if mine then remove_held d s else s))
    else err not_found

unfoldable pub release_zone : Str → Str → Zones → Result Zones
unfolding release_named
release_zone account zone s = do d ← zone_name zone; release_named account d s

-- A verified zone after a check that was answered; none where its proof was gone for too long.
unfoldable pub recheck : Time → Bool → Zone → Option Zone
recheck now true z = some (record z { checked_at = some now; failing_since = none })
recheck now false z = elim z.failing_since [
  | none ↦ some (record z { checked_at = some now; failing_since = some now })
  | some since ↦
      if leb (since + revoke_after) now then none else some (record z { checked_at = some now })
]

abbrev pub kept_zone : Zone → Option Zone → Zones → Zones
kept_zone z none s = remove_held z.zone s
kept_zone z (some z') s = write_held z' s

abbrev pub rechecked : Time → Bool → Zones → Option Zone → Zones
rechecked now answer s none = s
rechecked now answer s (some cur) = kept_zone cur (recheck now answer cur) s

abbrev pub if_answered : Time → Zone → Zones → Option Bool → Zones
if_answered now z s none = s
if_answered now z s (some answer) =
    rechecked now answer s (find (same_claim z.zone z.account) s.held)

-- The half of `ReconcileZones` for a verified zone as it was listed, on the file read again under the
-- lock. `answer` is none where the lookup failed or nothing can answer; it is not read where the last
-- check is less than a day old.
unfoldable pub recheck_zone : Time → Option Bool → Zone → Zones → Zones
unfolding recheck
recheck_zone now answer z s = if fresh now z.checked_at then s else if_answered now z s answer

abbrev pub answered : Time → Zone → Zones → Option (Bool × List Str) → Zones
answered now z s none = s
answered now z s (some (proven, conflicts)) =
    (record_zone_check z.zone z.account proven conflicts now s).1

-- `overlapsVerified`, on the zones as they were listed.
unfoldable pub overlaps_verified : Zone → List Zone → Bool
overlaps_verified z all =
    any (λ o. is_some o.verified_at && not (str_eq o.account z.account) && overlaps o.zone z.zone)
      all

-- Its half for a pending claim, with the zones as they were listed at the start of the sweep; `answer`
-- is none where the lookup failed. Nothing is read of an answer where the claim is dropped first.
unfoldable pub reconcile_pending :
    Time → Option (Bool × List Str) → Zone → List Zone → Zones → Zones
reconcile_pending now answer z all s =
    if ltb (z.requested_at + pending_claim_ttl) now
    then remove_pending z.zone z.account s
    else if overlaps_verified z all
    then remove_pending z.zone z.account s
    else answered now z s answer

-- `zoneNameAllowed`: the adds of the last hour stay, and one more is taken while they are fewer than n.
unfoldable pub zone_name_allowed : ℕ → Time → List Time → Bool × List Time
zone_name_allowed zero now adds = (true, adds)
zone_name_allowed (suc n) now adds =
    let recent = keep_if (λ t. ltb now (t + 3600 * 1_000_000_000)) adds in
    if leb (suc n) (length recent) then (false, recent) else (true, recent ++ now ∷ [])
