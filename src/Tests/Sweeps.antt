-- ===== src/Tests/Sweeps.antt =====
-- The sweep over domains, the vouchers of a host and the zones, on small inputs.
use sitebin_io.Base.{
  ◌≡◌, ◌≢◌, ◌↔◌, ℕ, ◌+◌, ◌*◌, ◌≤◌, refl, true, false, inl, inr, List, [], ◌∷◌, Option, none, some,
  Str, codes, find, contains, Result, ok, err, arith,
}
use sitebin_io.Meta.{Meta, DomainClaim}
use sitebin_io.Domains.{attach_domain, stamp_claim, failing}
use sitebin_io.HostShare.{dependents, HostAddress, HostVouch, vouch_for}
use sitebin_io.HostShare.Vouchers.{AmongVouchers, vouch_for-healthy}
use sitebin_io.Sweep.{
  hour, revoke_after, Answers, refused, unanswered, done, detach, keep, stamp, fate, fresh,
  verified_fate, World, reconcile_domains,
}
use sitebin_io.Sweep.Fates.{MustGo, fate-MustGo}
use sitebin_io.Sweep.Window.{Absence, checked_all, checked_all-detach}
use sitebin_io.Zones.{Zone, Zones, claim_zone, record_zone_check, new_claim, promoted}
use sitebin_io.Zones.Apart.{IsSeparate}
use sitebin_io.Text.{to_lower}
use sitebin_io.DomainName.{host_of}
use sitebin_io.Zones.Lookup.{account_zone_for}
use sitebin_io.Zones.Lookup.Names.{lies_in}
use sitebin_io.Zones.Lookup.Scan.{account_zone_for-scan}
use sitebin_io.Zones.Gate.{refuse_foreign_zone, Allowed, refuse_foreign_zone-Allowed}
use sitebin_io.Zones.Separate.{ZoneReach, ZoneStep, ZoneReach-IsSeparate}
use sitebin_io.Samples.{plain, www, bare}

abbrev nobody_holds : HostVouch
nobody_holds = record { healthy = false; failing_since = none }

abbrev gone_answers : Answers
gone_answers = record {
  other_site = false;
  other_owner = false;
  other_zone = false;
  vouch = nobody_holds;
  lookup = refused (codes "no record");
  attached = done;
  token = codes "t";
}

-- Its proof is gone since the first hour.
abbrev failing_claim : DomainClaim
failing_claim = record {
  domain = www;
  token = codes "t";
  requested_at = 0;
  verified_at = some 0;
  checked_at = some (1 * hour);
  failing_since = some (1 * hour);
  check_result = [];
  via_host = false;
}

goes : fate (100 * hour) gone_answers failing_claim ≡ detach
unfolding fate sitebin_io.HostShare.earliest
goes = refl

-- The window is not over.
waits : fate (50 * hour) gone_answers failing_claim ≡ stamp (failing (1 * hour) (codes "no record"))
unfolding fate sitebin_io.HostShare.earliest
waits = refl

-- A lookup that failed decides nothing.
unknown :
    fate (100 * hour) (record gone_answers { lookup = unanswered (codes "timeout") }) failing_claim
    ≡ keep
unfolding fate
unknown = refl

fate-MustGo_example :
    (fate (100 * hour) gone_answers failing_claim ≡ detach)
    ↔ MustGo (100 * hour) gone_answers failing_claim
fate-MustGo_example = fate-MustGo (100 * hour) gone_answers failing_claim

abbrev absence : ℕ → Absence
absence at = record { at = at; vouch = nobody_holds; found = codes "no record"; nobody = refl }

abbrev later_claim : DomainClaim
later_claim = stamp_claim (30 * hour) (failing (1 * hour) (codes "no record")) failing_claim

survived :
    checked_all (absence (10 * hour) ∷ absence (30 * hour) ∷ []) (some failing_claim)
    ≡ some later_claim
unfolding checked_all verified_fate sitebin_io.Sweep.absent_fate sitebin_io.Sweep.window_fate
    sitebin_io.HostShare.earliest
survived = refl

checked_all-detach_example :
    verified_fate (73 * hour) nobody_holds (refused (codes "no record")) later_claim ≡ detach
checked_all-detach_example =
    checked_all-detach (1 * hour) (absence (10 * hour) ∷ absence (30 * hour) ∷ [])
      (absence (73 * hour)) failing_claim later_claim refl survived refl (omega arith)

abbrev held_by : Str → Str → HostAddress
held_by addr owner = record {
  addr = addr;
  view_id = codes "v";
  owner = owner;
  claim = some (record failing_claim { domain = addr; failing_since = none });
}

vouch_for-healthy_example :
    ((vouch_for
        (codes "acc")
        www
        (held_by www (codes "acc") ∷ held_by bare (codes "acc") ∷ [])).healthy
      ≡ true)
    ↔ ((codes "acc" ≢ [])
        × AmongVouchers
            (codes "acc")
            www
            (held_by www (codes "acc") ∷ held_by bare (codes "acc") ∷ []))
vouch_for-healthy_example =
    vouch_for-healthy (codes "acc") www
      (held_by www (codes "acc") ∷ held_by bare (codes "acc") ∷ [])

vouched :
    (vouch_for
      (codes "acc")
      www
      (held_by www (codes "acc") ∷ held_by bare (codes "acc") ∷ [])).healthy
    ≡ true
unfolding vouch_for sitebin_io.Base.str_eq
vouched = refl

-- Only the address itself.
not_vouched :
    (vouch_for
      (codes "acc")
      www
      (held_by www (codes "acc") ∷ held_by bare (codes "other") ∷ [])).healthy
    ≡ false
unfolding vouch_for sitebin_io.Base.str_eq
not_vouched = refl

abbrev zone_a : Zone
zone_a = promoted 5 (new_claim (codes "a.de") (codes "acc") (codes "t") 3)

abbrev one_zone : Zones
one_zone = record { held = zone_a ∷ []; pending = [] }

abbrev claim_b : Zone
claim_b = new_claim (codes "b.de") (codes "other") (codes "u") 7

abbrev two_zones : Zones
two_zones = record { held = zone_a ∷ []; pending = claim_b ∷ [] }

claimed :
    claim_zone [] (codes "other") (codes "*.B.de") (codes "u") 7 2 one_zone
    ≡ ok (claim_b, true, two_zones)
unfolding claim_zone sitebin_io.Base.str_eq sitebin_io.Zones.zone_name
    sitebin_io.DomainName.normalize_domain sitebin_io.Text.trim_prefix sitebin_io.Zones.record_claim
    sitebin_io.Zones.all_zones sitebin_io.DomainName.overlaps sitebin_io.Zones.write_pending
claimed = refl

-- Inside a zone that another account holds.
inside :
    claim_zone [] (codes "other") (codes "x.a.de") (codes "u") 7 2 one_zone
    ≡ err sitebin_io.Base.bad_domain
unfolding claim_zone sitebin_io.Base.str_eq sitebin_io.Zones.zone_name
    sitebin_io.DomainName.normalize_domain sitebin_io.Text.trim_prefix sitebin_io.Zones.record_claim
    sitebin_io.Zones.all_zones sitebin_io.DomainName.overlaps
inside = refl

one-IsSeparate : IsSeparate one_zone
one-IsSeparate = record { verified = (refl, tt); apart = (refl, tt) }

ZoneReach-IsSeparate_example :
    IsSeparate (record_zone_check (codes "b.de") (codes "other") true [] 9 two_zones).1
ZoneReach-IsSeparate_example = ZoneReach-IsSeparate one-IsSeparate (
    ZoneReach.then_step
      (ZoneReach.then_step ZoneReach.start (
        ZoneStep.claim [] (codes "other") (codes "*.B.de") (codes "u") 7 2 claim_b true two_zones
          claimed))
      (ZoneStep.check (codes "b.de") (codes "other") true [] 9))

-- The bare domain is held through the host, by the proof of www.
abbrev through_www : HostAddress
through_www = record {
  addr = bare;
  view_id = codes "w";
  owner = codes "acc";
  claim = some (record failing_claim { domain = bare; failing_since = none; via_host = true });
}

depends :
    contains bare (
      dependents
        (codes "acc")
        (held_by www (codes "acc")).claim
        www
        (held_by www (codes "acc") ∷ through_www ∷ []))
    ≡ true
unfolding contains dependents sitebin_io.Base.str_eq sitebin_io.Tags.sort_tags
depends = refl

account_zone_for-scan_example :
    account_zone_for (codes "X.y.A.de/shop") one_zone
    ≡ find (λ o. lies_in (to_lower (host_of (codes "X.y.A.de/shop"))) o.zone) one_zone.held
account_zone_for-scan_example =
    account_zone_for-scan (codes "X.y.A.de/shop") one_zone one-IsSeparate (refl, tt)

walked : account_zone_for (codes "X.y.A.de/shop") one_zone ≡ some zone_a
unfolding account_zone_for to_lower host_of sitebin_io.Base.str_eq
walked = refl

abbrev owned_here : Meta
owned_here = record plain { owner_account_id = codes "acc" }

passes :
    (refuse_foreign_zone (ok tt) owned_here (codes "x.a.de") 9 (ok 1) 5 [] one_zone).0 ≡ ok true
unfolding refuse_foreign_zone account_zone_for to_lower host_of sitebin_io.Base.str_eq contains
    sitebin_io.Domains.has_claim sitebin_io.Zones.zone_name_allowed
passes = refl

foreign :
    (refuse_foreign_zone
      (ok tt)
      (record plain { owner_account_id = codes "other" })
      (codes "x.a.de")
      9
      (ok 1)
      5
      []
      one_zone).0
    ≡ err sitebin_io.Base.bad_domain
unfolding refuse_foreign_zone account_zone_for to_lower host_of sitebin_io.Base.str_eq
foreign = refl

refuse_foreign_zone-Allowed_example :
    Allowed owned_here true
      (find (λ o. lies_in (to_lower (host_of (codes "x.a.de"))) o.zone) one_zone.held)
refuse_foreign_zone-Allowed_example =
    refuse_foreign_zone-Allowed (ok tt) owned_here (codes "x.a.de") 9 (ok 1) 5 [] one_zone true
      one-IsSeparate (refl, tt) passes
