-- ===== src/Zones/Separate.antt =====
-- No two verified zones overlap, over every sequence of claims, checks, releases and sweeps.
use sitebin_io.Base.{
  ℕ, ◌+◌, ◌≡◌, refl, sym, subst, ap, ◌∙◌, inl, inr, Bool, true, false, not, ◌&&◌, Bool-cases, List,
  [], ◌∷◌, Option, none, some, arith, if◌then◌else◌, ltb, Str, str_eq, any, find, keep_if, is_some,
  require, bad_domain, ok, >>=-eq-ok,
}
use sitebin_io.Meta.{Time}
use sitebin_io.DomainName.{overlaps}
use sitebin_io.Sweep.{pending_claim_ttl, fresh}
use sitebin_io.Zones.{
  Zone, Zones, all_zones, same_claim, remove_held, remove_pending, write_held, write_pending,
  claim_zone, record_claim, checked, settle_check, check_found, record_zone_check, zone_name,
  rechecked, answered, if_answered, overlaps_verified, release_zone, release_named, recheck,
  kept_zone, recheck_zone, reconcile_pending,
}
use sitebin_io.Zones.Apart.{
  AllVerified, IsSeparate, any-keep_if, Apart-keep_if, AllVerified-keep_if, remove_held-IsSeparate,
  held_apart, others-Apart,
}

settle_check-IsSeparate :
    (proven : Bool) (now : Time) (z : Zone) (s : Zones)
    → IsSeparate s
    → IsSeparate (settle_check proven now z s).1
unfolding settle_check write_held write_pending
settle_check-IsSeparate false now z s i = record { verified = i.verified; apart = i.apart }
settle_check-IsSeparate true now z s i =
    elim (Bool-cases (any (λ o. is_some o.verified_at && overlaps o.zone z.zone) (all_zones s))) [
      | inl e ↦ rw e (record { verified = i.verified; apart = i.apart })
      | inr e ↦ rw e (record {
        verified = (refl, AllVerified-keep_if (λ o. not (str_eq o.zone z.zone)) s.held i.verified);
        apart = (
          any-keep_if (λ o. overlaps o.zone z.zone) (λ o. not (str_eq o.zone z.zone)) s.held
              (held_apart z.zone s.held s.pending i.verified (unfold all_zones in e)),
          Apart-keep_if (λ o. not (str_eq o.zone z.zone)) s.held i.apart,
        );
      })
    ]

check_found-IsSeparate :
    (proven : Bool) (conflicts : List Str) (now : Time) (s : Zones) (o : Option Zone)
    → IsSeparate s
    → IsSeparate (check_found proven conflicts now s o).1
unfolding check_found
check_found-IsSeparate proven conflicts now s none i = i
check_found-IsSeparate proven conflicts now s (some z) i =
    settle_check-IsSeparate proven now (checked now conflicts z) s i

record_zone_check-IsSeparate :
    (zone account : Str) (proven : Bool) (conflicts : List Str) (now : Time) (s : Zones)
    → IsSeparate s
    → IsSeparate (record_zone_check zone account proven conflicts now s).1
unfolding record_zone_check
record_zone_check-IsSeparate zone account proven conflicts now s i =
    check_found-IsSeparate proven conflicts now s (find (same_claim zone account) s.pending) i

record_claim-IsSeparate :
    (account d token : Str) (now : Time) (max : ℕ) (s : Zones) (z : Zone) (fresh : Bool)
    (s' : Zones)
    → IsSeparate s
    → record_claim account d token now max s ≡ ok (z, fresh, s')
    → IsSeparate s'
unfolding record_claim write_pending remove_pending
record_claim-IsSeparate account d token now max s z fresh s' i h =
    let same : s'.held ≡ s.held = ground arith in
    record { verified = rw same i.verified; apart = rw same i.apart }

claim_zone-IsSeparate :
    (reserved : List Str) (account zone token : Str) (now : Time) (max : ℕ) (s : Zones) (z : Zone)
    (fresh : Bool) (s' : Zones)
    → IsSeparate s
    → claim_zone reserved account zone token now max s ≡ ok (z, fresh, s')
    → IsSeparate s'
unfolding claim_zone
claim_zone-IsSeparate reserved account zone token now max s z fresh s' i h =
    let (_, _, asked) = >>=-eq-ok (require (not (str_eq account [])) bad_domain) _ h in
    let (d, _, named) = >>=-eq-ok (zone_name zone) _ asked in
    let (_, _, free) = >>=-eq-ok (require (not (any (overlaps d) reserved)) bad_domain) _ named in
    record_claim-IsSeparate account d token now max s z fresh s' i free

release_named-IsSeparate :
    (account d : Str) (s s' : Zones)
    → IsSeparate s
    → release_named account d s ≡ ok s'
    → IsSeparate s'
unfolding release_named remove_pending remove_held
release_named-IsSeparate account d s s' i h =
    elim (Bool-cases (any (same_claim d account) s.held)) [
      | inl e ↦
          let same : s'.held ≡ (remove_held d s).held = ground (arith, e) in
          let j = remove_held-IsSeparate d s i in
          record { verified = rw same j.verified; apart = rw same j.apart }
      | inr e ↦
          let same : s'.held ≡ s.held = ground (arith, e) in
          record { verified = rw same i.verified; apart = rw same i.apart }
    ]

release_zone-IsSeparate :
    (account zone : Str) (s s' : Zones)
    → IsSeparate s
    → release_zone account zone s ≡ ok s'
    → IsSeparate s'
unfolding release_zone
release_zone-IsSeparate account zone s s' i h =
    let (d, _, k) = >>=-eq-ok (zone_name zone) _ h in release_named-IsSeparate account d s s' i k

recheck-same :
    (now : Time) (answer : Bool) (z z' : Zone)
    → recheck now answer z ≡ some z'
    → (z'.zone ≡ z.zone) × (z'.verified_at ≡ z.verified_at)
unfolding recheck
recheck-same now true z z' h = ground arith
recheck-same now false z z' h = ground arith

AllVerified-find :
    (q : Zone → Bool) (z : Zone) (zs : List Zone)
    → AllVerified zs
    → find q zs ≡ some z
    → is_some z.verified_at ≡ true
AllVerified-find q z [] v h = absurd (ground arith)
AllVerified-find q z (x ∷ zs) (n, v) h = elim (Bool-cases (q x)) [
  | inl e ↦
      let same : x ≡ z = ground (arith, e) in
      subst (λ (o : Zone). is_some o.verified_at ≡ true) same n
  | inr e ↦ AllVerified-find q z zs v (rw e at h)
]

kept_zone-IsSeparate :
    (q : Zone → Bool) (now : Time) (answer : Bool) (cur : Zone) (s : Zones)
    → IsSeparate s
    → find q s.held ≡ some cur
    → IsSeparate (kept_zone cur (recheck now answer cur) s)
kept_zone-IsSeparate q now answer cur s i f = go (recheck now answer cur) refl
  where
    go : (o : Option Zone) → recheck now answer cur ≡ o → IsSeparate (kept_zone cur o s)
    go none e = remove_held-IsSeparate cur.zone s i
    go (some z) e =
        let (same, still) = recheck-same now answer cur z e in
        let was = AllVerified-find q cur s.held i.verified f in
        unfold write_held in
        record {
          verified = (
            ap is_some still ∙ was,
            AllVerified-keep_if (λ o. not (str_eq o.zone z.zone)) s.held i.verified,
          );
          apart = (
            subst
                (λ d.
                  any (λ o. overlaps o.zone d) (keep_if (λ o. not (str_eq o.zone d)) s.held)
                  ≡ false)
                (sym same) (others-Apart q cur s.held i.apart f),
            Apart-keep_if (λ o. not (str_eq o.zone z.zone)) s.held i.apart,
          );
        }

rechecked-IsSeparate :
    (q : Zone → Bool) (now : Time) (answer : Bool) (s : Zones) (o : Option Zone)
    → IsSeparate s
    → find q s.held ≡ o
    → IsSeparate (rechecked now answer s o)
rechecked-IsSeparate q now answer s none i f = i
rechecked-IsSeparate q now answer s (some cur) i f = kept_zone-IsSeparate q now answer cur s i f

if_answered-IsSeparate :
    (now : Time) (z : Zone) (s : Zones) (answer : Option Bool)
    → IsSeparate s
    → IsSeparate (if_answered now z s answer)
if_answered-IsSeparate now z s none i = i
if_answered-IsSeparate now z s (some answer) i =
    rechecked-IsSeparate (same_claim z.zone z.account) now answer s _ i refl

guarded : (b : Bool) {x y : Zones} → IsSeparate x → IsSeparate y → IsSeparate (if b then x else y)
guarded true h k = h
guarded false h k = k

remove_pending-IsSeparate :
    (zone account : Str) (s : Zones) → IsSeparate s → IsSeparate (remove_pending zone account s)
unfolding remove_pending
remove_pending-IsSeparate zone account s i = record { verified = i.verified; apart = i.apart }

answered-IsSeparate :
    (now : Time) (z : Zone) (s : Zones) (answer : Option (Bool × List Str))
    → IsSeparate s
    → IsSeparate (answered now z s answer)
answered-IsSeparate now z s none i = i
answered-IsSeparate now z s (some (proven, conflicts)) i =
    record_zone_check-IsSeparate z.zone z.account proven conflicts now s i

reconcile_pending-IsSeparate :
    (now : Time) (answer : Option (Bool × List Str)) (z : Zone) (all : List Zone) (s : Zones)
    → IsSeparate s
    → IsSeparate (reconcile_pending now answer z all s)
unfolding reconcile_pending
reconcile_pending-IsSeparate now answer z all s i =
    let removed = remove_pending-IsSeparate z.zone z.account s i in
    guarded (ltb (z.requested_at + pending_claim_ttl) now) removed
      (guarded (overlaps_verified z all) removed (answered-IsSeparate now z s answer i))

-- One critical section on the zones: by an account, by a check that came back, or by the sweep.
pub data ZoneStep (s : Zones) : Zones → Type 0 where
  claim :
      (reserved : List Str) (account zone token : Str) (now : Time) (max : ℕ) (z : Zone)
      (fresh : Bool) (s' : Zones)
      → claim_zone reserved account zone token now max s ≡ ok (z, fresh, s')
      → ZoneStep s s'
  check :
      (zone account : Str) (proven : Bool) (conflicts : List Str) (now : Time)
      → ZoneStep s (record_zone_check zone account proven conflicts now s).1
  release : (account zone : Str) (s' : Zones) → release_zone account zone s ≡ ok s' → ZoneStep s s'
  recheck_held :
      (now : Time) (answer : Option Bool) (z : Zone) → ZoneStep s (recheck_zone now answer z s)
  recheck_pending :
      (now : Time) (answer : Option (Bool × List Str)) (z : Zone) (all : List Zone)
      → ZoneStep s (reconcile_pending now answer z all s)

pub data ZoneReach (s : Zones) : Zones → Type 0 where
  start : ZoneReach s s
  then_step : {t u : Zones} → ZoneReach s t → ZoneStep t u → ZoneReach s u

ZoneStep-IsSeparate : {s s' : Zones} → ZoneStep s s' → IsSeparate s → IsSeparate s'
unfolding recheck_zone
ZoneStep-IsSeparate {s} (claim reserved account zone token now max z fresh s' h) i =
    claim_zone-IsSeparate reserved account zone token now max s z fresh s' i h
ZoneStep-IsSeparate {s} (check zone account proven conflicts now) i =
    record_zone_check-IsSeparate zone account proven conflicts now s i
ZoneStep-IsSeparate {s} (release account zone s' h) i =
    release_zone-IsSeparate account zone s s' i h
ZoneStep-IsSeparate {s} (recheck_held now answer z) i =
    guarded (fresh now z.checked_at) i (if_answered-IsSeparate now z s answer i)
ZoneStep-IsSeparate {s} (recheck_pending now answer z all) i =
    reconcile_pending-IsSeparate now answer z all s i

-- Where the verified zones do not overlap at the start, they never do, however claims, checks that come
-- back late, releases and sweeps of all accounts follow one another.
pub ZoneReach-IsSeparate : {s t : Zones} → IsSeparate s → ZoneReach s t → IsSeparate t
ZoneReach-IsSeparate i start = i
ZoneReach-IsSeparate i (then_step r st) = ZoneStep-IsSeparate st (ZoneReach-IsSeparate i r)
