-- ===== src/Tests/Locks.antt =====
-- Locks, their release and their purge, updates and deletions on sample sites.
use sitebin_io.Base.{
  ◌≡◌, ◌≢◌, ◌↔◌, ℕ, ◌+◌, ◌<◌, refl, true, false, List, [], ◌∷◌, Option, none, some, Str, codes,
  Result, ok, err, arith, locked, write_failed,
}
use sitebin_io.Base.Int.{pos}
use sitebin_io.Meta.{Meta, SiteLock, block}
use sitebin_io.Store.{missing, unreadable, update, delete_if_owner}
use sitebin_io.Store.Atomic.{Left, update-Left}
use sitebin_io.Guard.{reviewed, Trust, ScanResult, judge, held}
use sitebin_io.Guard.Held.{MayHold, offends, judge-held}
use sitebin_io.Lock.{release_lock_meta, lock_by_account, lock_by_admin}
use sitebin_io.Lock.Clock.{act, place, ends_hold, Continues, act-Continues}
use sitebin_io.Lock.Release.{LockedRun, start, then_act, MayRelease, release_lock_meta-Released}
use sitebin_io.Retention.{lock_purge_due}
use sitebin_io.Retention.Purge.{LockedRun-due_iff, PurgesExactly, purge_locked-PurgesExactly}
use sitebin_io.Samples.{
  plain, suspension, suspended, operator_lock, evidence, site_of, index, blocking, all_written,
}

abbrev nobody : Trust
nobody = record { is_trusted = false; is_operator = λ _. false }

-- The lock that the operator's makes of a suspension: its date stays.
abbrev extended : SiteLock
extended = record { at = 100; reason = codes "court order"; by = codes "admin"; hold = none }

extends : (act nobody 500 (place operator_lock) suspended).locked ≡ some extended
unfolding act sitebin_io.Lock.set_lock_meta sitebin_io.Base.str_eq
    sitebin_io.OneLine.clean_lock_reason sitebin_io.OneLine.is_space sitebin_io.OneLine.is_control
extends = refl

act-Continues_example : Continues (ends_hold (place operator_lock)) suspension extended
act-Continues_example =
    act-Continues nobody 500 (place operator_lock) suspended suspension extended refl extends

first_lock : LockedRun nobody suspended suspension suspended suspension
first_lock = start refl

LockedRun-due_iff_example :
    (lock_purge_due (some extended) (pos 300) 450 ≡ true)
    ↔ ((extended.hold ≡ none) × (0 < 300) × (100 + 300 < 450))
LockedRun-due_iff_example =
    LockedRun-due_iff 300 450 (then_act 500 (place operator_lock) extended first_lock extends)

unsuspended : (release_lock_meta nobody lock_by_account suspended).0 ≡ true
unfolding release_lock_meta sitebin_io.Base.str_eq
unsuspended = refl

release_lock_meta-Released_example :
    (((release_lock_meta nobody lock_by_account suspended).0 ≡ true)
      ↔ MayRelease nobody lock_by_account suspended suspension)
    × (((release_lock_meta nobody lock_by_account suspended).1.locked ≡ none)
        ↔ MayRelease nobody lock_by_account suspended suspension)
release_lock_meta-Released_example =
    release_lock_meta-Released nobody lock_by_account suspended suspension refl

abbrev kept_lock : SiteLock
kept_lock = record suspension { hold = some evidence }

abbrev kept : Meta
kept = record plain { locked = some kept_lock }

-- At the end of a suspension a blocking finding keeps the site locked.
still_locked :
    (release_lock_meta nobody lock_by_account
      (record suspended { abuse = some (record { findings = blocking ∷ []; reviewed = [] }) })).0
    ≡ false
unfolding release_lock_meta sitebin_io.Base.str_eq
still_locked = refl

purge_locked-PurgesExactly_example : PurgesExactly (pos 7) 108 (site_of suspended) index
purge_locked-PurgesExactly_example =
    purge_locked-PurgesExactly (pos 7) 108 (site_of suspended) index

abbrev rename : Meta → Result Meta
rename m = ok (record m { spa_fallback = true })

update-Left_example :
    Left 77 all_written rename
      (site_of plain)
      (update 77 all_written rename (site_of plain)).0
      (update 77 all_written rename (site_of plain)).1
update-Left_example = update-Left 77 all_written rename (site_of plain)

-- A full disk: the new meta stops halfway, under the temporary name.
half_written :
    update 77
      (record all_written { temp_written = false; partial = unreadable })
      rename
      (site_of plain)
    ≡ (err write_failed, record (site_of plain) { temp = unreadable })
unfolding update
half_written = refl

deleted : (delete_if_owner (codes "acc") missing none (site_of plain) index).0 ≡ ok tt
unfolding delete_if_owner sitebin_io.Base.str_eq
deleted = refl

-- A scan of a new file with a blocking hit, on a site that is not locked.
abbrev phishing : List ScanResult
phishing =
    record {
      scanned = codes "index.html";
      hash = codes "ff";
      active = true;
      hits = record { rule = codes "phish"; severity = block; excerpt = codes "log in" } ∷ [];
    }
    ∷ []

holds_phishing : (judge nobody false 60 (codes "push") [] phishing plain).0 ≡ held
unfolding judge sitebin_io.Base.str_eq
holds_phishing = refl

judge-held_example :
    ((judge nobody false 60 (codes "push") [] phishing plain).0 ≡ held)
    ↔ MayHold nobody false plain (offends plain phishing)
judge-held_example = judge-held nobody false 60 (codes "push") [] phishing plain

-- The operator let the content pass: a scan that finds it again leaves the site online.
passes_again :
    (judge nobody false 60
      (codes "push")
      []
      phishing
      (record plain { abuse = some (record { findings = []; reviewed = codes "ff" ∷ [] }) })).0
    ≡ reviewed
unfolding judge sitebin_io.Base.str_eq sitebin_io.Base.contains
passes_again = refl
