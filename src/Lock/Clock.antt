-- ===== src/Lock/Clock.antt =====
-- The clock of the lock retention, over every sequence of what locks, unlocks, holds and scans a
-- site: a continuous lock keeps its date, and an evidence hold ends only by the operator's hand.
use sitebin_io.Base.{
  ◌≡◌, inl, inr, Bool, true, false, Bool-cases, List, [], ◌∷◌, Option, none, some, Option-cases,
  arith, Str, str_eq, is_some, find, any, Result, ok, err,
}
use sitebin_io.Meta.{Meta, Time, SiteLock, LockHold, Finding}
use sitebin_io.Guard.{
  Trust, ScanResult, judge, judge_found, settle, review_meta, is_block, collect, has_hits,
}
use sitebin_io.Lock.{
  set_lock_meta, unlock_meta, release_lock_meta, release_found, set_hold_meta, unreviewed_block,
}

-- What changes a site's lock: the operator or a suspension placing one, the operator lifting it, an
-- unsuspension, an evidence hold placed or released, and the guard's verdict on a scan.
pub data Act : Type 0 where
  place : SiteLock → Act
  lift : Act
  release : Str → Act
  hold : Option LockHold → Act
  scan : Bool → Str → Str → List ScanResult → Act

abbrev kept_on_error : Meta → Result (Bool × Meta) → Meta
kept_on_error m (ok (_, m')) = m'
kept_on_error m (err e) = m

abbrev kept_unless_written : Meta → Option Meta → Meta
kept_unless_written m none = m
kept_unless_written m (some m') = m'

-- The meta that is stored after an act at a time.
unfoldable pub act : Trust → Time → Act → Meta → Meta
act t now (place l) m = (set_lock_meta now (some l) m).1
act t now lift m = (set_lock_meta now none m).1
act t now (release by) m = (release_lock_meta t by m).1
act t now (hold h) m = kept_on_error m (set_hold_meta now h m)
act t now (scan as_served source blocked results) m =
    kept_unless_written m (judge t as_served now source blocked results m).1

-- The acts that may end an evidence hold on a site that stays locked.
abbrev pub ends_hold : Act → Bool
ends_hold (hold none) = true
ends_hold _ = false

review_meta-locked : (m : Meta) → (review_meta m).1.locked ≡ m.locked
unfolding review_meta
review_meta-locked m = ground arith

settle-locked :
    (t : Trust) (as_served : Bool) (now : Time) (blocked : Str) (found : List Finding)
    (first : Option Finding) (m : Meta) (l : SiteLock)
    → m.locked ≡ some l
    → (settle t as_served now blocked found first m).1.locked ≡ some l
unfolding settle
settle-locked t as_served now blocked found none m l h = h
settle-locked t as_served now blocked found (some f) m l h = rw h (ground arith)

judge_found-locked :
    (t : Trust) (as_served : Bool) (now : Time) (blocked : Str) (found : List Finding) (m : Meta)
    (l : SiteLock)
    → m.locked ≡ some l
    → (kept_unless_written m (judge_found t as_served now blocked found m).1).locked ≡ some l
unfolding judge_found
judge_found-locked t as_served now blocked [] m l h = h
judge_found-locked t as_served now blocked (f ∷ fs) m l h =
    settle-locked t as_served now blocked (f ∷ fs) (find (λ g. is_block g.severity) (f ∷ fs)) m l h

judge-locked :
    (t : Trust) (as_served : Bool) (now : Time) (source blocked : Str) (results : List ScanResult)
    (m : Meta) (l : SiteLock)
    → m.locked ≡ some l
    → (kept_unless_written m (judge t as_served now source blocked results m).1).locked ≡ some l
unfolding judge
judge-locked t as_served now source blocked results m l h =
    elim (Bool-cases (any has_hits results)) [
      | inl e ↦
          rw (e, judge)
            (judge_found-locked t as_served now blocked (collect m.abuse source blocked now results)
              m l h)
      | inr e ↦ rw (e, judge) h
    ]

-- What a lock keeps of the one that it follows without a gap: the date, and the evidence hold unless
-- the act is the one that may end it.
pub record Continues (may_end : Bool) (l l' : SiteLock) : Type 0 where
  pub date : l'.at ≡ l.at
  pub evidence : may_end ≡ false → is_some l.hold ≡ true → l'.hold ≡ l.hold

module _ (t : Trust) (now : Time) (m : Meta) (l l' : SiteLock) (locked : m.locked ≡ some l) where
  release_found-Continues :
      (by : Str) → (release_found t l by m).1.locked ≡ some l' → Continues false l l'
  unfolding release_found unlock_meta
  release_found-Continues by h = elim (Option-cases (unreviewed_block t m)) [
    | inl e ↦ record { date = ground (arith, e); evidence = ground (arith, e) }
    | inr (f, e) ↦ record { date = ground (arith, e); evidence = ground (arith, e) }
  ]

  release-Continues :
      (by : Str) → (release_lock_meta t by m).1.locked ≡ some l' → Continues false l l'
  unfolding release_lock_meta
  release-Continues by h = elim (Bool-cases (str_eq l.by by)) [
    | inl e ↦ release_found-Continues by (rw (locked, release_lock_meta, e) at h)
    | inr e ↦ record { date = ground (arith, e); evidence = ground (arith, e) }
  ]

  place-Continues :
      (p : SiteLock) → (set_lock_meta now (some p) m).1.locked ≡ some l' → Continues false l l'
  unfolding set_lock_meta
  place-Continues p h = record { date = ground arith; evidence = ground arith }

  lift-Continues : (set_lock_meta now none m).1.locked ≡ some l' → Continues false l l'
  unfolding set_lock_meta unlock_meta
  lift-Continues h = absurd (ground (arith, review_meta-locked (unlock_meta m).1))

  hold-Continues :
      (o : Option LockHold)
      → (kept_on_error m (set_hold_meta now o m)).locked ≡ some l'
      → Continues (ends_hold (hold o)) l l'
  unfolding set_hold_meta
  hold-Continues none h = record { date = ground arith; evidence = ground arith }
  hold-Continues (some x) h = record { date = ground arith; evidence = ground arith }

-- Whatever is done to a locked site, by the operator, a suspension, its end or the guard: while the
-- site stays locked the lock keeps its date, and its evidence hold stands unless the act is the
-- operator's release of the hold. A new lock, scan or author never restarts the clock.
pub act-Continues :
    (t : Trust) (now : Time) (a : Act) (m : Meta) (l l' : SiteLock)
    → m.locked ≡ some l
    → (act t now a m).locked ≡ some l'
    → Continues (ends_hold a) l l'
unfolding act
act-Continues t now (place p) m l l' k h = place-Continues t now m l l' k p h
act-Continues t now lift m l l' k h = lift-Continues t now m l l' k h
act-Continues t now (release by) m l l' k h = release-Continues t now m l l' k by h
act-Continues t now (hold o) m l l' k h = hold-Continues t now m l l' k o h
act-Continues t now (scan as_served source blocked results) m l l' k h =
    let e = judge-locked t as_served now source blocked results m l k in
    record { date = ground (arith, e); evidence = ground (arith, e) }
