-- ===== src/Retention.antt =====
-- internal/store/retention.go: when the sweep purges a locked site. A retention is a duration in
-- nanoseconds, which may be negative; the sum of a time and a duration is not bounded.
pub mod Purge
use sitebin_io.Base.{
  ℕ, suc, zero, ◌+◌, Bool, true, false, not, ◌&&◌, List, Option, none, some, if◌then◌else◌, ltb,
  Str, is_some, Error, not_due, Result, ok, err, require,
}
use sitebin_io.Base.Int.{ℤ, pos, negsuc}
use sitebin_io.Meta.{Meta, Time, SiteLock}
use sitebin_io.Store.{Site, Disk, Index, delete_checked, readable}

-- `SetLockRetention`: what is stored.
unfoldable pub set_lock_retention : ℤ → ℤ
set_lock_retention (pos n) = pos n
set_lock_retention (negsuc n) = pos 0

unfoldable pub lock_retention_ends : Option SiteLock → ℤ → Option Time
lock_retention_ends none r = none
lock_retention_ends (some l) (negsuc n) = none
lock_retention_ends (some l) (pos zero) = none
lock_retention_ends (some l) (pos (suc n)) = some (l.at + suc n)

abbrev pub has_hold : Option SiteLock → Bool
has_hold none = false
has_hold (some l) = is_some l.hold

unfoldable pub lock_purge_at : Option SiteLock → ℤ → Option Time
unfolding lock_retention_ends
lock_purge_at l r = if has_hold l then none else lock_retention_ends l r

-- `lockPurgeDue`: strictly after the end.
unfoldable pub lock_purge_due : Option SiteLock → ℤ → Time → Bool
unfolding lock_purge_at
lock_purge_due l r now = elim (lock_purge_at l r) [ none ↦ false | some at ↦ ltb at now ]

-- The check of `PurgeLocked`, on the meta read under the site lock.
unfoldable pub purge_check : ℤ → Time → Option Meta → Result (Unit {0})
unfolding lock_purge_due
purge_check r now none = err not_due
purge_check r now (some m) = require (lock_purge_due m.locked r now) not_due

abbrev pub purge_answer : Result (Unit {0}) → Result Bool
purge_answer (ok _) = ok true
purge_answer (err not_due) = ok false
purge_answer (err e) = err e

-- `PurgeLocked`: whether the site was purged, its folder and the indexes. The report to the purge
-- hook is left out.
unfoldable pub purge_locked : ℤ → Time → Option Disk → Site → Index → Result Bool × Disk × Index
unfolding delete_checked purge_check
purge_locked r now left site index =
    let (answer, disk, index') = delete_checked (purge_check r now) left site index in
    (purge_answer answer, disk, index')
