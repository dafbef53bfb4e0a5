-- ===== src/Retention/Purge.antt =====
-- When the sweep purges a locked site, and what a purge leaves.
use sitebin_io.Base.{
  ℕ, zero, suc, ◌+◌, ◌<◌, ◌≡◌, refl, inl, inr, ◌⊎◌, ◌↔◌, true, false, Option, none, some, arith, ok,
  err, not_due,
}
use sitebin_io.Base.Int.{ℤ, pos}
use sitebin_io.Meta.{Meta, Time, SiteLock}
use sitebin_io.Store.{Site, Disk, missing, unreadable, stored, Index, delete_checked, readable}
use sitebin_io.Retention.{lock_retention_ends, lock_purge_due, purge_check, purge_locked}
use sitebin_io.Guard.{Trust}
use sitebin_io.Lock.Release.{LockedRun, LockedRun-at}

-- A purge is due exactly when there is a retention, no evidence hold stands and the retention is over
-- since the lock's date.
pub lock_purge_due_iff :
    (l : SiteLock) (n : ℕ) (now : Time)
    → (lock_purge_due (some l) (pos n) now ≡ true) ↔ ((l.hold ≡ none) × (0 < n) × (l.at + n < now))
unfolding lock_purge_due lock_retention_ends
lock_purge_due_iff l zero now = (λ h. ground arith, λ (a, b, c). ground arith)
lock_purge_due_iff l (suc n) now = (λ h. ground arith, λ (a, b, c). ground arith)

-- On a site that stays locked, however its lock is placed again, extended to another author or
-- reviewed, the sweep purges no earlier than the retention after the FIRST lock of the run, and no
-- later: once that time is over and no evidence hold stands, it is due.
pub LockedRun-due_iff :
    {t : Trust} {m : Meta} {l : SiteLock} {n : Meta} {k : SiteLock} (r : ℕ) (now : Time)
    → LockedRun t m l n k
    → (lock_purge_due (some k) (pos r) now ≡ true) ↔ ((k.hold ≡ none) × (0 < r) × (l.at + r < now))
LockedRun-due_iff {l} {k} r now run =
    let e = LockedRun-at run in
    (
      λ h. ground (arith, (lock_purge_due_iff k r now).0 h, e),
      λ (a, b, c). (lock_purge_due_iff k r now).1 (a, b, ground (arith, e)),
    )

-- A site whose meta.json can be read, and holds a lock that is due.
abbrev pub IsDue : ℤ → Time → Disk → Type 0
IsDue r now missing = ⊥
IsDue r now unreadable = ⊥
IsDue r now (stored m) = lock_purge_due m.locked r now ≡ true

purge_check-IsDue :
    (r : ℤ) (now : Time) (disk : Disk)
    → (purge_check r now (readable disk) ≡ ok tt) ↔ IsDue r now disk
unfolding purge_check
purge_check-IsDue r now missing = (λ h. ground arith, λ h. absurd h)
purge_check-IsDue r now unreadable = (λ h. ground arith, λ h. absurd h)
purge_check-IsDue r now (stored m) = (λ h. ground arith, λ h. ground arith)

purge_check-cases :
    (r : ℤ) (now : Time) (o : Option Meta)
    → (purge_check r now o ≡ ok tt) ⊎ (purge_check r now o ≡ err not_due)
unfolding purge_check
purge_check-cases r now none = inr refl
purge_check-cases r now (some m) = ground arith

-- A purge that can remove the folder answers true exactly when the lock read from the disk under the
-- site's own lock is due; then the folder is gone. Otherwise it answers false, and the folder and
-- the indexes are what they were.
pub record PurgesExactly (r : ℤ) (now : Time) (site : Site) (index : Index) : Type 0 where
  pub answers : (purge_locked r now none site index).0 ≡ ok true ↔ IsDue r now site.disk
  pub removes : IsDue r now site.disk → (purge_locked r now none site index).1 ≡ missing
  pub spares :
      ¬ IsDue r now site.disk → purge_locked r now none site index ≡ (ok false, site.disk, index)

pub purge_locked-PurgesExactly :
    (r : ℤ) (now : Time) (site : Site) (index : Index) → PurgesExactly r now site index
unfolding purge_locked delete_checked
purge_locked-PurgesExactly r now site index = elim (purge_check-cases r now (readable site.disk)) [
  | inl e ↦ record {
    answers = (λ _. (purge_check-IsDue r now site.disk).0 e, λ _. ground (arith, e));
    removes = λ _. ground (arith, e);
    spares = λ n. absurd (n ((purge_check-IsDue r now site.disk).0 e));
  }
  | inr e ↦ record {
    answers = (
      λ h. absurd (ground (arith, e)),
      λ d. absurd (ground (arith, e, (purge_check-IsDue r now site.disk).1 d)),
    );
    removes = λ d. absurd (ground (arith, e, (purge_check-IsDue r now site.disk).1 d));
    spares = λ n. ground (arith, e);
  }
]
