-- ===== src/Lock.antt =====
-- internal/store/lock.go: the operator's lock on a site, and the evidence hold on a lock. The time is
-- an argument. Cancelling a push into a site that was locked is not modelled.
pub mod Clock
pub mod Release
use sitebin_io.Base.{
  ℕ, suc, ◌+◌, Bool, true, false, not, ◌&&◌, ◌||◌, List, [], ◌∷◌, ◌++◌, Option, none, some,
  if◌then◌else◌, ◌==◌, Str, codes, str_eq, find, is_some, not_locked, Result, ok, err,
}
use sitebin_io.OneLine.{clean_lock_reason}
use sitebin_io.Meta.{
  Meta, Time, SiteLock, LockHold, ContainerMeta, ContainerStatus, starting, Finding, AbuseState,
  is_container,
}
use sitebin_io.Guard.{lock_by_scanner, review_meta, Trust, exemption, Decision, undecided, is_block}
use sitebin_io.Store.{WriteEnds, Site, update_with}

abbrev pub lock_by_admin : Str
lock_by_admin = codes "admin"

abbrev pub lock_by_account : Str
lock_by_account = codes "account"

abbrev pub msg_locked : Str
msg_locked = codes "This site is locked by the operator"

unfoldable pub locked_message : Option SiteLock → Str
locked_message none = msg_locked
locked_message (some l) =
    if str_eq l.reason [] then msg_locked else msg_locked ++ (codes ": " ++ l.reason)

-- The restart that hands an enabled project back to the runtime.
abbrev pub restarted : ContainerMeta → ContainerMeta
restarted c =
    if c.enabled
    then record c { restart_seq = c.restart_seq + 1; status = starting; message = [] }
    else c

unfoldable pub hand_back : Bool → Option ContainerMeta → Option ContainerMeta
hand_back in_container_mode none = none
hand_back in_container_mode (some c) = if in_container_mode then some (restarted c) else some c

-- `unlockMeta`.
unfoldable pub unlock_meta : Meta → Bool × Meta
unfolding hand_back
unlock_meta m = elim m.locked [
  | none ↦ (false, m)
  | some l ↦ (
    true,
    record m { locked = none; container_state = hand_back (is_container m.mode) m.container_state },
  )
]

-- The lock that replaces the one in place, if there is one, whose date and evidence hold it keeps.
-- The zero time and the empty author stand for now and the operator.
unfoldable pub placed_lock : Time → SiteLock → Option SiteLock → SiteLock
placed_lock now l before = record {
  at = elim before [ none ↦ if l.at == 0 then now else l.at | some b ↦ b.at ];
  reason = clean_lock_reason l.reason;
  by = (if str_eq l.by [] then lock_by_admin else l.by);
  hold = elim before [ none ↦ none | some b ↦ b.hold ];
}

-- The closure of `SetLock`: whether anything changed, and the meta.
unfoldable pub set_lock_meta : Time → Option SiteLock → Meta → Bool × Meta
unfolding unlock_meta placed_lock
set_lock_meta now none m =
    let (unlocked, m') = unlock_meta m in
    let (reviewed, m'') = review_meta m' in (unlocked || reviewed, m'')
set_lock_meta now (some l) m =
    if (str_eq l.by lock_by_account || str_eq l.by lock_by_scanner) && is_some m.locked
    then (false, m)
    else (true, record m { locked = some (placed_lock now l m.locked) })

unfoldable pub set_lock : Time → WriteEnds → Option SiteLock → Site → Result Bool × Site
unfolding update_with set_lock_meta
set_lock now ends lock = update_with now ends (λ m. ok (set_lock_meta now lock m))

abbrev pub findings_of : Option AbuseState → List Finding
findings_of none = []
findings_of (some a) = a.findings

-- The first blocking finding, where no exemption was decided.
abbrev pub block_under : Decision → List Finding → Option Finding
block_under undecided fs = find (λ f. is_block f.severity) fs
block_under _ fs = none

-- The finding that keeps a site locked when a suspension ends: a blocking one, on a site that the
-- guard would have held.
unfoldable pub unreviewed_block : Trust → Meta → Option Finding
unfolding exemption
unreviewed_block t m = block_under (exemption t false m) (findings_of m.abuse)

unfoldable pub suspended_reason : Finding → Str
suspended_reason f =
    codes "held for review: "
    ++ (f.rule ++ (codes " in " ++ (f.path ++ codes " (found while the owner was suspended)")))

abbrev pub relock : SiteLock → Finding → SiteLock
relock l f = record {
  at = l.at;
  reason = clean_lock_reason (suspended_reason f);
  by = lock_by_scanner;
  hold = l.hold;
}

unfoldable pub release_found : Trust → SiteLock → Str → Meta → Bool × Meta
unfolding unlock_meta unreviewed_block suspended_reason
release_found t l by m =
    if is_some l.hold
    then (false, record m { locked = some (record l { by = lock_by_admin }) })
    else if str_eq by lock_by_account
    then elim (unreviewed_block t m) [
      | some f ↦ (false, record m { locked = some (relock l f) })
      | none ↦ unlock_meta m
    ]
    else unlock_meta m

-- The closure of `ReleaseLock`: whether the lock was lifted, and the meta.
unfoldable pub release_lock_meta : Trust → Str → Meta → Bool × Meta
unfolding release_found
release_lock_meta t by m = elim m.locked [
  | none ↦ (false, m)
  | some l ↦ if str_eq l.by by then release_found t l by m else (false, m)
]

unfoldable pub release_lock : Time → WriteEnds → Trust → Str → Site → Result Bool × Site
unfolding update_with release_lock_meta
release_lock now ends t by = update_with now ends (λ m. ok (release_lock_meta t by m))

abbrev pub placed_hold : Time → LockHold → LockHold
placed_hold now h = record h { at = (if h.at == 0 then now else h.at) }

-- The `switch` of `SetHold`, on the hold to set and the one in place.
unfoldable pub held_lock : Time → Option LockHold → Option LockHold → SiteLock → Bool × SiteLock
held_lock now none before l = (is_some before, record l { hold = none })
held_lock now (some h) none l = (true, record l { hold = some (placed_hold now h) })
held_lock now (some h) (some b) l = (false, l)

-- The closure of `SetHold`.
unfoldable pub set_hold_meta : Time → Option LockHold → Meta → Result (Bool × Meta)
unfolding held_lock
set_hold_meta now hold m = elim m.locked [
  | none ↦ err not_locked
  | some l ↦
      let (changed, l') = held_lock now hold l.hold l in ok (changed, record m { locked = some l' })
]

unfoldable pub set_hold : Time → WriteEnds → Option LockHold → Site → Result Bool × Site
unfolding update_with set_hold_meta
set_hold now ends hold = update_with now ends (set_hold_meta now hold)
