-- ===== src/Licence/Restricts.antt =====
-- When a licence restricts an instance.
use sitebin_io.Base.{
  ◌+◌, ◌≤◌, ◌<◌, ◌≡◌, ◌≢◌, inl, inr, ◌↔◌, true, Bool-cases, Option, none, some, Option-cases, arith,
}
use sitebin_io.Meta.{Time}
use sitebin_io.Licence.{
  License, Snapshot, grace_end, usable, licensed_state, licensed_status, trial_status, status_at,
  trial_period,
}

-- A grace never ends before the licence itself.
expires_at-le-grace_end : (l : License) → l.lic.expires_at ≤ grace_end l
unfolding grace_end
expires_at-le-grace_end l = ground arith

-- The licence in force is past its expiry and its grace.
abbrev pub RanOut : License → Time → Type 0
RanOut l now = (l.lic.expires_at ≢ 0) × (l.lic.expires_at < now) × (grace_end l < now)

-- The first start is known and the trial is over.
abbrev pub TrialOver : Snapshot → Time → Type 0
TrialOver s now = (s.trial_start ≢ 0) × (s.trial_start + trial_period < now)

abbrev Justified : Snapshot → Option License → Time → Type 0
Justified s none now = TrialOver s now
Justified s (some l) now = RanOut l now

-- What alone may restrict an instance: a licence in force that ran out, or, with none in force, a
-- trial that is over.
abbrev pub MayRestrict : Snapshot → Time → Type 0
MayRestrict s now = (s.loaded ≡ true) × Justified s (usable s.license now) now

licensed_iff :
    (s : Snapshot) (l : License) (now : Time)
    → ((licensed_status s l now).restricted ≡ true) ↔ RanOut l now
unfolding licensed_status licensed_state
licensed_iff s l now = (λ h. (ground arith, ground arith, ground arith), λ (a, b, c). ground arith)

trial_iff : (s : Snapshot) (now : Time) → ((trial_status s now).restricted ≡ true) ↔ TrialOver s now
unfolding trial_status
trial_iff s now = (λ h. (ground arith, ground arith), λ (a, b). ground arith)

-- An instance is restricted exactly when its licence in force ran out, or it has none in force and
-- its trial is over. A state that is not loaded, an unknown first start, and a licence within its
-- term or its grace never restrict.
restricted_iff :
    (s : Snapshot) (now : Time) → ((status_at s now).restricted ≡ true) ↔ MayRestrict s now
unfolding status_at
restricted_iff s now = elim (Bool-cases s.loaded) [
  | inl e ↦ elim (Option-cases (usable s.license now)) [
    | inl n ↦ (
      λ h. (e, rw n ((trial_iff s now).0 (rw (e, n, status_at) at h))),
      λ (_, j). rw (e, n, status_at) ((trial_iff s now).1 (rw n at j)),
    )
    | inr (l, n) ↦ (
      λ h. (e, rw n ((licensed_iff s l now).0 (rw (e, n, status_at) at h))),
      λ (_, j). rw (e, n, status_at) ((licensed_iff s l now).1 (rw n at j)),
    )
  ]
  | inr e ↦ (λ h. absurd (ground (arith, e)), λ (a, _). absurd (ground (arith, e)))
]
