-- ===== src/Sweep/Window.antt =====
-- The revocation window over a sequence of checks.
use sitebin_io.Base.{
  ◌+◌, ◌≤◌, ◌≡◌, refl, inl, inr, false, Bool-cases, List, [], ◌∷◌, Option, none, some, arith, leb,
  Str,
}
use sitebin_io.Meta.{Time, DomainClaim}
use sitebin_io.HostShare.{HostVouch, earliest}
use sitebin_io.Domains.{stamp_claim}
use sitebin_io.Sweep.{
  refused, Fate, detach, stamp, verified_fate, absent_fate, window_fate, fresh, clock_or,
  revoke_after,
}

-- A check that finds the proof gone and nobody who vouches.
pub record Absence : Type 0 where
  pub at : Time
  pub vouch : HostVouch
  pub found : Str
  pub nobody : vouch.healthy ≡ false

-- What is left of a verified claim by a fate; a detached one is a pending claim again.
abbrev pub left_by : Time → Fate → DomainClaim → Option DomainClaim
left_by now detach c = none
left_by now (stamp check) c = some (stamp_claim now check c)
left_by now _ c = some c

abbrev pub checked_once : Absence → DomainClaim → Option DomainClaim
checked_once a c = left_by a.at (verified_fate a.at a.vouch (refused a.found) c) c

-- Checks one after another, while the claim is verified.
unfoldable pub checked_all : List Absence → Option DomainClaim → Option DomainClaim
checked_all [] o = o
checked_all (a ∷ more) none = none
checked_all (a ∷ more) (some c) = checked_all more (checked_once a c)

-- The claim is gone, or its window began at `start` or before.
abbrev Began : Time → Option DomainClaim → Type 0
Began start none = Unit
Began start (some c) = (f : Time) × (c.failing_since ≡ some f) × (f ≤ start)

earliest-le : (f : Time) (o : Option Time) (now : Time) → clock_or now (earliest (some f) o) ≤ f
unfolding earliest
earliest-le f none now = omega arith
earliest-le f (some t) now = ground arith

window-Began :
    (start now : Time) (found : Str) (clock : Time) (c : DomainClaim)
    → clock ≤ start
    → Began start (left_by now (window_fate now found clock) c)
unfolding window_fate
window-Began start now found clock c le = elim (Bool-cases (leb (clock + revoke_after) now)) [
  | inl e ↦ rw e tt
  | inr e ↦ rw e (clock, refl, le)
]

checked_once-Began :
    (start f : Time) (a : Absence) (c : DomainClaim)
    → c.failing_since ≡ some f
    → f ≤ start
    → Began start (checked_once a c)
unfolding verified_fate absent_fate
checked_once-Began start f a c h le = elim (Bool-cases (fresh a.at c.checked_at)) [
  | inl e ↦ simp e (f, h, le)
  | inr e ↦
      simp (e, a.nobody, h)
        (window-Began start a.at a.found (clock_or a.at (earliest (some f) a.vouch.failing_since)) c
          (omega (arith, earliest-le f a.vouch.failing_since a.at)))
]

checked_all-Began :
    (start : Time) (checks : List Absence) (o : Option DomainClaim)
    → Began start o
    → Began start (checked_all checks o)
unfolding checked_all
checked_all-Began start [] o b = b
checked_all-Began start (a ∷ more) none b = tt
checked_all-Began start (a ∷ more) (some c) (f, h, le) =
    checked_all-Began start more (checked_once a c) (checked_once-Began start f a c h le)

window_over-detach :
    (start : Time) (a : Absence) (c : DomainClaim)
    → Began start (some c)
    → fresh a.at c.checked_at ≡ false
    → start + revoke_after ≤ a.at
    → verified_fate a.at a.vouch (refused a.found) c ≡ detach
unfolding verified_fate absent_fate window_fate
window_over-detach start a c (f, h, le) due over =
    rw (due, a.nobody, h) (ground (arith, earliest-le f a.vouch.failing_since a.at))

-- Once the proof of a verified domain is found gone, a run of checks that keep finding it gone, with
-- nobody to vouch, never restarts the window: if the domain is still attached at a check that is due,
-- 72 hours or more after the window's start, that check detaches it.
pub checked_all-detach :
    (start : Time) (checks : List Absence) (a : Absence) (c c' : DomainClaim)
    → c.failing_since ≡ some start
    → checked_all checks (some c) ≡ some c'
    → fresh a.at c'.checked_at ≡ false
    → start + revoke_after ≤ a.at
    → verified_fate a.at a.vouch (refused a.found) c' ≡ detach
checked_all-detach start checks a c c' h e due over =
    window_over-detach start a c'
      (rw e at (checked_all-Began start checks (some c) (start, h, omega arith))) due over
