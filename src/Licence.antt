-- ===== src/Licence.antt =====
-- ee/licensing/state.go: what an instance's licence is doing at one instant. A Go time that IsZero
-- is 0. The rejection of a key is kept as whether there was one.
pub mod Restricts
pub mod Key
use sitebin_io.Base.{
  ℕ, ◌+◌, ◌*◌, Bool, true, false, not, ◌&&◌, ◌||◌, Option, none, some, if◌then◌else◌, ltb, leb,
  ◌==◌, Str, [],
}
use sitebin_io.Base.Int.{ℤ, pos, negsuc}
use sitebin_io.Meta.{Time}

-- `TrialPeriod`, in nanoseconds.
abbrev pub trial_period : ℕ
trial_period = 90 * 24 * 3600 * 1_000_000_000

pub data State : Type 0 where
  licensed grace expired unlicensed unknown : State

pub record CertPayload : Type 0 where
  pub app_id : Str
  pub pub_key : Str
  pub issued_at : Time
  pub expires_at : Time

pub record LicensePayload : Type 0 where
  pub app_id : Str
  pub holder : Str
  pub plan : Str
  pub issued_at : Time
  pub expires_at : Time
  pub grace_until : Time
  pub max_custom_domains : ℕ

pub record License : Type 0 where
  pub cert : CertPayload
  pub lic : LicensePayload

unfoldable pub grace_end : License → Time
grace_end l =
    if l.lic.grace_until == 0
    then l.lic.expires_at
    else if ltb l.lic.grace_until l.lic.expires_at
    then l.lic.expires_at
    else l.lic.grace_until

pub record Snapshot : Type 0 where
  pub loaded : Bool
  pub license : Option License
  pub rejected : Bool
  pub source : Str
  pub trial_start : Time

pub record Status : Type 0 where
  pub state : State
  pub restricted : Bool
  pub holder : Str
  pub plan : Str
  pub expires_at : Time
  pub grace_until : Time
  pub trial_ends_at : Time
  pub rejected : Bool
  pub source : Str
  pub max_custom_domains : ℕ

abbrev pub no_status : State → Bool → Str → Status
no_status state rejected source = record {
  state = state;
  restricted = false;
  holder = [];
  plan = [];
  expires_at = 0;
  grace_until = 0;
  trial_ends_at = 0;
  rejected = rejected;
  source = source;
  max_custom_domains = 0;
}

unfoldable pub cert_live : License → Time → Bool
cert_live l now = l.cert.expires_at == 0 || leb now l.cert.expires_at

unfoldable pub licensed_state : License → Time → State
licensed_state l now =
    if l.lic.expires_at == 0 || leb now l.lic.expires_at
    then licensed
    else if leb now (grace_end l)
    then grace
    else expired

abbrev pub is_expired : State → Bool
is_expired expired = true
is_expired _ = false

unfoldable pub licensed_status : Snapshot → License → Time → Status
unfolding licensed_state grace_end
licensed_status s l now = record {
  state = licensed_state l now;
  restricted = is_expired (licensed_state l now);
  holder = l.lic.holder;
  plan = l.lic.plan;
  expires_at = l.lic.expires_at;
  grace_until = grace_end l;
  trial_ends_at = 0;
  rejected = s.rejected;
  source = s.source;
  max_custom_domains = l.lic.max_custom_domains;
}

unfoldable pub trial_status : Snapshot → Time → Status
trial_status s now =
    if s.trial_start == 0
    then no_status unknown s.rejected s.source
    else record (no_status unlicensed s.rejected s.source) {
      restricted = ltb (s.trial_start + trial_period) now;
      trial_ends_at = s.trial_start + trial_period;
    }

-- The licence in force: verified, and its certificate has not expired since.
unfoldable pub usable : Option License → Time → Option License
unfolding cert_live
usable none now = none
usable (some l) now = if cert_live l now then some l else none

-- `StatusAt`.
unfoldable pub status_at : Snapshot → Time → Status
unfolding licensed_status trial_status usable
status_at s now =
    if s.loaded
    then elim (usable s.license now) [
      | some l ↦ licensed_status s l now
      | none ↦ trial_status s now
    ]
    else no_status unknown false []

-- `DomainsAllowed`; a count below zero could not be taken.
unfoldable pub domains_allowed : Status → ℤ → Bool
domains_allowed s (negsuc n) = true
domains_allowed s (pos n) = s.max_custom_domains == 0 || ltb n s.max_custom_domains
