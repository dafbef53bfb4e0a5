-- ===== src/Sweep.antt =====
-- `ReconcileDomains` of internal/store/domainverify.go: what the sweep does with each claim of a site.
-- What the sweep learns from DNS, from the index and from other sites is an argument, which may depend
-- on the meta at that moment. A write that fails is not modelled.
pub mod Fates
pub mod Window
use sitebin_io.Base.{
  ℕ, ◌+◌, ◌*◌, Bool, true, false, not, ◌||◌, List, [], ◌∷◌, Option, none, some, if◌then◌else◌, ltb,
  leb, Str, contains, is_some,
}
use sitebin_io.Meta.{Meta, Time, DomainClaim}
use sitebin_io.HostShare.{HostVouch, earliest}
use sitebin_io.Domains.{
  Check, checked, through_host, proven, failing, attach_domain, detach_domain, drop_claim,
  stamp_check,
}

abbrev pub hour : ℕ
hour = 3600 * 1_000_000_000

abbrev pub pending_claim_ttl : ℕ
pending_claim_ttl = 7 * 24 * hour

abbrev pub reverify_every : ℕ
reverify_every = 24 * hour

abbrev pub revoke_after : ℕ
revoke_after = 72 * hour

-- What `verify` answers: an error, a definitive no with what stood in the way, or yes.
pub data Lookup : Type 0 where
  unanswered : Str → Lookup
  refused : Str → Lookup
  proved : Lookup

-- What `attach` answers.
pub data Attached : Type 0 where
  done taken broken : Attached

-- `other_site`: another site holds the domain. `other_owner`: another owner holds its host.
-- `other_zone`: another account holds a zone that it lies in. `token` is what `attach` draws.
pub record Answers : Type 0 where
  pub other_site : Bool
  pub other_owner : Bool
  pub other_zone : Bool
  pub vouch : HostVouch
  pub lookup : Lookup
  pub attached : Attached
  pub token : Str

-- What is to be written of one claim.
pub data Fate : Type 0 where
  keep forget detach : Fate
  join : Bool → Fate
  stamp : Check → Fate

abbrev pub fate_of_attach : Bool → Attached → Fate
fate_of_attach via_host done = join via_host
fate_of_attach via_host taken = forget
fate_of_attach via_host broken = keep

abbrev pub fate_of_lookup : Attached → Lookup → Fate
fate_of_lookup a (unanswered found) = stamp (checked found)
fate_of_lookup a (refused found) = stamp (checked found)
fate_of_lookup a proved = fate_of_attach false a

-- The half for a claim that is not verified.
unfoldable pub pending_fate : Time → Answers → DomainClaim → Fate
pending_fate now a c =
    if ltb (c.requested_at + pending_claim_ttl) now
    then forget
    else if a.other_site || a.other_owner || a.other_zone
    then forget
    else if a.vouch.healthy
    then fate_of_attach true a.attached
    else fate_of_lookup a.attached a.lookup

-- Whether a verified claim was checked less than a day ago.
abbrev pub fresh : Time → Option Time → Bool
fresh now none = false
fresh now (some t) = ltb now (t + reverify_every)

abbrev pub clock_or : Time → Option Time → Time
clock_or now none = now
clock_or now (some t) = t

-- When nothing holds the host: one clock, from the earliest window or from now.
unfoldable pub window_fate : Time → Str → Time → Fate
window_fate now found clock =
    if leb (clock + revoke_after) now then detach else stamp (failing clock found)

unfoldable pub absent_fate : Time → HostVouch → Str → DomainClaim → Fate
absent_fate now v found c =
    if v.healthy
    then stamp (through_host found)
    else window_fate now found (clock_or now (earliest c.failing_since v.failing_since))

-- The half for a verified claim.
unfoldable pub verified_fate : Time → HostVouch → Lookup → DomainClaim → Fate
verified_fate now v (unanswered found) c = keep
verified_fate now v (refused found) c =
    if fresh now c.checked_at then keep else absent_fate now v found c
verified_fate now v proved c = if fresh now c.checked_at then keep else stamp proven

unfoldable pub fate : Time → Answers → DomainClaim → Fate
unfolding pending_fate verified_fate absent_fate window_fate
fate now a c =
    if is_some c.verified_at then verified_fate now a.vouch a.lookup c else pending_fate now a c

unfoldable pub apply_fate : Time → Str → Str → Fate → Meta → Meta
apply_fate now token d keep m = m
apply_fate now token d forget m = drop_claim d m
apply_fate now token d detach m = detach_domain d now m
apply_fate now token d (join via_host) m = attach_domain d token now via_host m
apply_fate now token d (stamp check) m = stamp_check d now check m

abbrev pub World : Type 0
World = Meta → DomainClaim → Answers

unfoldable pub sweep_claim : Time → World → DomainClaim → Meta → Meta
unfolding fate apply_fate
sweep_claim now world c m = apply_fate now (world m c).token c.domain (fate now (world m c) c) m

-- The loop over the claims that were read at its start.
unfoldable pub sweep_claims : Time → World → List DomainClaim → Meta → Meta
unfolding sweep_claim
sweep_claims now world [] m = m
sweep_claims now world (c ∷ more) m = sweep_claims now world more (sweep_claim now world c m)

-- `ReconcileDomains`.
unfoldable pub reconcile_domains : Time → World → Meta → Meta
unfolding sweep_claims
reconcile_domains now world m = sweep_claims now world m.domain_claims m
