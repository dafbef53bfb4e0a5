-- ===== src/Meta.antt =====
-- internal/store/meta.go and the types that its fields hold: the settings of one site, as meta.json
-- keeps them. A time is its count of nanoseconds since Go's zero time, which is 0; a `*T` that may
-- be nil is an `Option`; a map is an association list, nil being the empty one. Fields that no
-- modelled function reads or writes (password hashes, forms, names, provenance) are left out.
use sitebin_io.Base.{ℕ, Bool, true, false, List, Option, Str}

abbrev pub Time : Type 0
Time = ℕ

-- `Meta.Mode`; any other string is `other_mode`.
pub data SiteMode : Type 0 where
  webserver viewer container other_mode : SiteMode

abbrev pub is_container : SiteMode → Bool
is_container container = true
is_container _ = false

-- `ViewAddress.Mode`, and what a caller passes for it: `unset` is the empty string, `other` any
-- string that is not one of the three.
pub data RuleMode : Type 0 where
  serve off redirect unset other : RuleMode

pub record Redirect : Type 0 where
  pub to : Str
  pub code : ℕ

pub record ViewAddress : Type 0 where
  pub mode : RuleMode
  pub to : Str
  pub code : ℕ

pub record Address : Type 0 where
  pub endpoint : Str
  pub label : Str
  pub rule : Option ViewAddress

pub record DomainClaim : Type 0 where
  pub domain : Str
  pub token : Str
  pub requested_at : Time
  pub verified_at : Option Time
  pub checked_at : Option Time
  pub failing_since : Option Time
  pub check_result : Str
  pub via_host : Bool

pub data ContainerStatus : Type 0 where
  starting running stopped failed other_status : ContainerStatus

-- Desired and observed state; the limits and what was last applied are left out.
pub record ContainerMeta : Type 0 where
  pub enabled : Bool
  pub restart_seq : ℕ
  pub status : ContainerStatus
  pub message : Str

pub record LockHold : Type 0 where
  pub at : Time
  pub by : Str

pub record SiteLock : Type 0 where
  pub at : Time
  pub reason : Str
  pub by : Str
  pub hold : Option LockHold

pub data Severity : Type 0 where
  block flag : Severity

pub record Finding : Type 0 where
  pub rule : Str
  pub severity : Severity
  pub path : Str
  pub excerpt : Str
  pub sha256 : Str
  pub source : Str
  pub at : Time

pub record AbuseState : Type 0 where
  pub findings : List Finding
  pub reviewed : List Str

-- The caps that a tier grants, in `Meta` and in the argument of `ApplyQuota`. Every test of
-- `expiry_days` is for a positive value, so a negative one counts as 0.
pub record Quota : Type 0 where
  pub bytes : ℕ
  pub files : ℕ
  pub expiry_days : ℕ
  pub domains : Option ℕ
  pub webdav : Option Bool
  pub git : Option Bool
  pub analytics : Option Bool
  pub forms : Option ℕ

pub record Meta : Type 0 where
  pub id : Str
  pub mode : SiteMode
  pub custom_domains : List Str
  pub domain_claims : List DomainClaim
  pub domain_redirects : List (Str × Redirect)
  pub view_address : Option ViewAddress
  pub addresses : List Address
  pub domain_targets : List (Str × Str)
  pub spa_fallback : Bool
  pub not_found_page : Str
  pub owner_account_id : Str
  pub quota : Quota
  pub expires_at : Option Time
  pub expiry_from_tier : Bool
  pub container_state : Option ContainerMeta
  pub locked : Option SiteLock
  pub abuse : Option AbuseState
  pub updated_at : Time
