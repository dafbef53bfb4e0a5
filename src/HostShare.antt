-- ===== src/HostShare.antt =====
-- internal/store/hostshare.go: what the other attached addresses on a host say about one of them, and
-- who may hold a host.
pub mod Vouchers
pub mod Orphans
use sitebin_io.Base.{
  Bool, true, false, not, ◌&&◌, ◌||◌, List, [], ◌∷◌, ◌++◌, Option, none, some, if◌then◌else◌, ltb,
  Str, str_eq, any, is_some,
}
use sitebin_io.Meta.{Time, DomainClaim}
use sitebin_io.Tags.{sort_tags}

-- `HostAddress`, with what is asked of its site: its view id, its owner and its claim on the address.
pub record HostAddress : Type 0 where
  pub addr : Str
  pub view_id : Str
  pub owner : Str
  pub claim : Option DomainClaim

-- `hostForeign`, on the addresses of the host.
unfoldable pub host_foreign : Str → Str → List HostAddress → Bool
host_foreign view_id owner addresses =
    any (λ h. not (str_eq h.view_id view_id) && not (str_eq h.owner owner)) addresses

-- `hostVouch`, without the name of the voucher.
pub record HostVouch : Type 0 where
  pub healthy : Bool
  pub failing_since : Option Time

-- `earliest`.
unfoldable pub earliest : Option Time → Option Time → Option Time
earliest none b = b
earliest (some a) none = some a
earliest (some a) (some b) = if ltb a b then some a else some b

-- What one address says: nothing, that it is held by its own proof, or since when that is gone.
pub data Word : Type 0 where
  silent holds : Word
  failing : Time → Word

abbrev pub word_of_window : Option Time → Word
word_of_window none = holds
word_of_window (some t) = failing t

-- A verified domain with no claim predates verification and holds by its own standing.
unfoldable pub word_of_claim : Option DomainClaim → Word
word_of_claim none = holds
word_of_claim (some c) =
    if not (is_some c.verified_at) || c.via_host then silent else word_of_window c.failing_since

-- The address itself and those of other owners say nothing.
unfoldable pub word_of : Str → Str → HostAddress → Word
unfolding word_of_claim
word_of owner addr h =
    if str_eq h.addr addr || not (str_eq h.owner owner) then silent else word_of_claim h.claim

abbrev pub sooner : Time → Option Time → Option Time
sooner t none = some t
sooner t (some since) = if ltb t since then some t else some since

-- The loop of `vouchFor`, with the earliest window so far.
unfoldable pub vouch_loop : Str → Str → Option Time → List HostAddress → HostVouch
unfolding word_of
vouch_loop owner addr since [] = record { healthy = false; failing_since = since }
vouch_loop owner addr since (h ∷ more) = elim (word_of owner addr h) [
  | silent ↦ vouch_loop owner addr since more
  | holds ↦ record { healthy = true; failing_since = none }
  | failing t ↦ vouch_loop owner addr (sooner t since) more
]

-- `vouchFor`.
unfoldable pub vouch_for : Str → Str → List HostAddress → HostVouch
unfolding vouch_loop
vouch_for owner addr addresses =
    if str_eq owner []
    then record { healthy = false; failing_since = none }
    else vouch_loop owner addr none addresses

-- Whether a claim, or none, holds its address by its own proof with no window running.
unfoldable pub is_voucher : Option DomainClaim → Bool
is_voucher none = true
is_voucher (some c) = is_some c.verified_at && not c.via_host && not (is_some c.failing_since)

abbrev pub is_via_host : Option DomainClaim → Bool
is_via_host none = false
is_via_host (some c) = is_some c.verified_at && c.via_host

-- The loop of `Dependents`: another voucher ends it with nothing.
unfoldable pub dependents_loop : Str → Str → List Str → List HostAddress → List Str
unfolding is_voucher
dependents_loop owner addr deps [] = deps
dependents_loop owner addr deps (h ∷ more) =
    let skipped = dependents_loop owner addr deps more in
    let added = dependents_loop owner addr (deps ++ h.addr ∷ []) more in
    if str_eq h.addr addr || not (str_eq h.owner owner)
    then skipped
    else if is_voucher h.claim
    then []
    else if is_via_host h.claim
    then added
    else skipped

-- `Dependents`; `claim` is the site's own on the address.
unfoldable pub dependents : Str → Option DomainClaim → Str → List HostAddress → List Str
unfolding dependents_loop
dependents owner claim addr addresses =
    if str_eq owner [] || not (is_voucher claim)
    then []
    else sort_tags (λ s. s) (dependents_loop owner addr [] addresses)
