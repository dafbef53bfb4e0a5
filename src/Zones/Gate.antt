-- ===== src/Zones/Gate.antt =====
-- internal/store/zones.go: `refuseForeignZone`, the gate of a new domain towards the zones. What the
-- operator's zones answer and what the owner's plan allows are arguments; `adds` are the new names that
-- the owner added lately, `n` is how many an hour may have.
use sitebin_io.Base.{
  ℕ, ◌≡◌, ◌≢◌, subst, inl, inr, Bool, true, false, not, ◌||◌, Bool-cases, List, [], Option, none,
  some, arith, if◌then◌else◌, ◌==◌, Str, str_eq, str_eq_iff, contains, find, bad_domain,
  too_many_domains, Result, ok, err,
}
use sitebin_io.Meta.{Meta, Time}
use sitebin_io.Text.{to_lower}
use sitebin_io.DomainName.{host_of}
use sitebin_io.Domains.{has_claim}
use sitebin_io.Zones.{Zone, Zones, zone_name_allowed}
use sitebin_io.Zones.Apart.{IsSeparate}
use sitebin_io.Zones.Lookup.{account_zone_for}
use sitebin_io.Zones.Lookup.Names.{lies_in}
use sitebin_io.Zones.Lookup.Scan.{Dotted, account_zone_for-scan}

abbrev throttled : Bool × List Time → Result Bool × List Time
throttled (false, adds) = (err too_many_domains, adds)
throttled (true, adds) = (ok true, adds)

-- A new name through the owner's own zone.
unfoldable pub gate_new : Time → Result ℕ → ℕ → List Time → Result Bool × List Time
gate_new now (err why) n adds = (err why, adds)
gate_new now (ok max) n adds =
    if max == 0 then (err too_many_domains, adds) else throttled (zone_name_allowed n now adds)

unfoldable pub gate_zone :
    Meta → Str → Time → Result ℕ → ℕ → List Time → Option Zone → Result Bool × List Time
gate_zone m d now max n adds none = (ok false, adds)
gate_zone m d now max n adds (some z) =
    if str_eq m.owner_account_id [] || not (str_eq m.owner_account_id z.account)
    then (err bad_domain, adds)
    else if contains d m.custom_domains || has_claim d m.domain_claims
    then (ok true, adds)
    else gate_new now max n adds

abbrev after_operator :
    Result (Unit {0}) → List Time → Result Bool × List Time → Result Bool × List Time
after_operator (err why) adds r = (err why, adds)
after_operator (ok tt) adds r = r

-- `refuseForeignZone`: whether the domain goes through the owner's zone, and the adds.
unfoldable pub refuse_foreign_zone :
    Result (Unit {0})
    → Meta
    → Str
    → Time
    → Result ℕ
    → ℕ
    → List Time
    → Zones
    → Result Bool × List Time
unfolding gate_zone gate_new
refuse_foreign_zone operator m d now max n adds s =
    after_operator operator adds (gate_zone m d now max n adds (account_zone_for d s))

-- Whether a domain may be added, by a scan of all zones: it lies in none, or in one of the site's owner.
abbrev pub Allowed : Meta → Bool → Option Zone → Type 0
Allowed m via none = via ≡ false
Allowed m via (some z) = (via ≡ true) × (m.owner_account_id ≢ []) × (m.owner_account_id ≡ z.account)

gate_new-true :
    (now : Time) (max : Result ℕ) (n : ℕ) (adds : List Time) (via : Bool)
    → (gate_new now max n adds).0 ≡ ok via
    → via ≡ true
unfolding gate_new
gate_new-true now (err why) n adds via h = absurd (ground arith)
gate_new-true now (ok max) n adds via h = go (zone_name_allowed n now adds) (max == 0) h
  where
    go :
        (r : Bool × List Time) (b : Bool)
        → (if b then (err too_many_domains, adds) else throttled r).0 ≡ ok via
        → via ≡ true
    go r true k = absurd (ground arith)
    go (false, more) false k = absurd (ground arith)
    go (true, more) false k = ground arith

gate_zone-Allowed :
    (m : Meta) (d : Str) (now : Time) (max : Result ℕ) (n : ℕ) (adds : List Time) (o : Option Zone)
    (via : Bool)
    → (gate_zone m d now max n adds o).0 ≡ ok via
    → Allowed m via o
unfolding gate_zone
gate_zone-Allowed m d now max n adds none via h = ground arith
gate_zone-Allowed m d now max n adds (some z) via h =
    elim (Bool-cases (str_eq m.owner_account_id [] || not (str_eq m.owner_account_id z.account))) [
      | inl e ↦ absurd (ground (arith, e))
      | inr e ↦ (
        through (contains d m.custom_domains || has_claim d m.domain_claims) (ground (arith, e)),
        (λ k. ground (arith, e, str_eq_iff m.owner_account_id [], k)),
        (str_eq_iff m.owner_account_id z.account).0 (ground (arith, e)),
      )
    ]
  where
    through :
        (b : Bool)
        → (if b then (ok true, adds) else gate_new now max n adds).0 ≡ ok via
        → via ≡ true
    through true k = ground arith
    through false k = gate_new-true now max n adds via k

-- An address that passes the gate lies in no zone that an account proved, or in one of the site's
-- owner; only in the second case it goes through the zone. Verified zones do not overlap there, and
-- their names have a dot.
pub refuse_foreign_zone-Allowed :
    (operator : Result (Unit {0})) (m : Meta) (d : Str) (now : Time) (max : Result ℕ) (n : ℕ)
    (adds : List Time) (s : Zones) (via : Bool)
    → IsSeparate s
    → Dotted s.held
    → (refuse_foreign_zone operator m d now max n adds s).0 ≡ ok via
    → Allowed m via (find (λ o. lies_in (to_lower (host_of d)) o.zone) s.held)
unfolding refuse_foreign_zone
refuse_foreign_zone-Allowed (err why) m d now max n adds s via i dots h = absurd (ground arith)
refuse_foreign_zone-Allowed (ok tt) m d now max n adds s via i dots h =
    subst (Allowed m via) (account_zone_for-scan d s i dots)
      (gate_zone-Allowed m d now max n adds (account_zone_for d s) via h)
