-- ===== src/Zones/Lookup.antt =====
-- internal/store/zones.go: `accountZoneFor`, the zone that a domain lies in, walked label by label.
pub mod Names
pub mod Scan
use sitebin_io.Base.{
  Bool, true, false, not, ◌&&◌, ◌||◌, List, [], ◌∷◌, Option, none, some, if◌then◌else◌, ◌==◌, Str,
  str_eq, find, is_some,
}
use sitebin_io.Text.{to_lower, occurs}
use sitebin_io.DomainName.{host_of}
use sitebin_io.Zones.{Zone, Zones}

-- What is left of a name after each of its dots, from the first on.
unfoldable pub after_dots : Str → List Str
after_dots [] = []
after_dots (c ∷ s) = let rest = after_dots s in if c == b'.' then s ∷ rest else rest

-- `readZone` of a name, if the zone is verified.
abbrev pub if_verified : Option Zone → Option Zone
if_verified none = none
if_verified (some z) = if is_some z.verified_at then some z else none

unfoldable pub held_zone : Zones → Str → Option Zone
held_zone s d = if_verified (find (λ z. str_eq z.zone d) s.held)

abbrev pub or_else : Option Zone → Option Zone → Option Zone
or_else none o = o
or_else (some z) o = some z

-- The loop over a name and what is left of it, until no dot is left.
unfoldable pub zone_walk : Zones → List Str → Option Zone
zone_walk s [] = none
zone_walk s (d ∷ more) =
    let rest = zone_walk s more in if occurs b'.' d then or_else (held_zone s d) rest else none

-- `accountZoneFor`.
unfoldable pub account_zone_for : Str → Zones → Option Zone
unfolding zone_walk after_dots held_zone
account_zone_for d s = let host = to_lower (host_of d) in zone_walk s (host ∷ after_dots host)
