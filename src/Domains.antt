-- ===== src/Domains.antt =====
-- How a custom domain enters and leaves `CustomDomains`: the closures of internal/store/domains.go
-- (AddDomain, attach, RemoveDomain) and domainverify.go (detach, dropClaim and the stamps of a
-- check). The index links, the DNS lookups and the questions to other sites are not modelled here:
-- each closure is what is written once they are answered.
pub mod Coherent
pub mod Forgotten
pub mod Reachable
use sitebin_io.Base.{
  Bool, true, false, not, ◌&&◌, ◌||◌, List, [], ◌∷◌, ◌++◌, Option, none, some, if◌then◌else◌, Str,
  str_eq, contains, any, find, keep_if, is_some, not_found, Result, ok, err, ◌>>=◌, ◌>>◌, require,
}
use sitebin_io.Meta.{Meta, Time, DomainClaim}
use sitebin_io.Redirects.{drop_address_rules}

-- Whether `claimIndex` finds a claim on d.
unfoldable pub has_claim : Str → List DomainClaim → Bool
has_claim d claims = any (λ c. str_eq c.domain d) claims

unfoldable pub claim_of : Str → List DomainClaim → Option DomainClaim
claim_of d claims = find (λ c. str_eq c.domain d) claims

-- The claim at `claimIndex` changed in place, if there is one.
unfoldable pub change_claim :
    Str → (DomainClaim → DomainClaim) → List DomainClaim → List DomainClaim
change_claim d f [] = []
change_claim d f (c ∷ cs) =
    let rest = change_claim d f cs in if str_eq c.domain d then f c ∷ cs else c ∷ rest

-- `slices.DeleteFunc` on names.
unfoldable pub remove_name : Str → List Str → List Str
remove_name d names = keep_if (λ x. not (str_eq x d)) names

unfoldable pub remove_claims : Str → List DomainClaim → List DomainClaim
remove_claims d claims = keep_if (λ c. not (str_eq c.domain d)) claims

abbrev pub pending_claim : Str → Str → Time → DomainClaim
pending_claim d token now = record {
  domain = d;
  token = token;
  requested_at = now;
  verified_at = none;
  checked_at = none;
  failing_since = none;
  check_result = [];
  via_host = false;
}

-- The closure of `AddDomain`: the claim, unless there is one; `token` is the fresh one.
unfoldable pub add_claim : Str → Str → Time → Meta → Meta
unfolding has_claim
add_claim d token now m =
    if has_claim d m.domain_claims
    then m
    else record m { domain_claims = m.domain_claims ++ pending_claim d token now ∷ [] }

abbrev pub prove_claim : Time → Bool → DomainClaim → DomainClaim
prove_claim now via_host c = record c {
  verified_at = (if is_some c.verified_at then c.verified_at else some now);
  checked_at = some now;
  failing_since = none;
  check_result = [];
  via_host = via_host;
}

-- The closure of `attach`.
unfoldable pub attach_domain : Str → Str → Time → Bool → Meta → Meta
unfolding has_claim change_claim
attach_domain d token now via_host m = record m {
  custom_domains =
      (if contains d m.custom_domains then m.custom_domains else m.custom_domains ++ d ∷ []);
  domain_claims =
      (if has_claim d m.domain_claims
        then change_claim d (prove_claim now via_host) m.domain_claims
        else m.domain_claims ++ prove_claim now via_host (pending_claim d token now) ∷ []);
}

abbrev pub demote_claim : Time → DomainClaim → DomainClaim
demote_claim now c = record c {
  requested_at = now;
  verified_at = none;
  checked_at = some now;
  failing_since = none;
  via_host = false;
}

-- The closure of `detach`.
unfoldable pub detach_domain : Str → Time → Meta → Meta
unfolding change_claim remove_name
detach_domain d now m = record m {
  custom_domains = remove_name d m.custom_domains;
  domain_claims = change_claim d (demote_claim now) m.domain_claims;
}

-- What `removeDomainLocked` does to the meta.
unfoldable pub remove_domain : Str → Meta → Result Meta
unfolding has_claim remove_name remove_claims
remove_domain d m = do
  require (contains d m.custom_domains || has_claim d m.domain_claims) not_found
  ok (
      drop_address_rules d (record m {
        custom_domains = remove_name d m.custom_domains;
        domain_claims = remove_claims d m.domain_claims;
      }))

-- The closure of `dropClaim`.
unfoldable pub drop_claim : Str → Meta → Meta
drop_claim d m = record m {
  domain_claims =
      keep_if (λ c. not (str_eq c.domain d && not (is_some c.verified_at))) m.domain_claims;
}

-- What the stamps record of a check: `stampCheck`, `stampOK`, `stampViaHost`, `markFailing`.
pub data Check : Type 0 where
  checked through_host : Str → Check
  proven : Check
  failing : Time → Str → Check

abbrev pub stamp_claim : Time → Check → DomainClaim → DomainClaim
stamp_claim now (checked found) c = record c { checked_at = some now; check_result = found }
stamp_claim now proven c = record c {
  checked_at = some now;
  failing_since = none;
  check_result = [];
  via_host = false;
}
stamp_claim now (through_host found) c = record c {
  checked_at = some now;
  failing_since = none;
  check_result = found;
  via_host = true;
}
stamp_claim now (failing since found) c = record c {
  checked_at = some now;
  failing_since = some since;
  check_result = found;
}

unfoldable pub stamp_check : Str → Time → Check → Meta → Meta
unfolding change_claim
stamp_check d now check m = record m {
  domain_claims = change_claim d (stamp_claim now check) m.domain_claims;
}
