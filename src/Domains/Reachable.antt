-- ===== src/Domains/Reachable.antt =====
-- Every sequence of the operations on a site's domains, redirects and addresses, by the owner, the
-- sweep and the runtime, as a step relation; and the invariant that each state reached has.
use sitebin_io.Base.{
  ℕ, ◌≡◌, inl, inr, Bool, Bool-cases, List, [], Option, none, some, arith, Str, lookup, ok,
  >>=-eq-ok,
}
use sitebin_io.Meta.{Meta, Time, Redirect, Address, RuleMode, is_container}
use sitebin_io.Redirects.{apply_redirect, apply_view_address}
use sitebin_io.Redirects.NoChain.{NoChain, apply_redirect-NoChain}
use sitebin_io.Addresses
use sitebin_io.Addresses.{
  ruled_addresses, labelled_addresses, sync_addresses, clear_addresses, apply_domain_target,
  apply_address_rule,
}
use sitebin_io.Domains.{
  Check, add_claim, attach_domain, detach_domain, remove_domain, drop_claim, stamp_check,
}
use sitebin_io.Domains.Coherent.{
  IsCoherent, add_claim-IsCoherent, attach_domain-IsCoherent, detach_domain-IsCoherent,
  drop_claim-IsCoherent, stamp_check-IsCoherent,
}
use sitebin_io.Domains.Forgotten.{remove_domain-NoChain, remove_domain-IsCoherent}

-- One write of meta.json, as the closure that makes it leaves it.
pub data Step : Meta → Meta → Type 0 where
  claim : (m : Meta) (d token : Str) (now : Time) → Step m (add_claim d token now m)
  attach :
      (m : Meta) (d token : Str) (now : Time) (via_host : Bool)
      → Step m (attach_domain d token now via_host m)
  detach : (m : Meta) (d : Str) (now : Time) → Step m (detach_domain d now m)
  drop : (m : Meta) (d : Str) → Step m (drop_claim d m)
  stamp : (m : Meta) (d : Str) (now : Time) (check : Check) → Step m (stamp_check d now check m)
  remove : (m m' : Meta) (d : Str) → remove_domain d m ≡ ok m' → Step m m'
  redirect :
      (m m' : Meta) (d : Str) (target : Option Redirect)
      → apply_redirect d target m ≡ ok m'
      → Step m m'
  view_rule :
      (m m' : Meta) (mode : RuleMode) (target : Str) (code : ℕ)
      → apply_view_address mode target code m ≡ ok m'
      → Step m m'
  address_rule :
      (m m' : Meta) (endpoint : Str) (mode : RuleMode) (target : Str) (code : ℕ)
      → apply_address_rule endpoint mode target code m ≡ ok m'
      → Step m m'
  retarget : (m m' : Meta) (d endpoint : Str) → apply_domain_target d endpoint m ≡ ok m' → Step m m'
  sync :
      (m m' : Meta) (draw : ℕ → Str) (used : Str → Bool) (endpoints dropped : List Str)
      → sync_addresses draw used endpoints m ≡ ok (dropped, m')
      → Step m m'
  clear : (m m' : Meta) → clear_addresses m ≡ ok m' → Step m m'

pub data Reach (s : Meta) : Meta → Type 0 where
  here : Reach s s
  next : {t u : Meta} → Reach s t → Step t u → Reach s u

pub record IsSound (m : Meta) : Type 0 where
  pub no_chain : NoChain m
  pub coherent : IsCoherent m

-- A write that leaves the domains, the claims and the redirects alone.
record SameNames (m m' : Meta) : Type 0 where
  domains : m'.custom_domains ≡ m.custom_domains
  claims : m'.domain_claims ≡ m.domain_claims
  redirects : m'.domain_redirects ≡ m.domain_redirects

apply_redirect-keeps :
    (d : Str) (to : Option Redirect) (m m' : Meta)
    → apply_redirect d to m ≡ ok m'
    → (m'.custom_domains ≡ m.custom_domains) × (m'.domain_claims ≡ m.domain_claims)
unfolding apply_redirect
apply_redirect-keeps d none m m' h = ground arith
apply_redirect-keeps d (some r) m m' h = ground arith

SameNames-IsCoherent :
    (m m' : Meta)
    → (m'.custom_domains ≡ m.custom_domains) × (m'.domain_claims ≡ m.domain_claims)
    → IsCoherent m
    → IsCoherent m'
SameNames-IsCoherent m m' (a, b) h = rw (a, b) h

SameNames-IsSound : (m m' : Meta) → SameNames m m' → IsSound m → IsSound m'
SameNames-IsSound m m' e s = record {
  no_chain = λ d r h. ground (arith, e.redirects, s.no_chain d r);
  coherent = rw (e.domains, e.claims) s.coherent;
}

apply_view_address-SameNames :
    (m m' : Meta) (mode : RuleMode) (target : Str) (code : ℕ)
    → apply_view_address mode target code m ≡ ok m'
    → SameNames m m'
unfolding apply_view_address
apply_view_address-SameNames m m' mode target code h = ground arith

apply_address_rule-SameNames :
    (m m' : Meta) (endpoint : Str) (mode : RuleMode) (target : Str) (code : ℕ)
    → apply_address_rule endpoint mode target code m ≡ ok m'
    → SameNames m m'
unfolding apply_address_rule
apply_address_rule-SameNames m m' endpoint mode target code h =
    let (xs, _, e) = >>=-eq-ok (ruled_addresses endpoint mode target code m) _ h in
    ground (arith, e)

apply_domain_target-SameNames :
    (m m' : Meta) (d endpoint : Str) → apply_domain_target d endpoint m ≡ ok m' → SameNames m m'
unfolding apply_domain_target
apply_domain_target-SameNames m m' d endpoint h = ground arith

retarget-SameNames :
    (m m' : Meta) (xs : List Address)
    → m' ≡ Addresses.retarget (record m { addresses = xs })
    → SameNames m m'
unfolding Addresses.retarget
retarget-SameNames m m' xs h = ground arith

sync_addresses-SameNames :
    (m m' : Meta) (draw : ℕ → Str) (used : Str → Bool) (endpoints dropped : List Str)
    → sync_addresses draw used endpoints m ≡ ok (dropped, m')
    → SameNames m m'
unfolding sync_addresses
sync_addresses-SameNames m m' draw used endpoints dropped h =
    elim (Bool-cases (is_container m.mode)) [
      | inl e ↦
          let (xs, _, k) =
            >>=-eq-ok (labelled_addresses draw used endpoints m) _ (rw (e, sync_addresses) at h) in
          retarget-SameNames m m' xs (ground (arith, k))
      | inr e ↦ ground (arith, h, e)
    ]

add_claim-NoChain :
    (d token : Str) (now : Time) (m : Meta) → NoChain m → NoChain (add_claim d token now m)
unfolding add_claim
add_claim-NoChain d token now m inv x r h = ground (arith, inv x r)

clear_addresses-SameNames : (m m' : Meta) → clear_addresses m ≡ ok m' → SameNames m m'
unfolding clear_addresses
clear_addresses-SameNames m m' h = ground arith

-- Every write of meta.json keeps the invariant.
pub Step-IsSound : {m m' : Meta} → Step m m' → IsSound m → IsSound m'
unfolding attach_domain detach_domain drop_claim stamp_check
Step-IsSound (claim m d token now) s = record {
  no_chain = add_claim-NoChain d token now m s.no_chain;
  coherent = add_claim-IsCoherent d token now m s.coherent;
}
Step-IsSound (attach m d token now via_host) s = record {
  no_chain = s.no_chain;
  coherent = attach_domain-IsCoherent d token now via_host m s.coherent;
}
Step-IsSound (detach m d now) s = record {
  no_chain = s.no_chain;
  coherent = detach_domain-IsCoherent d now m s.coherent;
}
Step-IsSound (drop m d) s = record {
  no_chain = s.no_chain;
  coherent = drop_claim-IsCoherent d m s.coherent;
}
Step-IsSound (stamp m d now check) s = record {
  no_chain = s.no_chain;
  coherent = stamp_check-IsCoherent d now check m s.coherent;
}
Step-IsSound (remove m m' d h) s = record {
  no_chain = remove_domain-NoChain d m m' s.no_chain h;
  coherent = remove_domain-IsCoherent d m m' s.coherent h;
}
Step-IsSound (redirect m m' d to h) s = record {
  no_chain = apply_redirect-NoChain d to m m' s.no_chain h;
  coherent = SameNames-IsCoherent m m' (apply_redirect-keeps d to m m' h) s.coherent;
}
Step-IsSound (view_rule m m' mode to code h) s =
    SameNames-IsSound m m' (apply_view_address-SameNames m m' mode to code h) s
Step-IsSound (address_rule m m' endpoint mode to code h) s =
    SameNames-IsSound m m' (apply_address_rule-SameNames m m' endpoint mode to code h) s
Step-IsSound (retarget m m' d endpoint h) s =
    SameNames-IsSound m m' (apply_domain_target-SameNames m m' d endpoint h) s
Step-IsSound (sync m m' draw used endpoints dropped h) s =
    SameNames-IsSound m m' (sync_addresses-SameNames m m' draw used endpoints dropped h) s
Step-IsSound (clear m m' h) s = SameNames-IsSound m m' (clear_addresses-SameNames m m' h) s

-- From a state with the invariant every sequence of these writes, in any order, leads to states in
-- which no stored redirect leads to a redirecting domain, the domain of a verified claim is attached,
-- and no domain is claimed twice.
pub Reach-IsSound : {s t : Meta} → IsSound s → Reach s t → IsSound t
Reach-IsSound k here = k
Reach-IsSound k (next r st) = Step-IsSound st (Reach-IsSound k r)

-- The state of a site without domains has it.
pub IsSound-fresh :
    (m : Meta) → m.custom_domains ≡ [] → m.domain_claims ≡ [] → m.domain_redirects ≡ [] → IsSound m
unfolding lookup
IsSound-fresh m c k r = record { no_chain = λ d x h. ground (arith, r); coherent = rw (c, k) tt }
