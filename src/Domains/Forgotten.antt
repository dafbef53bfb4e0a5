-- ===== src/Domains/Forgotten.antt =====
-- What a site keeps of a domain that its owner removed: nothing.
use sitebin_io.Base.{
  ◌≡◌, refl, Bool, false, List, [], ◌∷◌, Option, none, some, arith, Str, str_eq, str_eq_iff,
  contains, lookup, delete, lookup-delete, any, ok,
}
use sitebin_io.Meta.{Meta, Redirect, ViewAddress, Address, DomainClaim}
use sitebin_io.Routing.{rule_redirects_to, serves_endpoint}
use sitebin_io.Redirects.{
  drop_address_rules, drop_domain_rules, drop_view_rule, drop_rules_of, drop_redirects_to,
  prune_rule,
}
use sitebin_io.Redirects.NoChain.{NoChain, drop_address_rules-NoChain, lookup-drop_redirects_to}
use sitebin_io.Domains.{has_claim, remove_name, remove_claims, remove_domain}
use sitebin_io.Domains.Coherent.{
  IsCoherent, AgreeWith, AgreeWith-away, AgreeWith-keep_if, contains-remove_name,
}

-- Nothing that a site stores mentions d.
pub record IsForgotten (d : Str) (m : Meta) : Type 0 where
  pub detached : contains d m.custom_domains ≡ false
  pub unclaimed : has_claim d m.domain_claims ≡ false
  pub no_rule : lookup d m.domain_redirects ≡ none
  pub no_target : lookup d m.domain_targets ≡ none
  pub no_view : rule_redirects_to d m.view_address ≡ false
  pub no_address : any (λ a. rule_redirects_to d a.rule) m.addresses ≡ false
  pub no_redirect : any (λ (from, r). str_eq r.to d) m.domain_redirects ≡ false

any-delete :
    (d from : Str) (rules : List (Str × Redirect))
    → any (λ (x, r). str_eq r.to d) rules ≡ false
    → any (λ (x, r). str_eq r.to d) (delete from rules) ≡ false
unfolding delete
any-delete d from [] h = refl
any-delete d from ((x, r) ∷ rules) h = ground (arith, any-delete d from rules)

any-drop_redirects_to :
    (d : Str) (rules : List (Str × Redirect))
    → any (λ (x, r). str_eq r.to d) (drop_redirects_to d rules) ≡ false
unfolding drop_redirects_to
any-drop_redirects_to d [] = refl
any-drop_redirects_to d ((x, r) ∷ rules) =
    ground (arith, any-drop_redirects_to d rules, any-delete d x (drop_redirects_to d rules))

prune_rule-forgets :
    (d : Str) (covered : Bool) (rule : Option ViewAddress)
    → rule_redirects_to d (prune_rule d covered rule) ≡ false
prune_rule-forgets d covered none = refl
prune_rule-forgets d covered (some rule) = ground arith

drop_rules_of-forgets :
    (d : Str) (m : Meta) (addresses : List Address)
    → any (λ a. rule_redirects_to d a.rule) (drop_rules_of d m addresses) ≡ false
unfolding drop_rules_of
drop_rules_of-forgets d m [] = refl
drop_rules_of-forgets d m (a ∷ more) = ground (
  arith,
  prune_rule-forgets d (serves_endpoint m a.endpoint) a.rule,
  drop_rules_of-forgets d m more,
)

has_claim-remove_claims :
    (d : Str) (cs : List DomainClaim) → has_claim d (remove_claims d cs) ≡ false
unfolding has_claim remove_claims
has_claim-remove_claims d [] = refl
has_claim-remove_claims d (c ∷ cs) = ground (arith, has_claim-remove_claims d cs)

-- The meta without the domain and its claims, whose rules are dropped.
abbrev without : Str → Meta → Meta
without d m = record m {
  custom_domains = remove_name d m.custom_domains;
  domain_claims = remove_claims d m.domain_claims;
}

pub remove_domain-written :
    (d : Str) (m m' : Meta) → remove_domain d m ≡ ok m' → m' ≡ drop_address_rules d (without d m)
unfolding remove_domain
remove_domain-written d m m' h = ground arith

drop_address_rules-IsForgotten :
    (d : Str) (m : Meta) → IsForgotten d (drop_address_rules d (without d m))
unfolding drop_address_rules drop_view_rule drop_domain_rules
drop_address_rules-IsForgotten d m = record {
  detached = ground (arith, contains-remove_name d d m.custom_domains, str_eq_iff d d);
  unclaimed = has_claim-remove_claims d m.domain_claims;
  no_rule = ground (
    arith,
    lookup-drop_redirects_to d d (delete d m.domain_redirects),
    lookup-delete d d m.domain_redirects,
    str_eq_iff d d,
  );
  no_target = ground (arith, lookup-delete d d m.domain_targets, str_eq_iff d d);
  no_view = prune_rule-forgets d _ m.view_address;
  no_address = drop_rules_of-forgets d _ m.addresses;
  no_redirect = any-drop_redirects_to d (delete d m.domain_redirects);
}

-- After the owner removed a domain no list, claim, redirect, target or rule of the site mentions it.
pub remove_domain-IsForgotten :
    (d : Str) (m m' : Meta) → remove_domain d m ≡ ok m' → IsForgotten d m'
remove_domain-IsForgotten d m m' h =
    rw (remove_domain-written d m m' h) (drop_address_rules-IsForgotten d m)

pub remove_domain-NoChain :
    (d : Str) (m m' : Meta) → NoChain m → remove_domain d m ≡ ok m' → NoChain m'
remove_domain-NoChain d m m' inv h =
    rw (remove_domain-written d m m' h) (drop_address_rules-NoChain d (without d m) inv)

pub remove_domain-IsCoherent :
    (d : Str) (m m' : Meta) → IsCoherent m → remove_domain d m ≡ ok m' → IsCoherent m'
unfolding drop_address_rules drop_view_rule drop_domain_rules
remove_domain-IsCoherent d m m' inv h = rw (remove_domain-written d m m' h) (
    AgreeWith-away d m.custom_domains (remove_name d m.custom_domains)
      (remove_claims d m.domain_claims)
      (λ e ne. ground (arith, contains-remove_name e d m.custom_domains))
      (has_claim-remove_claims d m.domain_claims) (agree m.custom_domains m.domain_claims inv))
  where
    agree :
        (xs : List Str) (cs : List DomainClaim)
        → AgreeWith xs cs
        → AgreeWith xs (remove_claims d cs)
    agree xs cs k = unfold remove_claims in AgreeWith-keep_if xs _ cs k
