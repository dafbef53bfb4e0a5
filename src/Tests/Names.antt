-- ===== src/Tests/Names.antt =====
-- Domains, redirects and generated addresses on sample sites.
use sitebin_io.Base.{
  any, str_eq, ◌==◌, if◌then◌else◌, ◌≡◌, refl, ℕ, true, false, List, [], ◌∷◌, Option, none, some,
  Str, codes, ok, err, contains, bad_domain, bad_redirect,
}
use sitebin_io.Meta.{Meta, Redirect}
use sitebin_io.DomainName.{normalize_address, overlaps}
use sitebin_io.Routing.{domain_redirect, view_rule, address_rule, serves, host_key}
use sitebin_io.Routing.OneHop.{domain_redirect_one_hop}
use sitebin_io.Routing.Online.{view_rule-Reaches, Reaches, Serving}
use sitebin_io.Redirects.{apply_redirect, set_domain_redirect}
use sitebin_io.Redirects.Effect.{TakesEffect, apply_redirect-TakesEffect}
use sitebin_io.Domains.{attach_domain, remove_domain}
use sitebin_io.Domains.Forgotten.{IsForgotten, remove_domain-IsForgotten}
use sitebin_io.Domains.Reachable.{Step, Reach, IsSound, Reach-IsSound, IsSound-fresh}
use sitebin_io.Addresses.{free_label}
use sitebin_io.Samples.{plain, www, bare, redirected, web_address}

normal_address : normalize_address (codes " WWW.A.de./shop ") ≡ ok (codes "www.a.de/shop")
unfolding normalize_address
normal_address = refl

normal_path : normalize_address (codes " WWW.A.de/shop ") ≡ ok (codes "www.a.de/shop")
unfolding normalize_address
normal_path = refl

upper_path : normalize_address (codes "a.de/Shop") ≡ err bad_domain
unfolding normalize_address
upper_path = refl

below : overlaps (codes "www.a.de") (codes "a.de") ≡ true
unfolding overlaps
below = refl

not_below : overlaps (codes "wwwa.de") (codes "a.de") ≡ false
unfolding overlaps
not_below = refl

abbrev to_www : Redirect
to_www = record { to = www; code = 0 }

-- A site to which two domains were attached, one after the other.
abbrev two : Meta
two = attach_domain bare (codes "t2") 20 false (attach_domain www (codes "t1") 10 false plain)

abbrev two_redirected : Meta
two_redirected = record two { domain_redirects = (bare, to_www) ∷ [] }

accepted : apply_redirect bare (some to_www) two ≡ ok two_redirected
unfolding apply_redirect attach_domain contains sitebin_io.Base.str_eq sitebin_io.Base.lookup
    sitebin_io.Routing.endpoint_ok sitebin_io.Routing.redirect_source sitebin_io.Base.insert
accepted = refl

chained :
    apply_redirect www (some (record { to = bare; code = 0 })) two_redirected ≡ err bad_redirect
unfolding apply_redirect attach_domain contains sitebin_io.Base.str_eq sitebin_io.Base.lookup
chained = refl

Reach-IsSound_example : IsSound two_redirected
Reach-IsSound_example = Reach-IsSound (IsSound-fresh plain refl refl refl) (
    Reach.next
      (Reach.next (Reach.next Reach.here (Step.attach plain www (codes "t1") 10 false))
        (Step.attach (attach_domain www (codes "t1") 10 false plain) bare (codes "t2") 20 false))
      (Step.redirect two two_redirected bare (some to_www) accepted))

apply_redirect-TakesEffect_example : TakesEffect bare to_www two two_redirected
apply_redirect-TakesEffect_example =
    apply_redirect-TakesEffect bare to_www two two_redirected accepted

redirects : domain_redirect redirected (codes "A.de.") ≡ some (record { to = www; code = 308 })
unfolding domain_redirect contains sitebin_io.Base.str_eq host_key sitebin_io.Text.to_lower
    sitebin_io.Text.trim_suffix sitebin_io.Base.lookup sitebin_io.Routing.followable
    sitebin_io.Routing.endpoint_ok
redirects = refl

www_key : host_key (codes "WWW.a.de") ≡ www
unfolding host_key sitebin_io.Text.to_lower sitebin_io.Text.trim_suffix
www_key = refl

domain_redirect_one_hop_example :
    (serves redirected www ≡ true)
    × (contains www redirected.custom_domains ≡ true)
    × (domain_redirect redirected (codes "WWW.a.de") ≡ none)
domain_redirect_one_hop_example =
    domain_redirect_one_hop redirected (codes "A.de.") (codes "WWW.a.de")
      (record { to = www; code = 308 }) redirects www_key

view_rule-Reaches_example : Reaches redirected (Serving redirected) (view_rule redirected)
view_rule-Reaches_example = view_rule-Reaches redirected

abbrev left_over : Meta
left_over = record redirected { custom_domains = bare ∷ []; domain_redirects = [] }

removed : remove_domain www redirected ≡ ok left_over
unfolding remove_domain contains sitebin_io.Base.str_eq sitebin_io.Redirects.drop_address_rules
    sitebin_io.Redirects.drop_redirects_to sitebin_io.Routing.serving_domains sitebin_io.Base.delete
    serves sitebin_io.Routing.redirects_away sitebin_io.Base.lookup sitebin_io.Routing.endpoint_ok
removed = refl

remove_domain-IsForgotten_example : IsForgotten www left_over
remove_domain-IsForgotten_example = remove_domain-IsForgotten www redirected left_over removed

-- The first draw is taken by an address.
draws :
    free_label 2
      (λ n. if n == 0 then codes "shop" else codes "fresh")
      (λ l. str_eq l www)
      (web_address ∷ [])
      0
    ≡ some (codes "fresh", 2)
unfolding free_label str_eq
draws = refl
