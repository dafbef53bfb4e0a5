-- ===== src/Routing/OneHop.antt =====
-- Where the redirects in effect lead, for every stored state (also one that the sweep's detachments
-- left behind).
use sitebin_io.Base.{◌≡◌, inl, inr, true, none, some, Option-cases, arith, Str, contains, lookup}
use sitebin_io.Meta.{Meta, Redirect}
use sitebin_io.Routing.{followable, redirects_away, serves, host_key, domain_redirect}

pub followable-serves :
    (m : Meta) (d : Str) (r : Redirect) → followable m d r ≡ true → serves m r.to ≡ true
unfolding followable serves redirects_away
followable-serves m d r h = ground arith

-- A domain that serves answers no redirect, under any spelling of the host.
pub serves-domain_redirect :
    (m : Meta) (d host : Str)
    → serves m d ≡ true
    → host_key host ≡ d
    → domain_redirect m host ≡ none
unfolding serves redirects_away domain_redirect
serves-domain_redirect m d host h e = rw e (ground arith)

domain_redirect-serves :
    (m : Meta) (host : Str) (r : Redirect) → domain_redirect m host ≡ some r → serves m r.to ≡ true
unfolding domain_redirect
domain_redirect-serves m host r h =
    elim (Option-cases (lookup (host_key host) m.domain_redirects)) [
      | inl n ↦ absurd (ground arith)
      | inr (s, e) ↦ ground (arith, followable-serves m (host_key host) s)
    ]

-- A redirect that a custom domain answers with leads to an attached domain that serves the site:
-- that domain answers no redirect itself, however the host is spelled, so there is one hop.
pub domain_redirect_one_hop :
    (m : Meta) (host next : Str) (r : Redirect)
    → domain_redirect m host ≡ some r
    → host_key next ≡ r.to
    → (serves m r.to ≡ true)
      × (contains r.to m.custom_domains ≡ true)
      × (domain_redirect m next ≡ none)
unfolding serves
domain_redirect_one_hop m host next r h e =
    let s = domain_redirect-serves m host r h in
    (s, ground arith, serves-domain_redirect m r.to next s e)
