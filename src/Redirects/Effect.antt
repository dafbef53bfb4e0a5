-- ===== src/Redirects/Effect.antt =====
-- What setting, clearing and removing a redirect change in effect, and what they leave alone.
use sitebin_io.Base.{
  ◌≡◌, ◌≢◌, refl, inl, inr, true, List, some, Option-cases, arith, Str, str_eq, str_eq_iff, lookup,
  insert, lookup-insert, ok, if◌then◌else◌,
}
use sitebin_io.Meta.{Meta, Redirect}
use sitebin_io.Routing.{
  endpoint_ok, has_endpoint, target_of, followable, redirects_away, serves, domain_redirect,
  host_key, code_or_default,
}
use sitebin_io.Routing.OneHop.{followable-serves}
use sitebin_io.Redirects.{apply_redirect}
use sitebin_io.Redirects.NoChain.{Accepted, apply_redirect-Accepted, redirect_source-lookup}

abbrev with_redirects : Meta → List (Str × Redirect) → Meta
with_redirects m rules = record m { domain_redirects = rules }

-- The ports do not depend on the stored redirects.
endpoint_ok-with_redirects :
    (m : Meta) (rules : List (Str × Redirect)) (d : Str)
    → endpoint_ok (with_redirects m rules) d ≡ endpoint_ok m d
unfolding endpoint_ok has_endpoint target_of
endpoint_ok-with_redirects m rules d = refl

module _ (m : Meta) (d : Str) (r : Redirect) (m' : Meta) (a : Accepted d r m m') where
  followable-new : followable m' d r ≡ true
  unfolding followable
  followable-new = rw a.written (
      ground (
        arith,
        a.not_self,
        a.target_attached,
        a.target_endpoint,
        a.target_free,
        lookup-insert d r.to r m.domain_redirects,
        str_eq_iff d r.to,
        str_eq_iff r.to d,
        endpoint_ok-with_redirects m (insert d r m.domain_redirects) r.to,
      ))

  -- Another domain's rule is followed exactly as before: none of them leads to d.
  followable-other :
      (e : Str) (s : Redirect)
      → lookup e m.domain_redirects ≡ some s
      → followable m' e s ≡ followable m e s
  unfolding followable
  followable-other e s h = rw a.written (
      ground (
        arith,
        redirect_source-lookup m d e s a.no_source h,
        lookup-insert d s.to r m.domain_redirects,
        str_eq_iff d s.to,
        str_eq_iff s.to d,
        endpoint_ok-with_redirects m (insert d r m.domain_redirects) s.to,
      ))

  redirects_away-other : (e : Str) → e ≢ d → redirects_away m' e ≡ redirects_away m e
  unfolding redirects_away
  redirects_away-other e ne = elim (Option-cases (lookup e m.domain_redirects)) [
    | inl n ↦ ground (arith, n, a.written, lookup-insert d e r m.domain_redirects, str_eq_iff d e)
    | inr (s, h) ↦ ground (
      arith,
      h,
      a.written,
      lookup-insert d e r m.domain_redirects,
      str_eq_iff d e,
      followable-other e s h,
    )
  ]

  custom_domains-written : m'.custom_domains ≡ m.custom_domains
  custom_domains-written = rw a.written

  lookup-written :
      (e : Str)
      → lookup e m'.domain_redirects ≡ (if str_eq d e then some r else lookup e m.domain_redirects)
  lookup-written e = rw a.written (lookup-insert d e r m.domain_redirects)

  endpoint_ok-written : (e : Str) → endpoint_ok m' e ≡ endpoint_ok m e
  endpoint_ok-written e = rw a.written (endpoint_ok-with_redirects m _ e)

  serves-other : (e : Str) → e ≢ d → serves m' e ≡ serves m e
  unfolding serves
  serves-other e ne =
      simp (custom_domains-written, redirects_away-other e ne, endpoint_ok-written e)

  domain_redirect-set :
      (host : Str)
      → host_key host ≡ d
      → domain_redirect m' host ≡ some (record { to = r.to; code = code_or_default r.code })
  unfolding domain_redirect
  domain_redirect-set host e = ground (
    arith,
    e,
    custom_domains-written,
    a.attached,
    lookup-written (host_key host),
    str_eq_iff d (host_key host),
    followable-new,
  )

  domain_redirect-other :
      (host : Str) → host_key host ≢ d → domain_redirect m' host ≡ domain_redirect m host
  unfolding domain_redirect
  domain_redirect-other host ne = elim (Option-cases (lookup (host_key host) m.domain_redirects)) [
    | inl n ↦ ground (
      arith,
      n,
      custom_domains-written,
      lookup-written (host_key host),
      str_eq_iff d (host_key host),
    )
    | inr (s, h) ↦ ground (
      arith,
      h,
      custom_domains-written,
      lookup-written (host_key host),
      str_eq_iff d (host_key host),
      followable-other (host_key host) s h,
    )
  ]

-- What a visitor of `host` gets, before and after domain d is set to redirect to r.
abbrev pub TakesEffect : Str → Redirect → Meta → Meta → Type 0
TakesEffect d r m m' =
    ((host : Str)
      → host_key host ≡ d
      → domain_redirect m' host ≡ some (record { to = r.to; code = code_or_default r.code }))
    × ((host : Str) → host_key host ≢ d → domain_redirect m' host ≡ domain_redirect m host)
    × ((e : Str) → e ≢ d → serves m' e ≡ serves m e)
    × (serves m' r.to ≡ true)

-- A redirect that is accepted takes effect at once on the domain it is set for, with the code 301
-- where none was chosen; what every other domain answers stays the same, and the target serves.
pub apply_redirect-TakesEffect :
    (d : Str) (r : Redirect) (m m' : Meta)
    → apply_redirect d (some r) m ≡ ok m'
    → TakesEffect d r m m'
apply_redirect-TakesEffect d r m m' h =
    let a = apply_redirect-Accepted d r m m' h in
    (
      domain_redirect-set m d r m' a,
      domain_redirect-other m d r m' a,
      serves-other m d r m' a,
      followable-serves m' d r (followable-new m d r m' a),
    )
