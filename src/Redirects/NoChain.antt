-- ===== src/Redirects/NoChain.antt =====
-- The setters never write a chain of redirects.
use sitebin_io.Base.{
  ◌≡◌, refl, true, false, List, [], ◌∷◌, Option, none, some, arith, Str, str_eq, str_eq_iff,
  contains, lookup, insert, delete, lookup-insert, lookup-delete, any, ok, if◌then◌else◌,
}
use sitebin_io.Meta.{Meta, Redirect}
use sitebin_io.Routing.{redirect_source, endpoint_ok}
use sitebin_io.Redirects.{
  apply_redirect, drop_address_rules, drop_domain_rules, drop_view_rule, drop_redirects_to,
}

-- No stored redirect leads to a domain that has one.
abbrev pub NoChain : Meta → Type 0
NoChain m =
    (d : Str) (r : Redirect)
    → lookup d m.domain_redirects ≡ some r
    → lookup r.to m.domain_redirects ≡ none

any-lookup :
    (d x : Str) (r : Redirect) (rules : List (Str × Redirect))
    → any (λ (from, s). str_eq s.to d) rules ≡ false
    → lookup x rules ≡ some r
    → str_eq r.to d ≡ false
unfolding lookup
any-lookup d x r [] n h = absurd (ground arith)
any-lookup d x r ((y, s) ∷ rules) n h = ground (arith, any-lookup d x r rules)

-- What nothing redirects to is no rule's target.
pub redirect_source-lookup :
    (m : Meta) (d x : Str) (r : Redirect)
    → redirect_source m d ≡ false
    → lookup x m.domain_redirects ≡ some r
    → str_eq r.to d ≡ false
unfolding redirect_source
redirect_source-lookup m d x r n h = any-lookup d x r m.domain_redirects (ground arith) h

insert-NoChain :
    (m : Meta) (d : Str) (r : Redirect)
    → NoChain m
    → str_eq r.to d ≡ false
    → lookup r.to m.domain_redirects ≡ none
    → redirect_source m d ≡ false
    → NoChain (record m { domain_redirects = insert d r m.domain_redirects })
insert-NoChain m d r inv self target source x s h = ground (
  arith,
  lookup-insert d x r m.domain_redirects,
  lookup-insert d s.to r m.domain_redirects,
  str_eq_iff d x,
  str_eq_iff d s.to,
  str_eq_iff s.to d,
  str_eq_iff d r.to,
  str_eq_iff r.to d,
  inv x s,
  redirect_source-lookup m d x s,
)

-- What a redirect that was accepted had to pass, and what it wrote.
pub record Accepted (d : Str) (r : Redirect) (m m' : Meta) : Type 0 where
  pub attached : contains d m.custom_domains ≡ true
  pub not_self : str_eq r.to d ≡ false
  pub target_attached : contains r.to m.custom_domains ≡ true
  pub target_free : lookup r.to m.domain_redirects ≡ none
  pub target_endpoint : endpoint_ok m r.to ≡ true
  pub no_source : redirect_source m d ≡ false
  pub written : m' ≡ record m { domain_redirects = insert d r m.domain_redirects }

pub apply_redirect-Accepted :
    (d : Str) (r : Redirect) (m m' : Meta) → apply_redirect d (some r) m ≡ ok m' → Accepted d r m m'
unfolding apply_redirect
apply_redirect-Accepted d r m m' h = ground arith

delete-NoChain :
    (m : Meta) (d : Str)
    → NoChain m
    → NoChain (record m { domain_redirects = delete d m.domain_redirects })
delete-NoChain m d inv x s h =
    ground (
      arith,
      lookup-delete d x m.domain_redirects,
      lookup-delete d s.to m.domain_redirects,
      inv x s,
    )

-- Setting or clearing a redirect keeps the stored rules free of chains.
pub apply_redirect-NoChain :
    (d : Str) (target : Option Redirect) (m m' : Meta)
    → NoChain m
    → apply_redirect d target m ≡ ok m'
    → NoChain m'
unfolding apply_redirect
apply_redirect-NoChain d none m m' inv h =
    let e : m' ≡ record m { domain_redirects = delete d m.domain_redirects } = ground arith in
    rw e (delete-NoChain m d inv)
apply_redirect-NoChain d (some r) m m' inv h =
    let a = apply_redirect-Accepted d r m m' h in
    rw a.written (insert-NoChain m d r inv a.not_self a.target_free a.no_source)

-- What is left of a rule when the redirects to d are dropped.
abbrev pub unless_to : Str → Option Redirect → Option Redirect
unless_to d none = none
unless_to d (some r) = if str_eq r.to d then none else some r

pub lookup-drop_redirects_to :
    (d x : Str) (rules : List (Str × Redirect))
    → lookup x (drop_redirects_to d rules) ≡ unless_to d (lookup x rules)
unfolding lookup drop_redirects_to
lookup-drop_redirects_to d x [] = refl
lookup-drop_redirects_to d x ((y, s) ∷ rules) = ground (
  arith,
  lookup-drop_redirects_to d x rules,
  lookup-delete y x (drop_redirects_to d rules),
  str_eq_iff y x,
)

-- Dropping every redirect to d, and d's own.
drop_domain_rules-NoChain : (d : Str) (m : Meta) → NoChain m → NoChain (drop_domain_rules d m)
unfolding drop_domain_rules
drop_domain_rules-NoChain d m inv x s h = ground (
  arith,
  lookup-drop_redirects_to d x (delete d m.domain_redirects),
  lookup-drop_redirects_to d s.to (delete d m.domain_redirects),
  lookup-delete d x m.domain_redirects,
  lookup-delete d s.to m.domain_redirects,
  inv x s,
)

pub drop_address_rules-NoChain : (d : Str) (m : Meta) → NoChain m → NoChain (drop_address_rules d m)
unfolding drop_address_rules drop_view_rule
drop_address_rules-NoChain d m inv = drop_domain_rules-NoChain d m inv
