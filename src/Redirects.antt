-- ===== src/Redirects.antt =====
-- The setters of internal/store/redirects.go: a redirect of a custom domain, the rule of the
-- generated address of a file site, and what removing a domain forgets.
pub mod NoChain
pub mod Effect
use sitebin_io.Base.{
  ℕ, Bool, true, false, not, ◌&&◌, ◌||◌, List, [], ◌∷◌, Option, none, some, if◌then◌else◌, ◌==◌,
  Str, str_eq, contains, lookup, insert, delete, is_some, map, keep_if, Error, bad_redirect,
  not_found, Result, ok, err, ◌>>=◌, ◌>>◌, require,
}
use sitebin_io.Text.{trim_space}
use sitebin_io.DomainName.{normalize_address}
use sitebin_io.Meta.{
  Meta, Time, Redirect, ViewAddress, Address, RuleMode, serve, off, redirect, unset, other,
  is_container,
}
use sitebin_io.Routing.{
  code_or_default, endpoint_ok, serving_domains, serves_endpoint, redirect_source, off_rule,
  redirect_rule, is_empty, redirects_to,
}
use sitebin_io.Store.{WriteEnds, Site, update}

-- `RedirectCodes`.
unfoldable pub is_redirect_code : ℕ → Bool
is_redirect_code code = code == 301 || code == 302 || code == 307 || code == 308

abbrev pub or_err {ℓ} : {A : Type ℓ} → Result A → Error → Result A
or_err (ok a) e = ok a
or_err (err _) e = err e

unfoldable pub redirect_target : Str → ℕ → Result (Str × ℕ)
redirect_target to code = do
  t ← or_err (normalize_address to) bad_redirect
  require (is_redirect_code (code_or_default code)) bad_redirect
  ok (t, code_or_default code)

unfoldable pub check_target : Meta → Str → Result (Unit {0})
check_target m t = do
  require (contains t m.custom_domains) bad_redirect
  require (not (is_some (lookup t m.domain_redirects))) bad_redirect
  require (endpoint_ok m t) bad_redirect

unfoldable pub rule_target : RuleMode → Str → ℕ → Result (Str × ℕ)
unfolding redirect_target
rule_target redirect to code = do
  require (not (str_eq (trim_space to) [])) bad_redirect
  redirect_target to code
rule_target other to code = err bad_redirect
rule_target _ to code = ok ([], 0)

-- The closure of `SetDomainRedirect`; `target` is the redirect to store, nothing to serve again.
unfoldable pub apply_redirect : Str → Option Redirect → Meta → Result Meta
unfolding check_target
apply_redirect d none m = do
  require (is_some (lookup d m.domain_redirects) || contains d m.custom_domains) not_found
  ok (record m { domain_redirects = delete d m.domain_redirects })
apply_redirect d (some r) m = do
  require (contains d m.custom_domains) not_found
  require (not (str_eq r.to d)) bad_redirect
  check_target m r.to
  require (not (redirect_source m d)) bad_redirect
  ok (record m { domain_redirects = insert d r m.domain_redirects })

-- The target of `SetDomainRedirect`, read before the site is.
unfoldable pub parse_redirect : Str → ℕ → Result (Option Redirect)
unfolding redirect_target
parse_redirect to code =
    if str_eq (trim_space to) []
    then ok none
    else (do (t, c) ← redirect_target to code; ok (some (record { to = t; code = c })))

unfoldable pub redirect_request : Str → Str → ℕ → Result (Str × Option Redirect)
unfolding parse_redirect
redirect_request domain to code = do
  d ← or_err (normalize_address domain) not_found
  r ← parse_redirect to code
  ok (d, r)

-- The outcome of the disk is given first: when the write happens, and whether it succeeds.
unfoldable pub set_domain_redirect :
    Time → WriteEnds → Str → Str → ℕ → Site → Result (Unit {0}) × Site
unfolding update apply_redirect redirect_request
set_domain_redirect now ends domain to code site = elim (redirect_request domain to code) [
  | err e ↦ (err e, site)
  | ok (d, r) ↦ update now ends (apply_redirect d r) site
]

-- The closure of `SetViewAddress`.
unfoldable pub apply_view_address : RuleMode → Str → ℕ → Meta → Result Meta
unfolding check_target
apply_view_address mode target code m = do
  require (not (is_container m.mode)) bad_redirect
  elim mode [
    | off ↦ do
      require (not (is_empty (serving_domains m))) bad_redirect
      ok (record m { view_address = some off_rule })
    | redirect ↦ do
      check_target m target
      ok (record m { view_address = some (redirect_rule target code) })
    | _ ↦ ok (record m { view_address = none })
  ]

unfoldable pub set_view_address :
    Time → WriteEnds → RuleMode → Str → ℕ → Site → Result (Unit {0}) × Site
unfolding update apply_view_address rule_target
set_view_address now ends mode to code site = elim (rule_target mode to code) [
  | err e ↦ (err e, site)
  | ok (target, c) ↦ update now ends (apply_view_address mode target c) site
]

-- The stored rule of a generated address after domain d is gone: a redirect to d is forgotten, and
-- an off that nothing is left to justify.
abbrev pub prune_rule : Str → Bool → Option ViewAddress → Option ViewAddress
prune_rule d covered none = none
prune_rule d covered (some rule) = elim rule.mode [
  | redirect ↦ if str_eq rule.to d then none else some rule
  | off ↦ if covered then some rule else none
  | _ ↦ some rule
]

unfoldable pub drop_redirects_to : Str → List (Str × Redirect) → List (Str × Redirect)
drop_redirects_to d [] = []
drop_redirects_to d ((from, r) ∷ rules) =
    let rest = drop_redirects_to d rules in
    if str_eq r.to d then delete from rest else (from, r) ∷ rest

-- The meta as the loop over the addresses finds it: the domain's own entries are gone already.
unfoldable pub drop_domain_rules : Str → Meta → Meta
drop_domain_rules d m = record m {
  domain_redirects = drop_redirects_to d (delete d m.domain_redirects);
}

unfoldable pub drop_view_rule : Str → Meta → Meta
drop_view_rule d m = record m {
  view_address = prune_rule d (not (is_empty (serving_domains m))) m.view_address;
  domain_targets = delete d m.domain_targets;
}

unfoldable pub drop_rules_of : Str → Meta → List Address → List Address
drop_rules_of d m [] = []
drop_rules_of d m (a ∷ more) =
    record a { rule = prune_rule d (serves_endpoint m a.endpoint) a.rule } ∷ drop_rules_of d m more

-- `dropAddressRules`.
unfoldable pub drop_address_rules : Str → Meta → Meta
unfolding drop_domain_rules drop_view_rule drop_rules_of
drop_address_rules d m =
    let m' = drop_view_rule d (drop_domain_rules d m) in
    record m' { addresses = drop_rules_of d m' m'.addresses }
