-- ===== src/Routing.antt =====
-- The questions that internal/store/redirects.go and addresses.go answer about a site's addresses:
-- what is IN EFFECT now, decided from the stored rules and the domains attached now.
pub mod OneHop
pub mod Online
use sitebin_io.Base.{
  ℕ, Bool, true, false, not, ◌&&◌, ◌||◌, List, [], ◌∷◌, ◌++◌, Option, none, some, if◌then◌else◌,
  ◌==◌, Str, codes, str_eq, contains, lookup, any, find, keep_if, is_some, map, length, Error,
  bad_redirect, Result, ok, err, ◌>>=◌, ◌>>◌, require,
}
use sitebin_io.Text.{to_lower, trim_suffix}
use sitebin_io.Meta.{
  Meta, Redirect, ViewAddress, Address, DomainClaim, RuleMode, serve, off, redirect, unset, other,
  is_container,
}

abbrev pub default_redirect_code : ℕ
default_redirect_code = 301

unfoldable pub code_or_default : ℕ → ℕ
code_or_default code = if code == 0 then default_redirect_code else code

-- `m.DomainTargets[d]`, "" for a domain that has none.
unfoldable pub target_of : Meta → Str → Str
target_of m d = elim (lookup d m.domain_targets) [ none ↦ [] | some e ↦ e ]

unfoldable pub has_endpoint : Meta → Str → Bool
has_endpoint m endpoint =
    not (str_eq endpoint []) && any (λ a. str_eq a.endpoint endpoint) m.addresses

-- `m.Mode != ModeContainer || m.HasEndpoint(m.DomainTargets[d])`.
unfoldable pub endpoint_ok : Meta → Str → Bool
endpoint_ok m d = not (is_container m.mode) || has_endpoint m (target_of m d)

unfoldable pub followable : Meta → Str → Redirect → Bool
followable m from r =
    not (str_eq r.to from || not (contains r.to m.custom_domains))
    && not (is_some (lookup r.to m.domain_redirects))
    && endpoint_ok m r.to

-- Whether d's own stored rule is in effect.
unfoldable pub redirects_away : Meta → Str → Bool
redirects_away m d = elim (lookup d m.domain_redirects) [ none ↦ false | some r ↦ followable m d r ]

unfoldable pub serves : Meta → Str → Bool
serves m d = contains d m.custom_domains && not (redirects_away m d) && endpoint_ok m d

-- A request's host, as it is looked up.
unfoldable pub host_key : Str → Str
host_key host = to_lower (trim_suffix host (codes "."))

unfoldable pub domain_redirect : Meta → Str → Option Redirect
unfolding code_or_default
domain_redirect m host =
    let d = host_key host in
    if contains d m.custom_domains
    then elim (lookup d m.domain_redirects) [
      | none ↦ none
      | some r ↦
          if followable m d r
          then some (record { to = r.to; code = code_or_default r.code })
          else none
    ]
    else none

unfoldable pub serving_domains : Meta → List Str
serving_domains m = keep_if (serves m) m.custom_domains

unfoldable pub serves_endpoint : Meta → Str → Bool
serves_endpoint m endpoint =
    any (λ d. str_eq (target_of m d) endpoint && serves m d) m.custom_domains

abbrev pub serve_rule : ViewAddress
serve_rule = record { mode = serve; to = []; code = 0 }

abbrev pub off_rule : ViewAddress
off_rule = record { mode = off; to = []; code = 0 }

abbrev pub redirect_rule : Str → ℕ → ViewAddress
redirect_rule to code = record { mode = redirect; to = to; code = code }

-- The `switch` of `ViewRule` and of `AddressRule`: a stored rule while it is in effect, off only
-- while `covered`, a redirect while its target serves.
unfoldable pub rule_in_effect : Meta → Bool → ViewAddress → RuleMode → ViewAddress
unfolding code_or_default
rule_in_effect m covered rule off = if covered then off_rule else serve_rule
rule_in_effect m covered rule redirect =
    if serves m rule.to then redirect_rule rule.to (code_or_default rule.code) else serve_rule
rule_in_effect m covered rule _ = serve_rule

-- A nil rule serves.
unfoldable pub stored_rule : Meta → Bool → Option ViewAddress → ViewAddress
unfolding rule_in_effect
stored_rule m covered none = serve_rule
stored_rule m covered (some rule) = rule_in_effect m covered rule rule.mode

unfoldable pub address_rule : Meta → Address → ViewAddress
address_rule m a = stored_rule m (serves_endpoint m a.endpoint) a.rule

unfoldable pub address_by_label : Meta → Str → Option Address
address_by_label m label = find (λ a. str_eq a.label (to_lower label)) m.addresses

unfoldable pub label_rule : Meta → Str → ViewAddress
label_rule m label = elim (address_by_label m label) [
  | none ↦ serve_rule
  | some a ↦ address_rule m a
]

abbrev pub is_empty {ℓ} : {A : Type ℓ} → List A → Bool
is_empty [] = true
is_empty (x ∷ xs) = false

unfoldable pub view_rule : Meta → ViewAddress
view_rule m =
    if is_container m.mode
    then label_rule m m.id
    else stored_rule m (not (is_empty (serving_domains m))) m.view_address

abbrev pub redirects_to : Str → RuleMode → Str → Bool
redirects_to d redirect to = str_eq to d
redirects_to d _ to = false

abbrev pub rule_redirects_to : Str → Option ViewAddress → Bool
rule_redirects_to d none = false
rule_redirects_to d (some rule) = redirects_to d rule.mode rule.to

-- `redirectSource(d) != ""`: a stored rule of a domain, of a file site's generated address or of
-- one of the generated addresses redirects to d.
unfoldable pub redirect_source : Meta → Str → Bool
redirect_source m d =
    any (λ (from, r). str_eq r.to d) m.domain_redirects
    || not (is_container m.mode) && rule_redirects_to d m.view_address
    || any (λ a. rule_redirects_to d a.rule) m.addresses

-- `DomainEndpoint`: the port an attached domain of a container site serves now.
unfoldable pub domain_endpoint : Meta → Str → Str
domain_endpoint m domain =
    let d = host_key domain in
    if contains d m.custom_domains && has_endpoint m (target_of m d) then target_of m d else []

-- `mainEndpoint`: the port of the site's own address, else the first.
unfoldable pub main_endpoint : Meta → Str
main_endpoint m = elim (address_by_label m m.id) [
  | none ↦ elim m.addresses [ [] ↦ [] | a ∷ rest ↦ a.endpoint ]
  | some a ↦ a.endpoint
]

unfoldable pub add_claimed : List Str → List DomainClaim → List Str
add_claimed out [] = out
add_claimed out (c ∷ cs) =
    add_claimed (if contains c.domain out then out else out ++ c.domain ∷ []) cs

unfoldable pub claimed_domains : Meta → List Str
unfolding add_claimed
claimed_domains m = add_claimed m.custom_domains m.domain_claims
