-- ===== src/Routing/Online.antt =====
-- Where the rule of a generated address leads: switched off only while a custom domain serves, and
-- redirecting only to one that does.
use sitebin_io.Base.{
  ◌≡◌, refl, inl, inr, Bool, true, false, not, ◌&&◌, Bool-cases, List, [], ◌∷◌, Option, none, some,
  Option-cases, arith, Str, str_eq, str_eq_iff, any, keep_if,
}
use sitebin_io.Meta.{Meta, ViewAddress, Address, RuleMode, serve, off, redirect, is_container}
use sitebin_io.Routing.{
  serves, target_of, serves_endpoint, rule_in_effect, stored_rule, address_rule, label_rule,
  address_by_label, view_rule, serving_domains, is_empty,
}

-- A custom domain of the site that serves it.
abbrev pub Serving : Meta → Type 0
Serving m = (d : Str) × (serves m d ≡ true)

-- A custom domain of the site that serves this very port.
abbrev pub ServingEndpoint : Meta → Str → Type 0
ServingEndpoint m endpoint = (d : Str) × (serves m d ≡ true) × (target_of m d ≡ endpoint)

-- What rule v of a generated address leaves a visitor: `Covered` where it is off, a target that
-- serves where it redirects.
abbrev LeadsOn : Meta → Type 0 → ViewAddress → RuleMode → Type 0
LeadsOn m Covered v off = Covered
LeadsOn m Covered v redirect = serves m v.to ≡ true
LeadsOn m Covered v _ = Unit

abbrev pub Reaches : Meta → Type 0 → ViewAddress → Type 0
Reaches m Covered v = LeadsOn m Covered v v.mode

keep_if-Serving : (m : Meta) (ds : List Str) → is_empty (keep_if (serves m) ds) ≡ false → Serving m
keep_if-Serving m [] h = absurd (ground arith)
keep_if-Serving m (d ∷ ds) h = elim (Bool-cases (serves m d)) [
  | inl e ↦ (d, e)
  | inr e ↦ keep_if-Serving m ds (rw e at h)
]

any-Serving :
    (m : Meta) (endpoint : Str) (ds : List Str)
    → any (λ d. str_eq (target_of m d) endpoint && serves m d) ds ≡ true
    → ServingEndpoint m endpoint
any-Serving m endpoint [] h = absurd (ground arith)
any-Serving m endpoint (d ∷ ds) h =
    elim (Bool-cases (str_eq (target_of m d) endpoint && serves m d)) [
      | inl e ↦ (d, ground arith, (str_eq_iff _ _).0 (ground arith))
      | inr e ↦ any-Serving m endpoint ds (rw e at h)
    ]

-- A domain that makes `serves_endpoint` true serves that very endpoint.
pub serves_endpoint-Serving :
    (m : Meta) (endpoint : Str) → serves_endpoint m endpoint ≡ true → ServingEndpoint m endpoint
unfolding serves_endpoint
serves_endpoint-Serving m endpoint h = any-Serving m endpoint m.custom_domains h

module _ (m : Meta) (Covered : Type 0) where
  rule_in_effect-LeadsOn :
      (covered : Bool) (rule : ViewAddress) (mode : RuleMode)
      → (covered ≡ true → Covered)
      → Reaches m Covered (rule_in_effect m covered rule mode)
  unfolding rule_in_effect
  rule_in_effect-LeadsOn true rule off k = k refl
  rule_in_effect-LeadsOn false rule off k = tt
  rule_in_effect-LeadsOn covered rule redirect k = elim (Bool-cases (serves m rule.to)) [
    | inl e ↦ rw e e
    | inr e ↦ rw e tt
  ]
  rule_in_effect-LeadsOn covered rule serve k = tt
  rule_in_effect-LeadsOn covered rule _ k = tt

  stored_rule-Reaches :
      (covered : Bool) (rule : Option ViewAddress)
      → (covered ≡ true → Covered)
      → Reaches m Covered (stored_rule m covered rule)
  unfolding stored_rule
  stored_rule-Reaches covered none k = tt
  stored_rule-Reaches covered (some rule) k = rule_in_effect-LeadsOn covered rule rule.mode k

-- The rule in effect of a container site's generated address is off only while a custom domain
-- serves the very port of the address, and redirects only to a domain that serves the site.
address_rule-Reaches :
    (m : Meta) (a : Address) → Reaches m (ServingEndpoint m a.endpoint) (address_rule m a)
unfolding address_rule
address_rule-Reaches m a =
    stored_rule-Reaches m _ (serves_endpoint m a.endpoint) a.rule
      (serves_endpoint-Serving m a.endpoint)

LeadsOn-weaken :
    (m : Meta) (P Q : Type 0) (v : ViewAddress) (mode : RuleMode)
    → (P → Q)
    → LeadsOn m P v mode
    → LeadsOn m Q v mode
LeadsOn-weaken m P Q v off k h = k h
LeadsOn-weaken m P Q v redirect k h = h
LeadsOn-weaken m P Q v _ k h = tt

label_rule-Reaches : (m : Meta) (label : Str) → Reaches m (Serving m) (label_rule m label)
unfolding label_rule
label_rule-Reaches m label = elim (Option-cases (address_by_label m label)) [
  | inl e ↦ rw (e, label_rule) tt
  | inr (a, e) ↦
      rw (e, label_rule)
        (LeadsOn-weaken m _ _ (address_rule m a) (address_rule m a).mode (λ (d, s, _). (d, s))
          (address_rule-Reaches m a))
]

not_empty-Serving : (m : Meta) → not (is_empty (serving_domains m)) ≡ true → Serving m
unfolding serving_domains
not_empty-Serving m h = keep_if-Serving m m.custom_domains (ground arith)

-- The site's own generated address is never switched off and never redirects away unless a custom
-- domain serves the site at that moment: the site is not taken offline by its stored rule.
pub view_rule-Reaches : (m : Meta) → Reaches m (Serving m) (view_rule m)
unfolding view_rule
view_rule-Reaches m = elim (Bool-cases (is_container m.mode)) [
  | inl e ↦ rw e (label_rule-Reaches m m.id)
  | inr e ↦ rw e (stored_rule-Reaches m _ _ m.view_address (not_empty-Serving m))
]
