-- ===== src/Addresses.antt =====
-- The operations of internal/store/addresses.go on the generated addresses of a container site.
-- A random label is drawn from a stream of ids, an argument; `used` tells the labels that another
-- site or the index holds.
pub mod Labels
use sitebin_io.Base.{
  ℕ, zero, suc, ◌+◌, ◌*◌, ◌-◌, Bool, true, not, ◌&&◌, ◌||◌, List, [], ◌∷◌, ◌++◌, Option, none, some,
  if◌then◌else◌, leb, ◌==◌, Str, str_eq, contains, lookup, insert, delete, any, is_some, Error,
  bad_redirect, bad_target, no_free_label, not_found, Result, ok, err, ◌>>=◌, ◌>>◌, require,
}
use sitebin_io.Text.{cut}
use sitebin_io.DomainName.{is_digit, normalize_address}
use sitebin_io.Meta.{Meta, Time, ViewAddress, Address, RuleMode, off, redirect, is_container}
use sitebin_io.Routing.{
  has_endpoint, serves_endpoint, main_endpoint, claimed_domains, off_rule, redirect_rule,
}
use sitebin_io.Redirects.{check_target, rule_target, or_err}
use sitebin_io.Store.{WriteEnds, Site, update}

-- The digits of `strconv.Atoi`; a value out of its range fails here by its size as well.
decimal : ℕ → Str → Option ℕ
decimal acc [] = some acc
decimal acc (c ∷ s) =
    let rest = decimal (acc * 10 + (c - b'0')) s in if is_digit c then rest else none

-- A minus sign gives no positive number, so it is no port either.
parse_port : Str → Option ℕ
unfolding decimal
parse_port [] = none
parse_port (c ∷ []) = decimal 0 (c ∷ [])
parse_port (c ∷ s) = if c == b'+' then decimal 0 s else decimal 0 (c ∷ s)

-- `SplitEndpoint` of "service:port".
unfoldable pub split_endpoint : Str → Option (Str × ℕ)
unfolding parse_port
split_endpoint endpoint =
    let (name, port) = cut b':' endpoint in
    if str_eq name [] then none else elim port [
      | none ↦ none
      | some p ↦ elim (parse_port p) [
        | none ↦ none
        | some n ↦ if leb 1 n && leb n 65535 then some (name, n) else none
      ]
    ]

-- The map `kept`, from each endpoint to its address now.
unfoldable pub keep_all : List (Str × Address) → List Address → List (Str × Address)
keep_all kept [] = kept
keep_all kept (a ∷ more) = keep_all (insert a.endpoint a kept) more

abbrev pub Matched : Type 0
Matched = List Address × List (Str × Address)

abbrev pub new_address : Str → Address
new_address e = record { endpoint = e; label = []; rule = none }

-- One round of the loop over the declared endpoints.
unfoldable pub match_endpoint : Str → Matched → Matched
match_endpoint e (next, kept) =
    if not (is_some (split_endpoint e)) || any (λ a. str_eq a.endpoint e) next
    then (next, kept)
    else elim (lookup e kept) [
      | some a ↦ (next ++ a ∷ [], delete e kept)
      | none ↦ (next ++ new_address e ∷ [], kept)
    ]

unfoldable pub match_endpoints : List Str → Matched → Matched
unfolding match_endpoint
match_endpoints [] st = st
match_endpoints (e ∷ es) st = match_endpoints es (match_endpoint e st)

-- The labels that lose their address.
unfoldable pub dropped_labels : Str → List (Str × Address) → List Str
dropped_labels own [] = []
dropped_labels own ((e, a) ∷ kept) =
    let rest = dropped_labels own kept in if str_eq a.label own then rest else a.label ∷ rest

-- `freeLabel`, with the tries that are left and the next draw: the label and the draw after it.
unfoldable pub free_label : ℕ → (ℕ → Str) → (Str → Bool) → List Address → ℕ → Option (Str × ℕ)
free_label zero draw used taken n = none
free_label (suc tries) draw used taken n =
    let again = free_label tries draw used taken (n + 1) in
    if any (λ a. str_eq a.label (draw n)) taken || used (draw n)
    then again
    else some (draw n, n + 1)

abbrev with_label : Address → Str → Address
with_label a l = record a { label = l }

-- The loop that gives every address a label; `done` are the addresses before the current one.
unfoldable pub assign_labels :
    (ℕ → Str) → (Str → Bool) → Str → Bool → ℕ → List Address → List Address → Result (List Address)
unfolding free_label
assign_labels draw used id own n done [] = ok done
assign_labels draw used id own n done (a ∷ more) =
    let kept = assign_labels draw used id own n (done ++ a ∷ []) more in
    let own_label = assign_labels draw used id true n (done ++ with_label a id ∷ []) more in
    let drawn = (λ (l : Str) (n' : ℕ).
      assign_labels draw used id own n' (done ++ with_label a l ∷ []) more) in
    if not (str_eq a.label [])
    then kept
    else if not own
    then own_label
    else elim (free_label 8 draw used (done ++ a ∷ more) n) [
      | none ↦ err no_free_label
      | some (l, n') ↦ drawn l n'
    ]

-- A custom domain that has no target yet gets `main`.
unfoldable pub default_targets : Str → List Str → List (Str × Str) → List (Str × Str)
default_targets main [] targets = targets
default_targets main (d ∷ ds) targets = default_targets main ds (elim (lookup d targets) [
  | none ↦ insert d main targets
  | some e ↦ if str_eq e [] then insert d main targets else targets
])

-- The end of the closure of `SyncAddresses`: the main endpoint for the domains without a target.
unfoldable pub retarget : Meta → Meta
unfolding default_targets
retarget m =
    let main = main_endpoint m in
    if str_eq main []
    then m
    else record m { domain_targets = default_targets main (claimed_domains m) m.domain_targets }

-- The declared endpoints with what is kept of their addresses, and the addresses not kept.
unfoldable pub matched_addresses : List Str → Meta → Matched
unfolding match_endpoints keep_all
matched_addresses endpoints m = match_endpoints endpoints ([], keep_all [] m.addresses)

-- The new addresses; `own` is whether one of those kept has the site's own label.
unfoldable pub labelled_addresses :
    (ℕ → Str) → (Str → Bool) → List Str → Meta → Result (List Address)
unfolding assign_labels matched_addresses
labelled_addresses draw used endpoints m =
    let next = (matched_addresses endpoints m).0 in
    assign_labels draw used m.id (any (λ a. str_eq a.label m.id) next) 0 [] next

-- The closure of `SyncAddresses`: the labels to unlink, and the new meta. A site that left container
-- mode while its file was read is left alone.
unfoldable pub sync_addresses :
    (ℕ → Str) → (Str → Bool) → List Str → Meta → Result (List Str × Meta)
unfolding dropped_labels labelled_addresses retarget
sync_addresses draw used endpoints m =
    if is_container m.mode
    then (labelled_addresses draw used endpoints m >>= λ next. ok (
      dropped_labels m.id (matched_addresses endpoints m).1,
      retarget (record m { addresses = next }),
    ))
    else ok ([], m)

-- The closure of `ClearAddresses`.
unfoldable pub clear_addresses : Meta → Result Meta
clear_addresses m = ok (record m { addresses = []; domain_targets = [] })

-- The closure of `SetDomainTarget`.
unfoldable pub apply_domain_target : Str → Str → Meta → Result Meta
apply_domain_target d endpoint m = do
  require (is_container m.mode) bad_target
  require (contains d (claimed_domains m)) not_found
  require (has_endpoint m endpoint) bad_target
  ok (record m { domain_targets = insert d endpoint m.domain_targets })

unfoldable pub set_domain_target : Time → WriteEnds → Str → Str → Site → Result (Unit {0}) × Site
unfolding update apply_domain_target
set_domain_target now ends domain endpoint site =
    elim (or_err (normalize_address domain) not_found) [
      | err e ↦ (err e, site)
      | ok d ↦ update now ends (apply_domain_target d endpoint) site
    ]

-- `slices.IndexFunc` with the update at that index: the first address that passes.
unfoldable pub set_rule_of :
    (Address → Bool)
    → (Address → Result (Option ViewAddress))
    → Error
    → List Address
    → Result (List Address)
set_rule_of p f missing [] = err missing
set_rule_of p f missing (a ∷ more) =
    let here = (λ (r : Option ViewAddress). ok (record a { rule = r } ∷ more)) in
    let later = set_rule_of p f missing more in
    if p a then f a >>= here else later >>= λ rest. ok (a ∷ rest)

-- The rule to store for an address: the `switch` of `SetAddressRule`.
unfoldable pub new_rule : RuleMode → Str → ℕ → Meta → Address → Result (Option ViewAddress)
unfolding check_target
new_rule off target code m a = do
  require (serves_endpoint m a.endpoint) bad_redirect
  ok (some off_rule)
new_rule redirect target code m a = do check_target m target; ok (some (redirect_rule target code))
new_rule _ target code m a = ok none

abbrev pub is_named : Str → Str → Address → Bool
is_named own endpoint a =
    if str_eq endpoint [] then str_eq a.label own else str_eq a.endpoint endpoint

-- The addresses with the new rule; endpoint "" is the site's own address.
unfoldable pub ruled_addresses : Str → RuleMode → Str → ℕ → Meta → Result (List Address)
unfolding set_rule_of new_rule
ruled_addresses endpoint mode target code m =
    let missing = if str_eq endpoint [] then not_found else bad_target in
    set_rule_of (is_named m.id endpoint) (new_rule mode target code m) missing m.addresses

-- The closure of `SetAddressRule`.
unfoldable pub apply_address_rule : Str → RuleMode → Str → ℕ → Meta → Result Meta
unfolding ruled_addresses
apply_address_rule endpoint mode target code m =
    ruled_addresses endpoint mode target code m >>= λ addresses.
    ok (record m { addresses = addresses })

unfoldable pub set_address_rule :
    Time → WriteEnds → Str → RuleMode → Str → ℕ → Site → Result (Unit {0}) × Site
unfolding update apply_address_rule rule_target
set_address_rule now ends endpoint mode to code site = elim (rule_target mode to code) [
  | err e ↦ (err e, site)
  | ok (target, c) ↦ update now ends (apply_address_rule endpoint mode target c) site
]
