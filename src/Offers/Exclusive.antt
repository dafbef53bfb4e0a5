-- ===== src/Offers/Exclusive.antt =====
-- A site is in at most one offer that is not final, over every sequence of operations of the store.
use sitebin_io.Base.{
  ℕ, ◌≤◌, ◌≡◌, refl, inl, inr, Bool, true, false, not, ◌&&◌, Bool-cases, List, [], ◌∷◌, Option,
  none, some, arith, Str, str_eq, str_eq_iff, subst, contains, any, find, keep_if, is_some, length,
  Result, require, ok, >>=-eq-ok, not_found, no_sites,
}
use sitebin_io.Meta.{Time}
use sitebin_io.Offers.{
  Offer, Invite, Ownership, OfferState, is_final, valid_id, stamp_ended, write_offer, write_invite,
  held_elsewhere, check_sites_free, check_daily_limit, first_created, new_offer, has_sites,
  free_if_open, create_offer, or_missing, changed_offer, update_offer, create_invite, update_invite,
  prune_final, over_before,
}

-- An offer that is not final and names the site.
unfoldable pub holds : Str → Offer → Bool
holds site o = not (is_final o.state) && contains site o.sites

unfoldable pub holders : Str → List Offer → ℕ
unfolding holds
holders site offers = length (keep_if (holds site) offers)

-- Each offer has an end date exactly when it is final.
abbrev pub Stamped : List Offer → Type 0
Stamped [] = Unit
Stamped (o ∷ more) = (is_some o.ended_at ≡ is_final o.state) × Stamped more

pub record IsOrderly (site : Str) (s : Ownership) : Type 0 where
  pub one_offer : holders site s.offers ≤ 1
  pub stamped : Stamped s.offers

holders-keep_if :
    (site : Str) (q : Offer → Bool) (offers : List Offer)
    → holders site (keep_if q offers) ≤ holders site offers
unfolding holders
holders-keep_if site q [] = omega arith
holders-keep_if site q (o ∷ more) = ground (arith, holders-keep_if site q more)

Stamped-keep_if :
    (q : Offer → Bool) (offers : List Offer) → Stamped offers → Stamped (keep_if q offers)
Stamped-keep_if q [] h = tt
Stamped-keep_if q (o ∷ more) (n, h) = elim (Bool-cases (q o)) [
  | inl e ↦ rw e (n, Stamped-keep_if q more h)
  | inr e ↦ rw e (Stamped-keep_if q more h)
]

stamp_ended-is_some :
    (now : Time) (state : OfferState) (at : Option Time)
    → is_some (stamp_ended now state at) ≡ is_final state
unfolding stamp_ended
stamp_ended-is_some now state none = ground arith
stamp_ended-is_some now state (some t) = ground arith

-- Where no other offer holds the site, none is left beside the one that is written.
holders-elsewhere :
    (self site : Str) (offers : List Offer)
    → held_elsewhere self offers site ≡ false
    → holders site (keep_if (λ x. not (str_eq x.id self)) offers) ≡ 0
unfolding held_elsewhere holders holds
holders-elsewhere self site [] h = refl
holders-elsewhere self site (o ∷ more) h = ground (arith, holders-elsewhere self site more)

free_of_sites :
    (self site : Str) (offers : List Offer) (sites : List Str)
    → any (held_elsewhere self offers) sites ≡ false
    → contains site sites ≡ true
    → held_elsewhere self offers site ≡ false
unfolding contains
free_of_sites self site offers [] h c = absurd (ground arith)
free_of_sites self site offers (x ∷ more) h c = elim (Bool-cases (str_eq x site)) [
  | inl e ↦
      subst (λ d. held_elsewhere self offers d ≡ false) ((str_eq_iff x site).0 e) (ground arith)
  | inr e ↦ free_of_sites self site offers more (ground arith) (ground (arith, e))
]

write_offer-holders :
    (site : Str) (o : Offer) (s : Ownership)
    → free_if_open o s ≡ ok tt
    → holders site s.offers ≤ 1
    → holders site (write_offer o s).offers ≤ 1
unfolding write_offer check_sites_free holders holds
write_offer-holders site o s free i = elim (Bool-cases (holds site o)) [
  | inl e ↦
      let none_held =
        free_of_sites o.id site s.offers o.sites (ground (arith, e)) (ground (arith, e)) in
      ground (arith, e, holders-elsewhere o.id site s.offers none_held)
  | inr e ↦ ground (arith, e, holders-keep_if site (λ x. not (str_eq x.id o.id)) s.offers)
]

write_offer-IsOrderly :
    (site : Str) (o : Offer) (s : Ownership)
    → free_if_open o s ≡ ok tt
    → is_some o.ended_at ≡ is_final o.state
    → IsOrderly site s
    → IsOrderly site (write_offer o s)
write_offer-IsOrderly site o s free stamp i = record {
  one_offer = write_offer-holders site o s free i.one_offer;
  stamped =
      unfold write_offer in
      (stamp, Stamped-keep_if (λ x. not (str_eq x.id o.id)) s.offers i.stamped);
}

create_offer-IsOrderly :
    (site id : Str) (now : Time) (limit : ℕ) (o made : Offer) (s s' : Ownership)
    → create_offer id now limit o s ≡ ok (made, s')
    → IsOrderly site s
    → IsOrderly site s'
unfolding create_offer
create_offer-IsOrderly site id now limit o made s s' h i =
    let (_, _, h1) = >>=-eq-ok (require (has_sites o.sites) no_sites) _ h in
    let (_, _, h2) =
      >>=-eq-ok (check_daily_limit o.from (first_created now o.created) limit s) _ h1 in
    let (_, free, h3) = >>=-eq-ok (free_if_open (new_offer id now o) s) _ h2 in
    let same : write_offer (new_offer id now o) s ≡ s' = ground (arith, h3) in
    subst (IsOrderly site) same (
      write_offer-IsOrderly site (new_offer id now o) s free (stamp_ended-is_some now _ o.ended_at)
        i)

update_offer-IsOrderly :
    (site id : Str) (now : Time) (mutate : Offer → Result Offer) (made : Offer) (s s' : Ownership)
    → update_offer id now mutate s ≡ ok (made, s')
    → IsOrderly site s
    → IsOrderly site s'
unfolding update_offer
update_offer-IsOrderly site id now mutate made s s' h i =
    let (_, _, h1) = >>=-eq-ok (require (valid_id id) not_found) _ h in
    let (o, _, h2) = >>=-eq-ok (or_missing (find (λ x. str_eq x.id id) s.offers)) _ h1 in
    let (c, _, h3) = >>=-eq-ok (mutate o) _ h2 in
    let (_, free, h4) = >>=-eq-ok (free_if_open (changed_offer id now c) s) _ h3 in
    let same : write_offer (changed_offer id now c) s ≡ s' = ground (arith, h4) in
    subst (IsOrderly site) same (
      write_offer-IsOrderly site (changed_offer id now c) s free
        (stamp_ended-is_some now c.state c.ended_at) i)

same_offers :
    (site : Str) (s s' : Ownership) → s'.offers ≡ s.offers → IsOrderly site s → IsOrderly site s'
same_offers site s s' e i = record { one_offer = rw e i.one_offer; stamped = rw e i.stamped }

create_invite-offers :
    (id : Str) (now : Time) (limit : ℕ) (v made : Invite) (s s' : Ownership)
    → create_invite id now limit v s ≡ ok (made, s')
    → s'.offers ≡ s.offers
unfolding create_invite write_invite
create_invite-offers id now limit v made s s' h =
    let (_, _, h1) =
      >>=-eq-ok (check_daily_limit v.from (first_created now v.created) limit s) _ h in
    ground (arith, h1)

update_invite-offers :
    (id : Str) (now : Time) (mutate : Invite → Result Invite) (made : Invite) (s s' : Ownership)
    → update_invite id now mutate s ≡ ok (made, s')
    → s'.offers ≡ s.offers
unfolding update_invite write_invite
update_invite-offers id now mutate made s s' h =
    let (_, _, h1) = >>=-eq-ok (require (valid_id id) not_found) _ h in
    let (v, _, h2) = >>=-eq-ok (or_missing (find (λ x. str_eq x.id id) s.invites)) _ h1 in
    let (c, _, h3) = >>=-eq-ok (mutate v) _ h2 in ground (arith, h3)

prune_final-IsOrderly :
    (site : Str) (modified : Str → Option Time) (before : Time) (s : Ownership)
    → IsOrderly site s
    → IsOrderly site (prune_final modified before s)
unfolding prune_final
prune_final-IsOrderly site modified before s i = record {
  one_offer = omega (
    arith,
    i.one_offer,
    holders-keep_if site
        (λ o. not (is_final o.state && over_before before o.ended_at (modified o.id))) s.offers,
  );
  stamped =
      Stamped-keep_if (λ o. not (is_final o.state && over_before before o.ended_at (modified o.id)))
        s.offers i.stamped;
}

-- One critical section of the store; a mutation is any function of the record.
pub data OwnershipStep (s : Ownership) : Ownership → Type 0 where
  create :
      (id : Str) (now : Time) (limit : ℕ) (o made : Offer) (s' : Ownership)
      → create_offer id now limit o s ≡ ok (made, s')
      → OwnershipStep s s'
  update :
      (id : Str) (now : Time) (mutate : Offer → Result Offer) (made : Offer) (s' : Ownership)
      → update_offer id now mutate s ≡ ok (made, s')
      → OwnershipStep s s'
  invite :
      (id : Str) (now : Time) (limit : ℕ) (i made : Invite) (s' : Ownership)
      → create_invite id now limit i s ≡ ok (made, s')
      → OwnershipStep s s'
  change_invite :
      (id : Str) (now : Time) (mutate : Invite → Result Invite) (made : Invite) (s' : Ownership)
      → update_invite id now mutate s ≡ ok (made, s')
      → OwnershipStep s s'
  prune :
      (modified : Str → Option Time) (before : Time)
      → OwnershipStep s (prune_final modified before s)

pub data OwnershipReach (s : Ownership) : Ownership → Type 0 where
  at_first : OwnershipReach s s
  and_then : {t u : Ownership} → OwnershipReach s t → OwnershipStep t u → OwnershipReach s u

OwnershipStep-IsOrderly :
    {s s' : Ownership} (site : Str) → OwnershipStep s s' → IsOrderly site s → IsOrderly site s'
OwnershipStep-IsOrderly {s} site (create id now limit o made s' h) i =
    create_offer-IsOrderly site id now limit o made s s' h i
OwnershipStep-IsOrderly {s} site (update id now mutate made s' h) i =
    update_offer-IsOrderly site id now mutate made s s' h i
OwnershipStep-IsOrderly {s} site (invite id now limit v made s' h) i =
    same_offers site s s' (create_invite-offers id now limit v made s s' h) i
OwnershipStep-IsOrderly {s} site (change_invite id now mutate made s' h) i =
    same_offers site s s' (update_invite-offers id now mutate made s s' h) i
OwnershipStep-IsOrderly {s} site (prune modified before) i =
    prune_final-IsOrderly site modified before s i

-- However offers and invitations are made, changed by any mutation and pruned, a site that at most one
-- offer held at the start is held by at most one that is not final, and, if so at the start, an offer
-- has an end date exactly when it is final.
pub OwnershipReach-IsOrderly :
    {s t : Ownership} (site : Str) → IsOrderly site s → OwnershipReach s t → IsOrderly site t
OwnershipReach-IsOrderly site i at_first = i
OwnershipReach-IsOrderly site i (and_then r st) =
    OwnershipStep-IsOrderly site st (OwnershipReach-IsOrderly site i r)
