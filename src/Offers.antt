-- ===== src/Offers.antt =====
-- ee/ownership/store.go and the mutations of ee/ownership_loop.go: offers of sites and invitations. The
-- files of a folder are a list, of which no order matters; every file can be read, written and removed.
-- Each function is one critical section of the store's lock; the clock and a fresh id are arguments.
pub mod Exclusive
pub mod Turns
pub mod Overdue
use sitebin_io.Base.{
  ℕ, ◌+◌, ◌-◌, ◌*◌, ◌%◌, Bool, true, false, not, ◌&&◌, ◌||◌, List, [], ◌∷◌, Option, none, some,
  if◌then◌else◌, ltb, leb, ◌==◌, Str, codes, str_eq, contains, any, find, keep_if, length, Error,
  not_found, no_sites, site_offered, daily_limit, offer_moved, Result, ok, err, ◌>>=◌, ◌>>◌,
  require,
}
use sitebin_io.Meta.{Time}
use sitebin_io.Text.{to_lower, trim_space}

-- `State` of an offer or an invitation; `no_state` is the empty string.
pub data OfferState : Type 0 where
  no_state state_open state_paused state_accepting state_accepted state_declined state_expired
        state_cancelled state_ended :
      OfferState

unfoldable pub is_final : OfferState → Bool
is_final state_accepted = true
is_final state_declined = true
is_final state_expired = true
is_final state_cancelled = true
is_final state_ended = true
is_final _ = false

pub record Offer : Type 0 where
  pub id : Str
  pub sites : List Str
  pub from : Str
  pub to_email : Str
  pub available_from : Option Time
  pub accept_by : Time
  pub created : Time
  pub state : OfferState
  pub done : List Str
  pub accepted_by : Str
  pub notified_at : Option Time
  pub ended_at : Option Time

pub record Invite : Type 0 where
  pub id : Str
  pub site : Str
  pub from : Str
  pub to_email : Str
  pub until : Option Time
  pub created : Time
  pub state : OfferState
  pub ended_at : Option Time

pub record Ownership : Type 0 where
  pub offers : List Offer
  pub invites : List Invite

unfoldable pub norm_email : Str → Str
norm_email e = to_lower (trim_space e)

-- The rest of the alphabet base32Lower has the letters and 2 to 7.
abbrev pub is_base32 : ℕ → Bool
is_base32 c = leb b'a' c && leb c b'z' || leb b'2' c && leb c b'7'

-- `ids.ValidID`.
unfoldable pub valid_id : Str → Bool
valid_id s = length s == 26 && not (any (λ c. not (is_base32 c)) s)

abbrev pub or_now : Time → Option Time → Option Time
or_now now none = some now
or_now now (some at) = some at

-- `stampEnded`.
unfoldable pub stamp_ended : Time → OfferState → Option Time → Option Time
stamp_ended now state at = if is_final state then or_now now at else none

-- One file to an id.
unfoldable pub write_offer : Offer → Ownership → Ownership
write_offer o s = record s { offers = o ∷ keep_if (λ x. not (str_eq x.id o.id)) s.offers }

unfoldable pub write_invite : Invite → Ownership → Ownership
write_invite i s = record s { invites = i ∷ keep_if (λ x. not (str_eq x.id i.id)) s.invites }

-- An offer other than `self`, not final, that holds the site.
unfoldable pub held_elsewhere : Str → List Offer → Str → Bool
held_elsewhere self offers site =
    any (λ o. not (str_eq o.id self || is_final o.state) && contains site o.sites) offers

unfoldable pub check_sites_free : Str → List Str → Ownership → Result (Unit {0})
unfolding held_elsewhere
check_sites_free self sites s =
    require (not (any (held_elsewhere self s.offers) sites)) site_offered

abbrev pub day : ℕ
day = 24 * 3600 * 1_000_000_000

-- On the UTC day of `at`.
abbrev pub same_day : Time → Time → Bool
same_day at t = leb (at - at % day) t && ltb t (at - at % day + day)

-- What the account created on that day: `DailyCount` where every file can be read.
unfoldable pub daily_count : Str → Time → Ownership → ℕ
daily_count account at s =
    length (keep_if (λ (o : Offer). str_eq o.from account && same_day at o.created) s.offers)
    + length (keep_if (λ (i : Invite). str_eq i.from account && same_day at i.created) s.invites)

-- `checkDailyLimit`; 0 stands for every limit that is not positive.
unfoldable pub check_daily_limit : Str → Time → ℕ → Ownership → Result (Unit {0})
check_daily_limit account at limit s =
    require (limit == 0 || ltb (daily_count account at s) limit) daily_limit

abbrev pub first_state : OfferState → OfferState
first_state no_state = state_open
first_state state = state

abbrev pub first_created : Time → Time → Time
first_created now created = if created == 0 then now else created

abbrev pub new_offer : Str → Time → Offer → Offer
new_offer id now o = record o {
  id = id;
  to_email = norm_email o.to_email;
  state = first_state o.state;
  created = first_created now o.created;
  ended_at = stamp_ended now (first_state o.state) o.ended_at;
}

abbrev pub has_sites : List Str → Bool
has_sites [] = false
has_sites (x ∷ xs) = true

abbrev pub free_if_open : Offer → Ownership → Result (Unit {0})
free_if_open o s = if is_final o.state then ok tt else check_sites_free o.id o.sites s

unfoldable pub create_offer : Str → Time → ℕ → Offer → Ownership → Result (Offer × Ownership)
create_offer id now limit o s = do
  require (has_sites o.sites) no_sites
  check_daily_limit o.from (first_created now o.created) limit s
  free_if_open (new_offer id now o) s
  ok (new_offer id now o, write_offer (new_offer id now o) s)

abbrev pub or_missing {ℓ} : {A : Type ℓ} → Option A → Result A
or_missing none = err not_found
or_missing (some a) = ok a

abbrev pub changed_offer : Str → Time → Offer → Offer
changed_offer id now o = record o {
  id = id;
  to_email = norm_email o.to_email;
  ended_at = stamp_ended now o.state o.ended_at;
}

unfoldable pub update_offer :
    Str → Time → (Offer → Result Offer) → Ownership → Result (Offer × Ownership)
update_offer id now mutate s = do
  require (valid_id id) not_found
  o ← or_missing (find (λ x. str_eq x.id id) s.offers)
  changed ← mutate o
  free_if_open (changed_offer id now changed) s
  ok (changed_offer id now changed, write_offer (changed_offer id now changed) s)

abbrev pub new_invite : Str → Time → Invite → Invite
new_invite id now i = record i {
  id = id;
  to_email = norm_email i.to_email;
  state = first_state i.state;
  created = first_created now i.created;
  ended_at = stamp_ended now (first_state i.state) i.ended_at;
}

unfoldable pub create_invite : Str → Time → ℕ → Invite → Ownership → Result (Invite × Ownership)
create_invite id now limit i s = do
  check_daily_limit i.from (first_created now i.created) limit s
  ok (new_invite id now i, write_invite (new_invite id now i) s)

abbrev pub changed_invite : Str → Time → Invite → Invite
changed_invite id now i = record i {
  id = id;
  to_email = norm_email i.to_email;
  ended_at = stamp_ended now i.state i.ended_at;
}

unfoldable pub update_invite :
    Str → Time → (Invite → Result Invite) → Ownership → Result (Invite × Ownership)
update_invite id now mutate s = do
  require (valid_id id) not_found
  i ← or_missing (find (λ x. str_eq x.id id) s.invites)
  changed ← mutate i
  ok (changed_invite id now changed, write_invite (changed_invite id now changed) s)

-- Whether a record that ended at `ended`, or whose file was last written at `modified`, is over.
abbrev pub over_before : Time → Option Time → Option Time → Bool
over_before before (some at) modified = ltb at before
over_before before none none = false
over_before before none (some at) = ltb at before

-- `PruneFinal`, from the modification times of the files, where they can be had.
unfoldable pub prune_final : (Str → Option Time) → Time → Ownership → Ownership
prune_final modified before s = record {
  offers =
      keep_if (λ o. not (is_final o.state && over_before before o.ended_at (modified o.id)))
        s.offers;
  invites =
      keep_if (λ i. not (is_final i.state && over_before before i.ended_at (modified i.id)))
        s.invites;
}

abbrev pub may_lapse : OfferState → Bool
may_lapse state_open = true
may_lapse state_paused = true
may_lapse _ = false

-- The test and the mutation of `expireOffers`.
abbrev pub lapses : Time → Offer → Bool
lapses now o = may_lapse o.state && ltb o.accept_by now

unfoldable pub expire_offer : Time → Offer → Result Offer
expire_offer now o =
    if lapses now o then ok (record o { state = state_expired }) else err offer_moved

abbrev pub is_paused : OfferState → Bool
is_paused state_paused = true
is_paused _ = false

-- The mutation of `reopenPaused`.
unfoldable pub reopen_offer : Offer → Result Offer
reopen_offer o = if is_paused o.state then ok (record o { state = state_open }) else err offer_moved

-- The state after an update; one that fails writes nothing.
abbrev pub after_update : Ownership → Result (Offer × Ownership) → Ownership
after_update s (err why) = s
after_update s (ok (o, s')) = s'

-- One round of `expireOffers`, for an offer as it was listed.
unfoldable pub expire_listed : Time → Offer → Ownership → Ownership
expire_listed now o s =
    if lapses now o then after_update s (update_offer o.id now (expire_offer now) s) else s

unfoldable pub expire_each : Time → List Offer → Ownership → Ownership
unfolding expire_listed
expire_each now [] s = s
expire_each now (o ∷ more) s = expire_each now more (expire_listed now o s)

-- `OpenOffers`.
unfoldable pub open_offers : Ownership → List Offer
open_offers s = keep_if (λ o. not (is_final o.state)) s.offers

-- `expireOffers`, without the mails.
unfoldable pub expire_offers : Time → Ownership → Ownership
unfolding expire_each open_offers
expire_offers now s = expire_each now (open_offers s) s
