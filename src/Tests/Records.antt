-- ===== src/Tests/Records.antt =====
-- Offers of sites, tags, the cache of verified credentials and git's lines, on small inputs.
use sitebin_io.Base.{
  ◌≡◌, ◌≤◌, ℕ, ◌+◌, ◌*◌, refl, Bool, true, false, List, [], ◌∷◌, ◌++◌, Option, none, some, Str,
  codes, any, length, Result, ok, err, arith, site_offered, daily_limit, bad_pkt, too_many_tags,
}
use sitebin_io.Offers.{
  Offer, Ownership, OfferState, state_open, state_expired, no_state, create_offer, update_offer,
  expire_offer,
}
use sitebin_io.Offers.Exclusive.{
  IsOrderly, OwnershipStep, OwnershipReach, OwnershipReach-IsOrderly, holders,
}
use sitebin_io.Offers.{lapses, expire_offers}
use sitebin_io.Offers.Turns.{Filed}
use sitebin_io.Offers.Overdue.{expire_offers-none_over}
use sitebin_io.Tags.{clean_tags, max_site_tags}
use sitebin_io.Tags.Clean.{AllTags, Increasing, clean_tags-Increasing}
use sitebin_io.Text.{to_lower}
use sitebin_io.Cache.Refines.{Op, answers, expected, Ordered, answers_fresh}
use sitebin_io.PktLine.{read_pkt, write_pkt, line, flush}
use sitebin_io.PktLine.RoundTrip.{read_pkt-write_pkt}

abbrev blank : Offer
blank = record {
  id = [];
  sites = codes "shop" ∷ [];
  from = codes "acc";
  to_email = codes " You@B.de";
  available_from = none;
  accept_by = 10;
  created = 0;
  state = no_state;
  done = [];
  accepted_by = [];
  notified_at = none;
  ended_at = none;
}

abbrev offer_id : Str
offer_id = codes "aaaaaaaaaaaaaaaaaaaaaaaaaa"

abbrev nothing_yet : Ownership
nothing_yet = record { offers = []; invites = [] }

abbrev made : Offer
made = record blank { id = offer_id; to_email = codes "you@b.de"; state = state_open; created = 5 }

abbrev one_made : Ownership
one_made = record { offers = made ∷ []; invites = [] }

abbrev over : Offer
over = record made { state = state_expired; ended_at = some 11 }

abbrev one_over : Ownership
one_over = record { offers = over ∷ []; invites = [] }

makes : create_offer offer_id 5 20 blank nothing_yet ≡ ok (made, one_made)
unfolding create_offer sitebin_io.Offers.check_daily_limit sitebin_io.Offers.daily_count
    sitebin_io.Offers.is_final sitebin_io.Offers.check_sites_free sitebin_io.Offers.norm_email
    sitebin_io.Offers.stamp_ended sitebin_io.Offers.write_offer to_lower sitebin_io.Text.trim_space
makes = refl

offered_twice : create_offer (codes "b") 6 20 blank one_made ≡ err site_offered
unfolding create_offer sitebin_io.Offers.check_daily_limit sitebin_io.Offers.daily_count
    sitebin_io.Base.str_eq sitebin_io.Offers.is_final sitebin_io.Offers.check_sites_free
    sitebin_io.Base.contains
offered_twice = refl

one_a_day :
    create_offer (codes "b") 6 1 (record blank { sites = codes "blog" ∷ [] }) one_made
    ≡ err daily_limit
unfolding create_offer sitebin_io.Offers.check_daily_limit sitebin_io.Offers.daily_count
    sitebin_io.Base.str_eq
one_a_day = refl

expires : update_offer offer_id 11 (expire_offer 11) one_made ≡ ok (over, one_over)
unfolding update_offer sitebin_io.Offers.valid_id sitebin_io.Base.str_eq expire_offer
    sitebin_io.Offers.is_final sitebin_io.Offers.norm_email sitebin_io.Offers.stamp_ended
    sitebin_io.Offers.write_offer to_lower sitebin_io.Text.trim_space
expires = refl

at_start : IsOrderly (codes "shop") nothing_yet
unfolding holders
at_start = record { one_offer = omega arith; stamped = tt }

OwnershipReach-IsOrderly_example : IsOrderly (codes "shop") one_over
OwnershipReach-IsOrderly_example = OwnershipReach-IsOrderly (codes "shop") at_start (
    OwnershipReach.and_then
      (OwnershipReach.and_then OwnershipReach.at_first
        (OwnershipStep.create offer_id 5 20 blank made one_made makes))
      (OwnershipStep.update offer_id 11 (expire_offer 11) over one_over expires))

one-Filed : Filed one_made.offers
unfolding sitebin_io.Offers.valid_id
one-Filed = (refl, refl, tt)

expire_offers-none_over_example : any (lapses 11) (expire_offers 11 one_made).offers ≡ false
expire_offers-none_over_example = expire_offers-none_over 11 one_made one-Filed

ended_all : expire_offers 11 one_made ≡ one_over
unfolding expire_offers sitebin_io.Offers.is_final update_offer sitebin_io.Offers.valid_id
    sitebin_io.Base.str_eq expire_offer sitebin_io.Offers.write_offer sitebin_io.Offers.norm_email
    sitebin_io.Offers.stamp_ended to_lower sitebin_io.Text.trim_space
ended_all = refl

abbrev two_tags : List Str
two_tags = codes "Blue sky" ∷ codes "Red" ∷ []

tagged : clean_tags to_lower (codes "Red" ∷ codes " Blue  sky " ∷ codes "RED" ∷ []) ≡ ok two_tags
unfolding clean_tags sitebin_io.Tags.clean_tag sitebin_io.OneLine.is_control
    sitebin_io.OneLine.collapse sitebin_io.OneLine.is_space sitebin_io.Base.str_eq to_lower
    sitebin_io.Tags.str_lt
tagged = refl

clean_tags-Increasing_example :
    Increasing to_lower two_tags × AllTags two_tags × (length two_tags ≤ max_site_tags)
clean_tags-Increasing_example =
    clean_tags-Increasing to_lower (codes "Red" ∷ codes " Blue  sky " ∷ codes "RED" ∷ []) two_tags
      tagged

abbrev uses : List (ℕ × Op)
uses =
    (1, Op.verified (codes "s|x"))
    ∷ (5, Op.ask (codes "s|x"))
    ∷ (12, Op.ask (codes "s|x"))
    ∷ (13, Op.verified (codes "s|x"))
    ∷ (13, Op.forget (codes "s|"))
    ∷ (14, Op.ask (codes "s|x"))
    ∷ []

in_order : Ordered 0 uses
in_order =
    (omega arith, (omega arith, (omega arith, (omega arith, (omega arith, (omega arith, tt))))))

answers_fresh_example : answers 10 uses [] ≡ expected 10 uses (λ k. none)
answers_fresh_example = answers_fresh 10 uses in_order

remembered : answers 10 uses [] ≡ true ∷ false ∷ false ∷ []
unfolding answers sitebin_io.Cache.check sitebin_io.Base.lookup sitebin_io.Cache.put
    sitebin_io.Cache.drop_prefix sitebin_io.Base.insert sitebin_io.Base.str_eq
    sitebin_io.Base.delete sitebin_io.Text.has_prefix
remembered = refl

writes : write_pkt (codes "hello") ≡ ok (codes "0009hello")
unfolding write_pkt
writes = refl

read_pkt-write_pkt_example :
    read_pkt (codes "0009hello" ++ codes "0000") ≡ ok (line (codes "hello"), codes "0000")
read_pkt-write_pkt_example =
    read_pkt-write_pkt (codes "hello") (codes "0009hello") (codes "0000") writes

flushes : read_pkt (codes "0000") ≡ ok (flush, [])
unfolding read_pkt sitebin_io.PktLine.read_full sitebin_io.PktLine.parse_hex
flushes = refl

too_short : read_pkt (codes "0003") ≡ err bad_pkt
unfolding read_pkt sitebin_io.PktLine.read_full sitebin_io.PktLine.parse_hex
too_short = refl
