-- ===== src/Offers/Overdue.antt =====
-- A pass of the loop leaves no offer open past its date.
use sitebin_io.Base.{
  ◌≡◌, refl, ap, ◌∙◌, inl, inr, Bool, true, false, not, Bool-cases, List, [], ◌∷◌, arith,
  if◌then◌else◌, Str, str_eq_refl, contains, any, keep_if,
}
use sitebin_io.Meta.{Time}
use sitebin_io.Offers.{Offer, Ownership, is_final, lapses, expire_each, open_offers, expire_offers}
use sitebin_io.Offers.Turns.{Filed, ids, left, OnTurn, expire_each-OnTurn}

module _ (now : Time) where
  final_idle : (o : Offer) → is_final o.state ≡ true → lapses now o ≡ false
  unfolding is_final
  final_idle o h = ground (arith, h)

  longer_turns :
      (id : Str) (turns : List Str) (offers : List Offer)
      → any (left now turns) offers ≡ false
      → any (left now (id ∷ turns)) offers ≡ false
  unfolding contains
  longer_turns id turns [] h = refl
  longer_turns id turns (x ∷ more) h = ground (arith, longer_turns id turns more)

  ids_cons :
      (o : Offer) (more : List Offer)
      → ids now (keep_if (λ x. not (is_final x.state)) (o ∷ more)) ≡ (
          if lapses now o
          then o.id ∷ ids now (keep_if (λ x. not (is_final x.state)) more)
          else ids now (keep_if (λ x. not (is_final x.state)) more))
  ids_cons o more = elim (Bool-cases (is_final o.state)) [
    | inl f ↦ simp (f, final_idle o f) refl
    | inr f ↦ simp f refl
  ]

  one_listed :
      (b : Bool) (o : Offer) (turns : List Str) (more : List Offer)
      → lapses now o ≡ b
      → any (left now turns) more ≡ false
      → any (left now (if b then o.id ∷ turns else turns)) (o ∷ more) ≡ false
  unfolding contains
  one_listed true o turns more e h = rw (e, str_eq_refl o.id) (longer_turns o.id turns more h)
  one_listed false o turns more e h = rw e h

  -- At its start every offer that is over has its turn to come.
  all_listed :
      (offers : List Offer)
      → any (left now (ids now (keep_if (λ o. not (is_final o.state)) offers))) offers ≡ false
  all_listed [] = refl
  all_listed (o ∷ more) =
      ap (λ turns. any (left now turns) (o ∷ more)) (ids_cons o more)
      ∙ one_listed (lapses now o) o (ids now (keep_if (λ x. not (is_final x.state)) more)) more refl
          (all_listed more)

  without_turns :
      (offers : List Offer) → any (left now []) offers ≡ false → any (lapses now) offers ≡ false
  unfolding contains
  without_turns [] h = refl
  without_turns (x ∷ more) h = ground (arith, without_turns more)

-- After a pass no offer is open or paused beyond its accept-by date, whatever the other offers are,
-- where the files' ids are valid and no two are the same.
pub expire_offers-none_over :
    (now : Time) (s : Ownership)
    → Filed s.offers
    → any (lapses now) (expire_offers now s).offers ≡ false
unfolding expire_offers open_offers
expire_offers-none_over now s f =
    let first : OnTurn now (ids now (keep_if (λ o. not (is_final o.state)) s.offers)) s = record {
      filed = f;
      none_left = all_listed now s.offers;
    } in
    let last = expire_each-OnTurn now (keep_if (λ o. not (is_final o.state)) s.offers) s first in
    without_turns now (expire_each now (keep_if (λ o. not (is_final o.state)) s.offers) s).offers
      last.none_left
