-- ===== src/Offers/Turns.antt =====
-- The offers that are over, and the turns of the loop that ends them.
use sitebin_io.Base.{
  ◌≡◌, refl, sym, ap, ◌∙◌, subst, inl, inr, Bool, true, false, not, ◌&&◌, Bool-cases, List, [], ◌∷◌,
  none, some, Option-cases, arith, if◌then◌else◌, Str, str_eq, str_eq_iff, contains, any, find,
  find-any, keep_if,
}
use sitebin_io.Meta.{Time}
use sitebin_io.Offers.{
  Offer, Ownership, state_expired, is_final, lapses, valid_id, write_offer, changed_offer,
  update_offer, expire_offer, after_update, expire_listed, expire_each,
}

-- The files of the folder: their ids are valid and no two of them are the same.
abbrev pub Filed : List Offer → Type 0
Filed [] = Unit
Filed (o ∷ more) = (valid_id o.id ≡ true) × (any (λ x. str_eq x.id o.id) more ≡ false) × Filed more

module _ (now : Time) where
  -- The ids of the listed offers that are over.
  abbrev pub ids : List Offer → List Str
  ids [] = []
  ids (o ∷ more) = if lapses now o then o.id ∷ ids more else ids more

  -- Whether an offer is over and its turn does not come any more.
  abbrev pub left : List Str → Offer → Bool
  left turns x = lapses now x && not (contains x.id turns)

  cleared :
      (id : Str) (turns : List Str) (offers : List Offer)
      → any (left (id ∷ turns)) offers ≡ false
      → any (λ x. str_eq x.id id && lapses now x) offers ≡ false
      → any (left turns) offers ≡ false
  unfolding contains
  cleared id turns [] h c = refl
  cleared id turns (x ∷ more) h c =
      ground (arith, cleared id turns more, str_eq_iff id x.id, str_eq_iff x.id id)

  none_with :
      (id : Str) (offers : List Offer)
      → any (λ x. str_eq x.id id) offers ≡ false
      → any (λ x. str_eq x.id id && lapses now x) offers ≡ false
  none_with id [] h = refl
  none_with id (x ∷ more) h = ground (arith, none_with id more)

  others_cleared :
      (id : Str) (offers : List Offer)
      → any (λ x. str_eq x.id id && lapses now x) (keep_if (λ x. not (str_eq x.id id)) offers)
        ≡ false
  others_cleared id [] = refl
  others_cleared id (x ∷ more) = ground (arith, others_cleared id more)

  any-keep_if :
      (p q : Offer → Bool) (offers : List Offer)
      → any p offers ≡ false
      → any p (keep_if q offers) ≡ false
  any-keep_if p q [] h = refl
  any-keep_if p q (x ∷ more) h = ground (arith, any-keep_if p q more)

  found_cleared :
      (id : Str) (x : Offer) (offers : List Offer)
      → Filed offers
      → find (λ y. str_eq y.id id) offers ≡ some x
      → lapses now x ≡ false
      → any (λ y. str_eq y.id id && lapses now y) offers ≡ false
  found_cleared id x [] f e n = refl
  found_cleared id x (y ∷ more) (v, d, f) e n = elim (Bool-cases (str_eq y.id id)) [
    | inl k ↦
        let same : y ≡ x = ground (arith, k) in
        let idle : lapses now y ≡ false = ap (lapses now) same ∙ n in
        let alone =
          subst (λ i. any (λ z. str_eq z.id i) more ≡ false) ((str_eq_iff y.id id).0 k) d in
        ground (arith, k, idle, none_with id more alone)
    | inr k ↦ ground (arith, k, found_cleared id x more f (rw k at e) n)
  ]

  find-valid_id :
      (id : Str) (x : Offer) (offers : List Offer)
      → Filed offers
      → find (λ y. str_eq y.id id) offers ≡ some x
      → valid_id id ≡ true
  find-valid_id id x [] f e = absurd (ground arith)
  find-valid_id id x (y ∷ more) (v, d, f) e = elim (Bool-cases (str_eq y.id id)) [
    | inl k ↦ subst (λ i. valid_id i ≡ true) ((str_eq_iff y.id id).0 k) v
    | inr k ↦ find-valid_id id x more f (rw k at e)
  ]

  Filed-keep_if : (q : Offer → Bool) (offers : List Offer) → Filed offers → Filed (keep_if q offers)
  Filed-keep_if q [] f = tt
  Filed-keep_if q (o ∷ more) (v, d, f) = elim (Bool-cases (q o)) [
    | inl e ↦ rw e (v, any-keep_if (λ x. str_eq x.id o.id) q more d, Filed-keep_if q more f)
    | inr e ↦ rw e (Filed-keep_if q more f)
  ]

  none_kept :
      (id : Str) (offers : List Offer)
      → any (λ x. str_eq x.id id) (keep_if (λ x. not (str_eq x.id id)) offers) ≡ false
  none_kept id [] = refl
  none_kept id (x ∷ more) = ground (arith, none_kept id more)

  -- Filed, and no offer that is over is left to no turn.
  pub record OnTurn (turns : List Str) (s : Ownership) : Type 0 where
    pub filed : Filed s.offers
    pub none_left : any (left turns) s.offers ≡ false

  abbrev over : Str → Offer → Offer
  over id x = changed_offer id now (record x { state = state_expired })

  written-OnTurn :
      (id : Str) (turns : List Str) (x : Offer) (s : Ownership)
      → valid_id id ≡ true
      → OnTurn (id ∷ turns) s
      → OnTurn turns (write_offer (over id x) s)
  unfolding write_offer
  written-OnTurn id turns x s v t = record {
    filed = (v, none_kept id s.offers, Filed-keep_if (λ y. not (str_eq y.id id)) s.offers t.filed);
    none_left =
        cleared id turns _
          (any-keep_if (left (id ∷ turns)) (λ y. not (str_eq y.id id)) s.offers t.none_left)
          (others_cleared id s.offers);
  }

  idle-OnTurn :
      (id : Str) (turns : List Str) (s : Ownership)
      → OnTurn (id ∷ turns) s
      → any (λ y. str_eq y.id id && lapses now y) s.offers ≡ false
      → OnTurn turns s
  idle-OnTurn id turns s t c = record {
    filed = t.filed;
    none_left = cleared id turns s.offers t.none_left c;
  }

  update-missing :
      (id : Str) (s : Ownership)
      → find (λ y. str_eq y.id id) s.offers ≡ none
      → after_update s (update_offer id now (expire_offer now) s) ≡ s
  unfolding update_offer
  update-missing id s e = elim (Bool-cases (valid_id id)) [
    | inl v ↦ rw (v, e) refl
    | inr v ↦ rw v refl
  ]

  update-idle :
      (id : Str) (x : Offer) (s : Ownership)
      → find (λ y. str_eq y.id id) s.offers ≡ some x
      → lapses now x ≡ false
      → after_update s (update_offer id now (expire_offer now) s) ≡ s
  unfolding update_offer expire_offer
  update-idle id x s e n = elim (Bool-cases (valid_id id)) [
    | inl v ↦ rw (v, e, n) refl
    | inr v ↦ rw v refl
  ]

  update-over :
      (id : Str) (x : Offer) (s : Ownership)
      → valid_id id ≡ true
      → find (λ y. str_eq y.id id) s.offers ≡ some x
      → lapses now x ≡ true
      → after_update s (update_offer id now (expire_offer now) s) ≡ write_offer (over id x) s
  unfolding update_offer expire_offer is_final
  update-over id x s v e n = rw (v, e, n) refl

  turn-OnTurn :
      (id : Str) (turns : List Str) (s : Ownership)
      → OnTurn (id ∷ turns) s
      → OnTurn turns (after_update s (update_offer id now (expire_offer now) s))
  turn-OnTurn id turns s t = elim (Option-cases (find (λ y. str_eq y.id id) s.offers)) [
    | inl e ↦
        let idle =
          idle-OnTurn id turns s t
            (none_with id s.offers (find-any (λ y. str_eq y.id id) s.offers e)) in
        subst (OnTurn turns) (sym (update-missing id s e)) idle
    | inr (x, e) ↦ elim (Bool-cases (lapses now x)) [
      | inl n ↦
          let v = find-valid_id id x s.offers t.filed e in
          subst (OnTurn turns) (sym (update-over id x s v e n)) (written-OnTurn id turns x s v t)
      | inr n ↦
          let idle = idle-OnTurn id turns s t (found_cleared id x s.offers t.filed e n) in
          subst (OnTurn turns) (sym (update-idle id x s e n)) idle
    ]
  ]

  pub expire_each-OnTurn :
      (listed : List Offer) (s : Ownership)
      → OnTurn (ids listed) s
      → OnTurn [] (expire_each now listed s)
  unfolding expire_each expire_listed
  expire_each-OnTurn [] s t = t
  expire_each-OnTurn (o ∷ more) s t = elim (Bool-cases (lapses now o)) [
    | inl e ↦ rw e (expire_each-OnTurn more _ (turn-OnTurn o.id (ids more) s (rw e at t)))
    | inr e ↦ rw e (expire_each-OnTurn more s (rw e at t))
  ]
