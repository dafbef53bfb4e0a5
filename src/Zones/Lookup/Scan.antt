-- ===== src/Zones/Lookup/Scan.antt =====
-- The walk finds what a scan of all verified zones would find.
use sitebin_io.Base.{
  ◌≡◌, refl, sym, ap, subst, ◌∙◌, inl, inr, Bool, true, false, ◌&&◌, Bool-cases, List, [], ◌∷◌,
  ◌++◌, Option, none, some, Option-cases, arith, ◌==◌, Str, str_eq, str_eq_iff, str_eq_refl,
  contains, any, find, is_some,
}
use sitebin_io.Text.{to_lower, occurs}
use sitebin_io.DomainName.{host_of, overlaps}
use sitebin_io.Zones.{Zone, Zones}
use sitebin_io.Zones.Apart.{Apart, AllVerified, IsSeparate}
use sitebin_io.Zones.Lookup.{
  after_dots, if_verified, held_zone, or_else, zone_walk, account_zone_for,
}
use sitebin_io.Zones.Lookup.Names.{lies_in, Below, lies_in-Below, Below-lies_in, lies_in-overlaps}

after_dots-split : (d y : Str) → contains y (after_dots d) ≡ true → (p : Str) × (d ≡ p ++ b'.' ∷ y)
unfolding after_dots contains
after_dots-split [] y h = absurd (ground arith)
after_dots-split (c ∷ s) y h = elim (Bool-cases (c == b'.' && str_eq s y)) [
  | inl e ↦ ([], ground (arith, e, str_eq_iff s y))
  | inr e ↦ (let (p, k) = after_dots-split s y (ground (arith, e)) in (c ∷ p, ground (arith, k)))
]

-- Every name of the walk is one that the first lies in.
abbrev AllBelow : Str → List Str → Type 0
AllBelow d [] = Unit
AllBelow d (y ∷ more) = Below d y × AllBelow d more

find-AllVerified :
    (q : Zone → Bool) (zs : List Zone) → AllVerified zs → if_verified (find q zs) ≡ find q zs
find-AllVerified q [] v = refl
find-AllVerified q (z ∷ zs) (n, v) = elim (Bool-cases (q z)) [
  | inl e ↦ rw (e, n) refl
  | inr e ↦ rw e (find-AllVerified q zs v)
]

any-find :
    (p q : Zone → Bool) (z : Zone) (zs : List Zone)
    → any p zs ≡ false
    → find q zs ≡ some z
    → p z ≡ false
any-find p q z [] h f = absurd (ground arith)
any-find p q z (x ∷ zs) h f = elim (Bool-cases (q x)) [
  | inl e ↦ (let same : x ≡ z = ground (arith, e) in ground (arith, ap p same))
  | inr e ↦ any-find p q z zs (ground arith) (rw e at f)
]

find-holds : (q : Zone → Bool) (z : Zone) (zs : List Zone) → find q zs ≡ some z → q z ≡ true
find-holds q z [] f = absurd (ground arith)
find-holds q z (x ∷ zs) f = elim (Bool-cases (q x)) [
  | inl e ↦ (let same : x ≡ z = ground (arith, e) in sym (ap q same) ∙ e)
  | inr e ↦ find-holds q z zs (rw e at f)
]

-- A zone whose name the name lies in is the first of such in a list without overlaps.
found_scan :
    (d y : Str) (z : Zone) (zs : List Zone)
    → Apart zs
    → find (λ o. str_eq o.zone y) zs ≡ some z
    → Below d y
    → find (λ o. lies_in d o.zone) zs ≡ some z
found_scan d y z [] a f b = absurd (ground arith)
found_scan d y z (x ∷ zs) (n, a) f b = elim (Bool-cases (str_eq x.zone y)) [
  | inl e ↦
      let inside =
        subst (λ t. lies_in d t ≡ true) (sym ((str_eq_iff x.zone y).0 e)) (Below-lies_in d y b) in
      ground (arith, e, inside)
  | inr e ↦
      let f' : find (λ o. str_eq o.zone y) zs ≡ some z = rw e at f in
      elim (Bool-cases (lies_in d x.zone)) [
        | inl k ↦
            let named = (str_eq_iff z.zone y).0 (find-holds (λ o. str_eq o.zone y) z zs f') in
            let apart = any-find (λ o. overlaps o.zone x.zone) (λ o. str_eq o.zone y) z zs n f' in
            let both =
              lies_in-overlaps d z.zone x.zone (subst (Below d) (sym named) b)
                (lies_in-Below d x.zone k) in
            absurd (ground (arith, apart, both))
        | inr k ↦ (let rest = found_scan d y z zs a f' b in ground (arith, k, rest))
      ]
]

found_by_walk :
    (d : Str) (s : Zones) (names : List Str) (z : Zone)
    → IsSeparate s
    → AllBelow d names
    → zone_walk s names ≡ some z
    → find (λ o. lies_in d o.zone) s.held ≡ some z
unfolding zone_walk held_zone
found_by_walk d s [] z i a h = absurd (ground arith)
found_by_walk d s (y ∷ names) z i (b, a) h =
    let verified = find-AllVerified (λ o. str_eq o.zone y) s.held i.verified in
    elim (Option-cases (find (λ o. str_eq o.zone y) s.held)) [
      | inl e ↦ found_by_walk d s names z i a (ground (arith, e, verified))
      | inr (o, e) ↦
          let same : o ≡ z = ground (arith, e, verified) in
          found_scan d y z s.held i.apart (e ∙ ap some same) b
    ]

walked-AllBelow :
    (d : Str) (names : List Str)
    → ((y : Str) → contains y names ≡ true → Below d y)
    → AllBelow d names
unfolding contains
walked-AllBelow d [] h = tt
walked-AllBelow d (y ∷ names) h =
    (h y (ground (arith, str_eq_refl y)), walked-AllBelow d names (λ x c. h x (ground (arith, c))))

-- Every name has a dot, as names in normal form have.
abbrev pub Dotted : List Zone → Type 0
Dotted [] = Unit
Dotted (z ∷ zs) = (occurs b'.' z.zone ≡ true) × Dotted zs

find-Dotted :
    (q : Zone → Bool) (z : Zone) (zs : List Zone)
    → Dotted zs
    → find q zs ≡ some z
    → occurs b'.' z.zone ≡ true
find-Dotted q z [] d f = absurd (ground arith)
find-Dotted q z (x ∷ zs) (n, d) f = elim (Bool-cases (q x)) [
  | inl e ↦
      (let same : x ≡ z = ground (arith, e) in sym (ap (λ (o : Zone). occurs b'.' o.zone) same) ∙ n)
  | inr e ↦ find-Dotted q z zs d (rw e at f)
]

found_by_name :
    (q : Zone → Bool) (z : Zone) (zs : List Zone)
    → find q zs ≡ some z
    → is_some (find (λ o. str_eq o.zone z.zone) zs) ≡ true
found_by_name q z [] f = absurd (ground arith)
found_by_name q z (x ∷ zs) f = elim (Bool-cases (q x)) [
  | inl e ↦
      let same : x ≡ z = ground (arith, e) in
      let named = sym (ap (λ (o : Zone). str_eq o.zone z.zone) same) ∙ refl in
      ground (arith, str_eq_iff x.zone z.zone, ap (λ (o : Zone). o.zone) same)
  | inr e ↦ (let rest = found_by_name q z zs (rw e at f) in ground (arith, rest))
]

occurs_after : (p y : Str) → occurs b'.' (p ++ b'.' ∷ y) ≡ true
occurs_after [] y = ground arith
occurs_after (c ∷ p) y = ground (arith, occurs_after p y)

either_some : (a b : Option Zone) → is_some b ≡ true → is_some (or_else a b) ≡ true
either_some none b h = h
either_some (some z) b h = refl

first_some : (a b : Option Zone) → is_some a ≡ true → is_some (or_else a b) ≡ true
first_some none b h = absurd (ground arith)
first_some (some z) b h = refl

-- The walk comes to every name that is left after a dot, and looks it up.
walk-reaches :
    (s : Zones) (p y : Str)
    → occurs b'.' y ≡ true
    → is_some (held_zone s y) ≡ true
    → is_some (zone_walk s (after_dots (p ++ b'.' ∷ y))) ≡ true
unfolding zone_walk after_dots
walk-reaches s [] y d h = rw d (first_some (held_zone s y) (zone_walk s (after_dots y)) h)
walk-reaches s (c ∷ p) y d h =
    let rest = walk-reaches s p y d h in
    elim (Bool-cases (c == b'.')) [
      | inl e ↦
          rw (e, occurs_after p y)
            (either_some (held_zone s (p ++ b'.' ∷ y)) (zone_walk s (after_dots (p ++ b'.' ∷ y)))
              rest)
      | inr e ↦ rw e rest
    ]

walk-some :
    (s : Zones) (d y : Str)
    → Below d y
    → occurs b'.' y ≡ true
    → is_some (held_zone s y) ≡ true
    → is_some (zone_walk s (d ∷ after_dots d)) ≡ true
unfolding zone_walk
walk-some s d y (inl e) o h =
    subst (λ t. is_some (zone_walk s (t ∷ after_dots t)) ≡ true) (sym e)
      (rw o (first_some (held_zone s y) (zone_walk s (after_dots y)) h))
walk-some s d y (inr (p, e)) o h =
    subst (λ t. is_some (zone_walk s (t ∷ after_dots t)) ≡ true) (sym e)
      (rw (occurs_after p y) (
        either_some (held_zone s (p ++ b'.' ∷ y)) (zone_walk s (after_dots (p ++ b'.' ∷ y)))
          (walk-reaches s p y o h)))

scan-walked :
    (d : Str) (s : Zones) (z : Zone)
    → IsSeparate s
    → Dotted s.held
    → find (λ o. lies_in d o.zone) s.held ≡ some z
    → is_some (zone_walk s (d ∷ after_dots d)) ≡ true
unfolding held_zone
scan-walked d s z i dots f =
    let named = found_by_name (λ o. lies_in d o.zone) z s.held f in
    let verified = find-AllVerified (λ o. str_eq o.zone z.zone) s.held i.verified in
    walk-some s d z.zone (lies_in-Below d z.zone (find-holds (λ o. lies_in d o.zone) z s.held f))
      (find-Dotted (λ o. lies_in d o.zone) z s.held dots f) (ap is_some verified ∙ named)

walk-scan :
    (d : Str) (s : Zones)
    → IsSeparate s
    → Dotted s.held
    → zone_walk s (d ∷ after_dots d) ≡ find (λ o. lies_in d o.zone) s.held
walk-scan d s i dots = elim (Option-cases (zone_walk s (d ∷ after_dots d))) [
  | inr (z, e) ↦
      let all : AllBelow d (d ∷ after_dots d) =
        (inl refl, walked-AllBelow d (after_dots d) (λ y c. inr (after_dots-split d y c))) in
      e ∙ sym (found_by_walk d s (d ∷ after_dots d) z i all e)
  | inl e ↦ elim (Option-cases (find (λ o. lies_in d o.zone) s.held)) [
    | inl k ↦ e ∙ sym k
    | inr (z, k) ↦ (let w = scan-walked d s z i dots k in absurd (ground (arith, ap is_some e, w)))
  ]
]

-- Where no two verified zones overlap and their names have a dot, the walk along the labels finds what
-- a scan of all verified zones finds: the first zone that the host of the address is or lies below.
pub account_zone_for-scan :
    (d : Str) (s : Zones)
    → IsSeparate s
    → Dotted s.held
    → account_zone_for d s ≡ find (λ o. lies_in (to_lower (host_of d)) o.zone) s.held
unfolding account_zone_for
account_zone_for-scan d s i dots = walk-scan (to_lower (host_of d)) s i dots
