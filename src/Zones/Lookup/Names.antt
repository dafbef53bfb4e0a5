-- ===== src/Zones/Lookup/Names.antt =====
-- A name in a zone, and two zones that one name lies in.
use mathlib.Core.List.{reverse, reverse-append, reverse-reverse}
use sitebin_io.Base.{
  ◌≡◌, refl, sym, ap, subst, ◌∙◌, ◌⊎◌, inl, inr, Bool, true, ◌||◌, Bool-cases, [], ◌∷◌, ◌++◌, arith,
  Str, str_eq, str_eq_iff,
}
use sitebin_io.Text.{has_prefix, has_suffix}
use sitebin_io.DomainName.{overlaps}

-- A name is a zone's or lies below it.
unfoldable pub lies_in : Str → Str → Bool
lies_in d zone = str_eq d zone || has_suffix d (b'.' ∷ zone)

-- The same, as a name and what stands before it.
abbrev pub Below : Str → Str → Type 0
Below d zone = (d ≡ zone) ⊎ ((p : Str) × (d ≡ p ++ b'.' ∷ zone))

has_prefix-split : (s p : Str) → has_prefix s p ≡ true → (r : Str) × (s ≡ p ++ r)
unfolding has_prefix
has_prefix-split s [] h = (s, refl)
has_prefix-split [] (q ∷ p) h = absurd (ground arith)
has_prefix-split (c ∷ s) (q ∷ p) h =
    let (r, e) = has_prefix-split s p (ground arith) in (r, ground (arith, e))

has_prefix-append : (p r : Str) → has_prefix (p ++ r) p ≡ true
unfolding has_prefix
has_prefix-append [] [] = refl
has_prefix-append [] (c ∷ r) = refl
has_prefix-append (q ∷ p) r = ground (arith, has_prefix-append p r)

has_suffix-split : (d y : Str) → has_suffix d y ≡ true → (p : Str) × (d ≡ p ++ y)
unfolding has_suffix
has_suffix-split d y h =
    let (r, e) = has_prefix-split (reverse d) (reverse y) h in
    (
      reverse r,
      sym (reverse-reverse d)
          ∙ ap reverse e
          ∙ reverse-append (reverse y) r
          ∙ ap (λ t. reverse r ++ t) (reverse-reverse y),
    )

has_suffix-append : (p y : Str) → has_suffix (p ++ y) y ≡ true
unfolding has_suffix
has_suffix-append p y =
    ap (λ t. has_prefix t (reverse y)) (reverse-append p y)
    ∙ has_prefix-append (reverse y) (reverse p)

pub lies_in-Below : (d zone : Str) → lies_in d zone ≡ true → Below d zone
unfolding lies_in
lies_in-Below d zone h = elim (Bool-cases (str_eq d zone)) [
  | inl e ↦ inl ((str_eq_iff d zone).0 e)
  | inr e ↦ inr (has_suffix-split d (b'.' ∷ zone) (ground (arith, e)))
]

pub Below-lies_in : (d zone : Str) → Below d zone → lies_in d zone ≡ true
unfolding lies_in
Below-lies_in d zone (inl e) = ground (arith, (str_eq_iff d zone).1 e)
Below-lies_in d zone (inr (p, e)) =
    let h =
      subst (λ t. has_suffix t (b'.' ∷ zone) ≡ true) (sym e) (has_suffix-append p (b'.' ∷ zone)) in
    ground (arith, h)

overlaps_below : (a b p : Str) → a ≡ p ++ b'.' ∷ b → overlaps a b ≡ true
unfolding overlaps
overlaps_below a b p e =
    let h = subst (λ t. has_suffix t (b'.' ∷ b) ≡ true) (sym e) (has_suffix-append p (b'.' ∷ b)) in
    ground (arith, h)

overlaps_above : (a b p : Str) → b ≡ p ++ b'.' ∷ a → overlaps a b ≡ true
unfolding overlaps
overlaps_above a b p e =
    let h = subst (λ t. has_suffix t (b'.' ∷ a) ≡ true) (sym e) (has_suffix-append p (b'.' ∷ a)) in
    ground (arith, h)

overlaps_same : (a b : Str) → a ≡ b → overlaps a b ≡ true
unfolding overlaps
overlaps_same a b e = ground (arith, (str_eq_iff a b).1 e)

-- Two ends of one name, each after a dot.
two_ends : (a b p q : Str) → p ++ b'.' ∷ a ≡ q ++ b'.' ∷ b → overlaps a b ≡ true
two_ends a b [] [] e = overlaps_same a b (ground (arith, e))
two_ends a b [] (c ∷ q) e = overlaps_below a b q (ground (arith, e))
two_ends a b (c ∷ p) [] e = overlaps_above a b p (ground (arith, e))
two_ends a b (c ∷ p) (k ∷ q) e = two_ends a b p q (ground (arith, e))

-- Two zones that one name lies in overlap.
pub lies_in-overlaps : (d a b : Str) → Below d a → Below d b → overlaps a b ≡ true
lies_in-overlaps d a b (inl e) (inl k) = overlaps_same a b (sym e ∙ k)
lies_in-overlaps d a b (inl e) (inr (q, k)) = overlaps_below a b q (sym e ∙ k)
lies_in-overlaps d a b (inr (p, e)) (inl k) = overlaps_above a b p (sym k ∙ e)
lies_in-overlaps d a b (inr (p, e)) (inr (q, k)) = two_ends a b p q (sym e ∙ k)
