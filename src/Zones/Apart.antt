-- ===== src/Zones/Apart.antt =====
-- Zones that do not overlap one another, in lists.
use sitebin_io.Base.{
  ◌≡◌, refl, subst, ap, ◌∙◌, inl, inr, Bool, true, false, not, ◌&&◌, Bool-cases, List, [], ◌∷◌,
  ◌++◌, some, arith, Str, str_eq, str_eq_iff, any, find, keep_if, is_some,
}
use sitebin_io.DomainName.{overlaps}
use sitebin_io.Zones.{Zone, Zones, remove_held}

-- The names of verified zones, apart from one another.
abbrev pub Apart : List Zone → Type 0
Apart [] = Unit
Apart (z ∷ zs) = (any (λ o. overlaps o.zone z.zone) zs ≡ false) × Apart zs

abbrev pub AllVerified : List Zone → Type 0
AllVerified [] = Unit
AllVerified (z ∷ zs) = (is_some z.verified_at ≡ true) × AllVerified zs

-- The folder of verified zones holds only such, and no two of them overlap.
pub record IsSeparate (s : Zones) : Type 0 where
  pub verified : AllVerified s.held
  pub apart : Apart s.held

pub any-keep_if :
    (p q : Zone → Bool) (zs : List Zone) → any p zs ≡ false → any p (keep_if q zs) ≡ false
any-keep_if p q [] h = refl
any-keep_if p q (z ∷ zs) h = ground (arith, any-keep_if p q zs)

pub Apart-keep_if : (q : Zone → Bool) (zs : List Zone) → Apart zs → Apart (keep_if q zs)
Apart-keep_if q [] h = tt
Apart-keep_if q (z ∷ zs) (n, h) = elim (Bool-cases (q z)) [
  | inl e ↦ rw e (any-keep_if (λ o. overlaps o.zone z.zone) q zs n, Apart-keep_if q zs h)
  | inr e ↦ rw e (Apart-keep_if q zs h)
]

pub AllVerified-keep_if :
    (q : Zone → Bool) (zs : List Zone) → AllVerified zs → AllVerified (keep_if q zs)
AllVerified-keep_if q [] h = tt
AllVerified-keep_if q (z ∷ zs) (n, h) = elim (Bool-cases (q z)) [
  | inl e ↦ rw e (n, AllVerified-keep_if q zs h)
  | inr e ↦ rw e (AllVerified-keep_if q zs h)
]

pub remove_held-IsSeparate : (d : Str) (s : Zones) → IsSeparate s → IsSeparate (remove_held d s)
unfolding remove_held
remove_held-IsSeparate d s i = record {
  verified = AllVerified-keep_if _ s.held i.verified;
  apart = Apart-keep_if _ s.held i.apart;
}

-- A test of all zones for verified ones finds every one that is held.
pub held_apart :
    (d : Str) (held pending : List Zone)
    → AllVerified held
    → any (λ o. is_some o.verified_at && overlaps o.zone d) (held ++ pending) ≡ false
    → any (λ o. overlaps o.zone d) held ≡ false
held_apart d [] pending v h = refl
held_apart d (z ∷ zs) pending (x, v) h = ground (arith, held_apart d zs pending v)

overlaps_comm : (a b : Str) → overlaps a b ≡ overlaps b a
unfolding overlaps
overlaps_comm a b = ground (arith, str_eq_iff a b, str_eq_iff b a)

any-find :
    (p q : Zone → Bool) (z : Zone) (zs : List Zone)
    → any p zs ≡ false
    → find q zs ≡ some z
    → p z ≡ false
any-find p q z [] h f = absurd (ground arith)
any-find p q z (x ∷ zs) h f = elim (Bool-cases (q x)) [
  | inl e ↦ let same : x ≡ z = ground (arith, e) in ground (arith, ap p same)
  | inr e ↦ any-find p q z zs (ground arith) (rw e at f)
]

found_apart :
    (q : Zone → Bool) (x z : Zone) (zs : List Zone)
    → any (λ o. overlaps o.zone x.zone) zs ≡ false
    → str_eq x.zone z.zone ≡ false
    → find q (x ∷ zs) ≡ some z
    → (find q zs ≡ some z) × (overlaps x.zone z.zone ≡ false)
found_apart q x z zs n e h = elim (Bool-cases (q x)) [
  | inl k ↦
      let same : x ≡ z = ground (arith, k) in
      absurd (ground (arith, e, (str_eq_iff x.zone z.zone).1 (ap (λ (o : Zone). o.zone) same)))
  | inr k ↦
      let f : find q zs ≡ some z = rw k at h in
      (f, overlaps_comm x.zone z.zone ∙ any-find (λ o. overlaps o.zone x.zone) q z zs n f)
]

-- The other zones do not overlap one that is held.
pub others-Apart :
    (q : Zone → Bool) (z : Zone) (zs : List Zone)
    → Apart zs
    → find q zs ≡ some z
    → any (λ o. overlaps o.zone z.zone) (keep_if (λ o. not (str_eq o.zone z.zone)) zs) ≡ false
others-Apart q z [] a h = refl
others-Apart q z (x ∷ zs) (n, a) h = elim (Bool-cases (str_eq x.zone z.zone)) [
  | inl e ↦ rw e (
      any-keep_if (λ o. overlaps o.zone z.zone) (λ o. not (str_eq o.zone z.zone)) zs
        (subst (λ d. any (λ o. overlaps o.zone d) zs ≡ false) ((str_eq_iff x.zone z.zone).0 e) n))
  | inr e ↦
      let (f, apart) = found_apart q x z zs n e h in
      let rest = others-Apart q z zs a f in rw (e, apart) rest
]
