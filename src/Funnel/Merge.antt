-- ===== src/Funnel/Merge.antt =====
-- The one pass with two pointers finds what a search of all pairs finds.
use sitebin_io.Base.{
  ℕ, ◌+◌, ◌≤◌, ◌<◌, ◌≡◌, refl, sym, ◌∙◌, inl, inr, Bool, false, ◌&&◌, ◌||◌, Bool-cases, List, [],
  ◌∷◌, Option, none, some, arith, ltb, leb, any, keep_if,
}
use sitebin_io.Funnel.{advance, within, merge}

-- A time in ascending order of those after it.
abbrev pub Below : ℕ → List ℕ → Type 0
Below b [] = Unit
Below b (x ∷ xs) = (b ≤ x) × Below b xs

abbrev pub Sorted : List ℕ → Type 0
Sorted [] = Unit
Sorted (x ∷ xs) = Below x xs × Sorted xs

abbrev pub follows : ℕ → ℕ → ℕ → Bool
follows window t p = ltb p t && leb t (p + window)

-- The reference: some time of the step before lies before t by at most the window.
abbrev pub near : ℕ → List ℕ → ℕ → Bool
near window prev t = any (follows window t) prev

abbrev near_from : ℕ → Option ℕ → List ℕ → ℕ → Bool
near_from window none rest t = near window rest t
near_from window (some p) rest t = follows window t p || near window rest t

abbrev Bound : Option ℕ → List ℕ → Type 0
Bound none rest = Unit
Bound (some p) rest = Below p rest

Below-trans : (a b : ℕ) (xs : List ℕ) → a ≤ b → Below b xs → Below a xs
Below-trans a b [] h k = tt
Below-trans a b (x ∷ xs) h (le, k) = (omega arith, Below-trans a b xs h k)

-- Beyond t, what the pointer passed on its way there adds nothing to the last of it.
advance-near :
    (window : ℕ) (last : Option ℕ) (rest : List ℕ) (t t' : ℕ)
    → Sorted rest
    → Bound last rest
    → t ≤ t'
    → near_from window (advance last rest t).0 (advance last rest t).1 t'
      ≡ near_from window last rest t'
unfolding advance
advance-near window last [] t t' s b h = refl
advance-near window none (p ∷ ps) t t' (k, s) b h =
    ground (arith, advance-near window (some p) ps t t' s k h)
advance-near window (some q) (p ∷ ps) t t' (k, s) b h =
    ground (arith, advance-near window (some p) ps t t' s k h)

abbrev Before : Option ℕ → ℕ → Type 0
Before none t = Unit
Before (some p) t = p < t

-- Where the pointer stops: what it passed lies before t, the rest does not.
record Stopped (last : Option ℕ) (rest : List ℕ) (t : ℕ) : Type 0 where
  sorted : Sorted rest
  bound : Bound last rest
  before : Before last t
  after : Below t rest

advance-Stopped :
    (last : Option ℕ) (rest : List ℕ) (t : ℕ)
    → Sorted rest
    → Bound last rest
    → Before last t
    → Stopped (advance last rest t).0 (advance last rest t).1 t
unfolding advance
advance-Stopped last [] t s b h = record {
  sorted = tt;
  bound = bound_nil last;
  before = h;
  after = tt;
}
  where
    bound_nil : (o : Option ℕ) → Bound o []
    bound_nil none = tt
    bound_nil (some p) = tt
advance-Stopped last (p ∷ ps) t (k, s) b h = elim (Bool-cases (ltb p t)) [
  | inl e ↦ rw (e, advance) (advance-Stopped (some p) ps t s k (ground arith))
  | inr e ↦
      rw (e, advance)
        (record {
          sorted = (k, s);
          bound = b;
          before = h;
          after = (ground arith, Below-trans t p ps (ground arith) k);
        })
]

near_of_Below : (window t : ℕ) (rest : List ℕ) → Below t rest → near window rest t ≡ false
near_of_Below window t [] h = refl
near_of_Below window t (p ∷ ps) (le, h) = ground (arith, near_of_Below window t ps h)

within-near :
    (window t : ℕ) (last : Option ℕ) (rest : List ℕ)
    → Before last t
    → Below t rest
    → within window last t ≡ near_from window last rest t
unfolding within
within-near window t none rest h k = sym (near_of_Below window t rest k)
within-near window t (some p) rest h k = ground (arith, near_of_Below window t rest k)

keep_if_same :
    (p q : ℕ → Bool) (t : ℕ) (ts : List ℕ)
    → ((x : ℕ) → t ≤ x → p x ≡ q x)
    → Below t ts
    → keep_if p ts ≡ keep_if q ts
keep_if_same p q t [] same h = refl
keep_if_same p q t (x ∷ xs) same (le, h) = ground (arith, same x le, keep_if_same p q t xs same h)

Before-later : (last : Option ℕ) (t t' : ℕ) → t ≤ t' → Before last t → Before last t'
Before-later none t t' le h = tt
Before-later (some p) t t' le h = omega arith

abbrev BeforeAll : Option ℕ → List ℕ → Type 0
BeforeAll last [] = Unit
BeforeAll last (t ∷ ts) = Before last t

merge-near :
    (window : ℕ) (last : Option ℕ) (rest cur : List ℕ)
    → Sorted rest
    → Bound last rest
    → Sorted cur
    → BeforeAll last cur
    → merge window last rest cur ≡ keep_if (near_from window last rest) cur
unfolding merge
merge-near window last rest [] s b c h = refl
merge-near window last rest (t ∷ ts) s b (k, c) h =
    let (last', rest') = advance last rest t in
    let stop = advance-Stopped last rest t s b h in
    let head : within window last' t ≡ near_from window last rest t =
      within-near window t last' rest' stop.before stop.after
      ∙ advance-near window last rest t t s b (omega arith) in
    let tail : merge window last' rest' ts ≡ keep_if (near_from window last rest) ts =
      merge-near window last' rest' ts stop.sorted stop.bound c (first last' ts stop.before k)
      ∙ keep_if_same (near_from window last' rest') (near_from window last rest) t ts
          (λ x le. advance-near window last rest t x s b le) k in
    ground (arith, head, tail)
  where
    first : (o : Option ℕ) (xs : List ℕ) → Before o t → Below t xs → BeforeAll o xs
    first o [] p q = tt
    first o (x ∷ xs) p (le, q) = Before-later o t x le p

-- With both steps' times in order the one pass keeps exactly the times that a search of all pairs
-- finds within the window after a time of the step before.
pub merge_lem :
    (window : ℕ) (prev cur : List ℕ)
    → Sorted prev
    → Sorted cur
    → merge window none prev cur ≡ keep_if (near window prev) cur
merge_lem window prev cur s c = merge-near window none prev cur s tt c (none_before cur)
  where
    none_before : (xs : List ℕ) → BeforeAll none xs
    none_before [] = tt
    none_before (x ∷ xs) = tt
