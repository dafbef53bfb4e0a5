-- ===== src/Funnel/Chain.antt =====
-- `reached` counts the steps that a chain of times reaches: any chain, not only one from the first
-- time of the first step.
use sitebin_io.Base.{
  ℕ, zero, suc, ◌+◌, ◌≤◌, ◌<◌, ◌≡◌, ◌∙◌, refl, sym, ap, subst, ◌⊎◌, inl, inr, ◌↔◌, Bool, true,
  Bool-cases, List, [], ◌∷◌, none, arith, keep_if, length, take,
}
use sitebin_io.Funnel.{merge, unless_empty, reached_from, reached}
use sitebin_io.Funnel.Merge.{Sorted, Below, near, follows, merge_lem}

abbrev pub In : ℕ → List ℕ → Type 0
In x [] = ⊥
In x (y ∷ ys) = (y ≡ x) ⊎ In x ys

-- Times of the following steps, each after the one before by at most the window.
abbrev pub Continued : ℕ → ℕ → List (List ℕ) → Type 0
Continued window p [] = Unit
Continued window p (cur ∷ more) =
    (t : ℕ) × In t cur × (p < t) × (t ≤ p + window) × Continued window t more

-- A chain through all of the steps, from any time of the first.
abbrev pub Chain : ℕ → List (List ℕ) → Type 0
Chain window [] = Unit
Chain window (cur ∷ more) = (t : ℕ) × In t cur × Continued window t more

abbrev pub AllSorted : List (List ℕ) → Type 0
AllSorted [] = Unit
AllSorted (xs ∷ more) = Sorted xs × AllSorted more

In-keep_if : (q : ℕ → Bool) (x : ℕ) (xs : List ℕ) → In x xs → q x ≡ true → In x (keep_if q xs)
In-keep_if q x [] h k = h
In-keep_if q x (y ∷ ys) (inl e) k = ground (arith, ap q e)
In-keep_if q x (y ∷ ys) (inr h) k = elim (Bool-cases (q y)) [
  | inl e ↦ rw e (inr (In-keep_if q x ys h k))
  | inr e ↦ rw e (In-keep_if q x ys h k)
]

keep_if-In : (q : ℕ → Bool) (x : ℕ) (xs : List ℕ) → In x (keep_if q xs) → In x xs × (q x ≡ true)
keep_if-In q x [] h = absurd h
keep_if-In q x (y ∷ ys) h = elim (Bool-cases (q y)) [
  | inl e ↦ here (keep_if-In q x ys) e (rw e at h)
  | inr e ↦ let (a, b) = keep_if-In q x ys (rw e at h) in (inr a, b)
]
  where
    here :
        (In x (keep_if q ys) → In x ys × (q x ≡ true))
        → q y ≡ true
        → (y ≡ x) ⊎ In x (keep_if q ys)
        → In x (y ∷ ys) × (q x ≡ true)
    here ih e (inl p) = (inl p, ap q (sym p) ∙ e)
    here ih e (inr r) = let (a, b) = ih r in (inr a, b)

near-In :
    (window t : ℕ) (prev : List ℕ)
    → near window prev t ≡ true
    → (p : ℕ) × In p prev × (p < t) × (t ≤ p + window)
near-In window t [] h = absurd (ground arith)
near-In window t (p ∷ ps) h = elim (Bool-cases (follows window t p)) [
  | inl e ↦ (p, inl refl, ground arith, ground arith)
  | inr e ↦ let (q, a, b, c) = near-In window t ps (ground (arith, e)) in (q, inr a, b, c)
]

In-near :
    (window t p : ℕ) (prev : List ℕ)
    → In p prev
    → p < t
    → t ≤ p + window
    → near window prev t ≡ true
In-near window t p [] h a b = absurd h
In-near window t p (q ∷ qs) (inl e) a b = ground arith
In-near window t p (q ∷ qs) (inr h) a b = ground (arith, In-near window t p qs h a b)

Below-keep_if : (q : ℕ → Bool) (b : ℕ) (xs : List ℕ) → Below b xs → Below b (keep_if q xs)
Below-keep_if q b [] h = tt
Below-keep_if q b (x ∷ xs) (le, h) = elim (Bool-cases (q x)) [
  | inl e ↦ rw e (le, Below-keep_if q b xs h)
  | inr e ↦ rw e (Below-keep_if q b xs h)
]

Sorted-keep_if : (q : ℕ → Bool) (xs : List ℕ) → Sorted xs → Sorted (keep_if q xs)
Sorted-keep_if q [] h = tt
Sorted-keep_if q (x ∷ xs) (k, h) = elim (Bool-cases (q x)) [
  | inl e ↦ rw e (Below-keep_if q x xs k, Sorted-keep_if q xs h)
  | inr e ↦ rw e (Sorted-keep_if q xs h)
]

reached_from-ge :
    (window k : ℕ) (prev : List ℕ) (more : List (List ℕ)) → k ≤ reached_from window k prev more
unfolding reached_from
reached_from-ge window k prev [] = omega arith
reached_from-ge window k prev (cur ∷ more) =
    go (merge window none prev cur)
      (reached_from-ge window (k + 1) (merge window none prev cur) more)
  where
    go :
        (now : List ℕ)
        → k + 1 ≤ reached_from window (k + 1) now more
        → k ≤ unless_empty now k (reached_from window (k + 1) now more)
    go [] h = omega arith
    go (t ∷ ts) h = omega arith

-- From one of the times of `prev` a chain goes on through j more steps.
abbrev From : ℕ → List ℕ → List (List ℕ) → Type 0
From window prev more = (p : ℕ) × In p prev × Continued window p more

From-merge :
    (window : ℕ) (prev cur : List ℕ) (more : List (List ℕ))
    → From window (keep_if (near window prev) cur) more
    → From window prev (cur ∷ more)
From-merge window prev cur more (t, a, c) =
    let (b, n) = keep_if-In (near window prev) t cur a in
    let (p, d, lt, le) = near-In window t prev n in (p, d, (t, b, lt, le, c))

merge-From :
    (window : ℕ) (prev cur : List ℕ) (more : List (List ℕ))
    → From window prev (cur ∷ more)
    → From window (keep_if (near window prev) cur) more
merge-From window prev cur more (p, d, (t, b, lt, le, c)) =
    (t, In-keep_if (near window prev) t cur b (In-near window t p prev d lt le), c)

-- One step, with the reachable times as a variable.
unless_empty_iff :
    (window k j n : ℕ) (prev cur : List ℕ) (more : List (List ℕ)) (now : List ℕ)
    → now ≡ keep_if (near window prev) cur
    → (((p : ℕ) × In p now) → (k + 1 + j ≤ n) ↔ From window now more)
    → (k + suc j ≤ unless_empty now k n) ↔ From window prev (cur ∷ more)
unless_empty_iff window k j n prev cur more [] e ih = (
  λ h. absurd (omega arith),
  λ f. absurd ((subst (λ xs. From window xs more) (sym e) (merge-From window prev cur more f)).1),
)
unless_empty_iff window k j n prev cur more (t ∷ ts) e ih = (
  λ h.
      From-merge window prev cur more
        (subst (λ xs. From window xs more) e ((ih (t, inl refl)).0 (omega arith))),
  λ f.
      let le =
        (ih (t, inl refl)).1
          (subst (λ xs. From window xs more) (sym e) (merge-From window prev cur more f)) in
      omega arith,
)

reached_from_iff :
    (window k j : ℕ) (prev : List ℕ) (more : List (List ℕ))
    → Sorted prev
    → AllSorted more
    → j ≤ length more
    → ((p : ℕ) × In p prev)
    → (k + j ≤ reached_from window k prev more) ↔ From window prev (take j more)
unfolding reached_from
reached_from_iff window k zero prev more s a le (p, i) =
    (λ _. (p, i, tt), λ _. omega (arith, reached_from-ge window k prev more))
reached_from_iff window k (suc j) prev [] s a le i = absurd (omega arith)
reached_from_iff window k (suc j) prev (cur ∷ more) s (c, a) le i =
    let now = keep_if (near window prev) cur in
    rw (merge_lem window prev cur s c) (
      unless_empty_iff window k j (reached_from window (k + 1) now more) prev cur (take j more) now
        refl
        (reached_from_iff window (k + 1) j now more (Sorted-keep_if (near window prev) cur c) a
          (omega arith)))

-- With each step's times in order, a visitor-day reaches step k exactly when there are times of the
-- first k steps in a chain, each after the one before by at most the window.
pub reached_iff :
    (window k : ℕ) (times : List (List ℕ))
    → AllSorted times
    → suc k ≤ length times
    → (suc k ≤ reached window times) ↔ Chain window (take (suc k) times)
unfolding reached
reached_iff window k [] a le = absurd (omega arith)
reached_iff window k ([] ∷ more) a le = (λ h. absurd (omega arith), λ (t, i, _). absurd i)
reached_iff window k ((t ∷ ts) ∷ more) (s, a) le =
    let e = reached_from_iff window 1 k (t ∷ ts) more s a (omega arith) (t, inl refl) in
    (λ h. e.0 (omega arith), λ c. let h = e.1 c in omega arith)
