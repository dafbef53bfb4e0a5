-- ===== src/Scan/Overlap.antt =====
-- internal/abuse/scan.go: a text that lies across the edge of two chunks is found all the same.
use sitebin_io.Base.{
  ℕ, zero, suc, ◌+◌, ◌-◌, ◌≤◌, ◌<◌, ◌≡◌, ◌⊎◌, inl, inr, refl, sym, ap, ◌∙◌, subst, arith, Bool,
  Bool-cases, true, false, [], ◌∷◌, ◌++◌, is_some, ◌==◌, ◌&&◌, Str, length, drop, length-append,
  length-drop,
}
use Prim.Native.Nat.{min}
use native.Mathlib.Decide.{dec_lt}
use sitebin_io.Text.{to_lower, lower, has_prefix}
use sitebin_io.Scan.{index_of, tail_of}

-- Where a text stands that `index_of` finds.
pub Place : Str → Str → Type 0
Place l t = (k : ℕ) × (k ≤ length t) × (has_prefix (drop k t) l ≡ true)

Place-later : (l : Str) (c : ℕ) (t : Str) → Place l t → Place l (c ∷ t)
unfolding Place
Place-later l c t (k, below, h) = (suc k, omega arith, h)

index_of-Place : (l t : Str) → is_some (index_of l t) ≡ true → Place l t
unfolding index_of Place
index_of-Place l [] h = (0, omega arith, ground arith)
index_of-Place l (c ∷ t) h = elim (Bool-cases (has_prefix (c ∷ t) l)) [
  | inl e ↦ (0, omega arith, e)
  | inr e ↦ Place-later l c t (index_of-Place l t (ground arith))
]

Place-index_of : (l t : Str) → Place l t → is_some (index_of l t) ≡ true
unfolding index_of Place
Place-index_of l [] (zero, below, h) = ground arith
Place-index_of l [] (suc k, below, h) = ground arith
Place-index_of l (c ∷ t) (zero, below, h) = ground arith
Place-index_of l (c ∷ t) (suc k, below, h) = ground (arith, Place-index_of l t (k, omega arith, h))

drop-append : (k : ℕ) (a b : Str) → k ≤ length a → drop k (a ++ b) ≡ drop k a ++ b
drop-append zero a b h = refl
drop-append (suc k) [] b h = ground arith
drop-append (suc k) (c ∷ a) b h = drop-append k a b (omega arith)

drop_nil : (n : ℕ) → drop {A = ℕ} n [] ≡ []
drop_nil zero = refl
drop_nil (suc n) = refl

drop-drop : (j k : ℕ) (t : Str) → drop k (drop j t) ≡ drop (j + k) t
drop-drop zero k t = ap (λ (n : ℕ). drop n t) (omega arith)
drop-drop (suc j) zero [] = sym (drop_nil (suc j + 0))
drop-drop (suc j) (suc k) [] = sym (drop_nil (suc j + suc k))
drop-drop (suc j) k (c ∷ t) =
    let e : suc (j + k) ≡ suc j + k = omega arith in
    drop-drop j k t ∙ ap (λ (n : ℕ). drop n (c ∷ t)) e

has_prefix-append : (l a b : Str) → length l ≤ length a → has_prefix (a ++ b) l ≡ has_prefix a l
unfolding has_prefix
has_prefix-append [] [] b h = refl
has_prefix-append [] (c ∷ a) b h = refl
has_prefix-append (x ∷ l) [] b h = ground arith
has_prefix-append (x ∷ l) (c ∷ a) b h =
    ap (λ (t : Bool). c == x && t) (has_prefix-append l a b (omega arith))

-- A text of at most n + 1 bytes that stands in a and b together stands in a, or in b after the last n
-- bytes of a.
Place-across :
    (n : ℕ) (l a b : Str)
    → length l ≤ suc n
    → Place l (a ++ b)
    → Place l a ⊎ Place l (tail_of n a ++ b)
unfolding Place
Place-across n l a b short (k, below, h) =
    let m : ℕ = length a - min n (length a) in
    let long = length-append a b in
    let rest = length-append (tail_of n a) b in
    let dropped = length-drop m a in
    elim (dec_lt (length a) (k + length l)) [
      | no whole ↦ inl (
        k,
        omega arith,
        sym (has_prefix-append l (drop k a) b (omega (arith, length-drop k a)))
            ∙ ap (λ (t : Str). has_prefix t l) (sym (drop-append k a b (omega arith)))
            ∙ h,
      )
      | yes over ↦ inr (
        k - m,
        omega arith,
        ap (λ (t : Str). has_prefix t l)
              (ap (drop (k - m)) (sym (drop-append m a b (omega arith)))
                ∙ drop-drop m (k - m) (a ++ b)
                ∙ ap (λ (j : ℕ). drop j (a ++ b)) (omega arith))
            ∙ h,
      )
    ]

lower-append : (a b : Str) → to_lower (a ++ b) ≡ to_lower a ++ to_lower b
unfolding to_lower
lower-append [] b = refl
lower-append (c ∷ a) b = ap (λ (t : Str). lower c ∷ t) (lower-append a b)

pub length-to_lower : (a : Str) → length (to_lower a) ≡ length a
unfolding to_lower
length-to_lower [] = refl
length-to_lower (c ∷ a) = ap suc (length-to_lower a)

to_lower-drop : (k : ℕ) (a : Str) → to_lower (drop k a) ≡ drop k (to_lower a)
unfolding to_lower
to_lower-drop zero a = refl
to_lower-drop (suc k) [] = refl
to_lower-drop (suc k) (c ∷ a) = to_lower-drop k a

to_lower-tail_of : (n : ℕ) (a : Str) → to_lower (tail_of n a) ≡ tail_of n (to_lower a)
to_lower-tail_of n a =
    to_lower-drop (length a - min n (length a)) a
    ∙ ap (λ (j : ℕ). drop (j - min n j) (to_lower a)) (sym (length-to_lower a))

-- The last n bytes are the last n of the last n and what follows.
pub tail_of-append : (n : ℕ) (a b : Str) → tail_of n (tail_of n a ++ b) ≡ tail_of n (a ++ b)
tail_of-append n a b =
    let m : ℕ = length a - min n (length a) in
    let dropped = length-drop m a in
    let long = length-append a b in
    let rest = length-append (drop m a) b in
    let j : ℕ = length (drop m a ++ b) - min n (length (drop m a ++ b)) in
    ap (drop j) (sym (drop-append m a b (omega arith)))
    ∙ drop-drop m j (a ++ b)
    ∙ ap (λ (i : ℕ). drop i (a ++ b)) (omega arith)

-- Whether a text in lower case is seen in another.
abbrev pub shows : Str → Str → Bool
shows l t = is_some (index_of l (to_lower t))

pub shows-across :
    (n : ℕ) (l a b : Str)
    → length l ≤ suc n
    → shows l (a ++ b) ≡ true
    → (shows l a ≡ true) ⊎ (shows l (tail_of n a ++ b) ≡ true)
shows-across n l a b short h =
    elim (Place-across n l (to_lower a) (to_lower b) short
      (index_of-Place l _ (subst (λ t. is_some (index_of l t) ≡ true) (lower-append a b) h))) [
        | inl first ↦ inl (Place-index_of l (to_lower a) first)
        | inr across ↦ inr (
            subst (λ t. is_some (index_of l t) ≡ true)
              (sym (
                lower-append (tail_of n a) b
                ∙ ap (λ (t : Str). t ++ to_lower b) (to_lower-tail_of n a)))
              (Place-index_of l _ across))
      ]

pub shows_nothing : (l : Str) → 0 < length l → shows l [] ≡ false
unfolding index_of to_lower has_prefix
shows_nothing [] some_text = ground arith
shows_nothing (x ∷ l) some_text = refl

pub tail_of_nothing : (n : ℕ) → tail_of n [] ≡ []
tail_of_nothing n = drop_nil (0 - min n 0)
