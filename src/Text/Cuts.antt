-- ===== src/Text/Cuts.antt =====
-- Texts put together around a separator come apart there again.
use sitebin_io.Base.{ℕ, suc, ◌≡◌, refl, ap, false, [], ◌∷◌, ◌++◌, none, some, arith, Str}
use sitebin_io.Text.{cut, cut_last, split_n, part_and, occurs}

-- Before the first separator stands a text without it.
pub cut-append : (sep : ℕ) (a b : Str) → occurs sep a ≡ false → cut sep (a ++ sep ∷ b) ≡ (a, some b)
unfolding cut
cut-append sep [] b h = ground arith
cut-append sep (c ∷ a) b h = ground (arith, cut-append sep a b)

pub cut_without : (sep : ℕ) (a : Str) → occurs sep a ≡ false → cut sep a ≡ (a, none)
unfolding cut
cut_without sep [] h = refl
cut_without sep (c ∷ a) h = ground (arith, cut_without sep a)

cut_last_without : (sep : ℕ) (b : Str) → occurs sep b ≡ false → cut_last sep b ≡ none
unfolding cut_last
cut_last_without sep [] h = refl
cut_last_without sep (c ∷ b) h = ground (arith, cut_last_without sep b)

-- After the last separator stands a text without it; before it, any text.
pub cut_last-append :
    (sep : ℕ) (a b : Str) → occurs sep b ≡ false → cut_last sep (a ++ sep ∷ b) ≡ some (a, b)
unfolding cut_last
cut_last-append sep [] b h = ground (arith, cut_last_without sep b)
cut_last-append sep (c ∷ a) b h = ground (arith, cut_last-append sep a b)

pub split_n-append :
    (sep n : ℕ) (a b : Str)
    → occurs sep a ≡ false
    → split_n sep (suc (suc n)) (a ++ sep ∷ b) ≡ a ∷ split_n sep (suc n) b
unfolding split_n
split_n-append sep n a b h = ap (λ c. part_and c (split_n sep (suc n))) (cut-append sep a b h)

pub occurs-append :
    (sep : ℕ) (a b : Str)
    → occurs sep a ≡ false
    → occurs sep b ≡ false
    → occurs sep (a ++ b) ≡ false
occurs-append sep [] b h k = k
occurs-append sep (c ∷ a) b h k = ground (arith, occurs-append sep a b)
