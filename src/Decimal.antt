-- ===== src/Decimal.antt =====
-- Decimal numbers as the standard library's strconv prints and reads them: `Itoa` and `FormatInt` of a
-- number that is not negative, `Atoi` and `ParseInt` of 64 bits.
use sitebin_io.Base.{
  ℕ, zero, suc, ◌+◌, ◌-◌, ◌*◌, ◌/◌, ◌%◌, ◌^◌, ◌≤◌, ◌<◌, ◌≡◌, refl, Bool, true, false, ◌&&◌, [], ◌∷◌,
  Option, none, some, arith, Str, leb, ltb, ◌==◌, if◌then◌else◌,
}
use sitebin_io.Base.Int.{ℤ, pos, negsuc}
use sitebin_io.Text.{occurs}

abbrev pub is_digit : ℕ → Bool
is_digit c = leb b'0' c && leb c b'9'

-- The digits of n, with enough fuel, before those of `rest`.
unfoldable pub digits_from : ℕ → ℕ → Str → Str
digits_from zero n rest = rest
digits_from (suc fuel) n rest =
    let longer = digits_from fuel (n / 10) ((n % 10 + b'0') ∷ rest) in
    if n == 0 then rest else longer

-- `strconv.Itoa`; a number has no more digits than its value.
unfoldable pub itoa : ℕ → Str
unfolding digits_from
itoa n = if n == 0 then b'0' ∷ [] else digits_from n n []

-- The value of digits that follow a number.
unfoldable pub value_from : ℕ → Str → Option ℕ
value_from acc [] = some acc
value_from acc (c ∷ s) =
    let rest = value_from (acc * 10 + (c - b'0')) s in if is_digit c then rest else none

unfoldable pub unsigned : Str → Option ℕ
unfolding value_from
unsigned [] = none
unsigned (c ∷ s) = value_from 0 (c ∷ s)

abbrev pub within : ℕ → (ℕ → ℤ) → Option ℕ → Option ℤ
within bound sign none = none
within bound sign (some n) = if ltb n bound then some (sign n) else none

abbrev pub negated : ℕ → ℤ
negated zero = pos 0
negated (suc n) = negsuc n

-- `strconv.Atoi` and `strconv.ParseInt(s, 10, 64)`: an optional sign, digits, and no value that does
-- not fit.
unfoldable pub atoi : Str → Option ℤ
unfolding unsigned
atoi [] = none
atoi (c ∷ s) =
    if c == b'-'
    then within (2 ^ 63 + 1) negated (unsigned s)
    else if c == b'+'
    then within (2 ^ 63) pos (unsigned s)
    else within (2 ^ 63) pos (unsigned (c ∷ s))

value_from-digits_from :
    (fuel n : ℕ) (rest : Str)
    → n ≤ fuel
    → value_from 0 (digits_from fuel n rest) ≡ value_from n rest
unfolding digits_from value_from
value_from-digits_from zero n rest h = let e : n ≡ 0 = omega arith in rw e
value_from-digits_from (suc fuel) n rest h =
    ground (arith, value_from-digits_from fuel (n / 10) ((n % 10 + b'0') ∷ rest))

unsigned-digits_from :
    (fuel n c : ℕ) (rest : Str)
    → unsigned (digits_from fuel n (c ∷ rest)) ≡ value_from 0 (digits_from fuel n (c ∷ rest))
unfolding digits_from unsigned
unsigned-digits_from zero n c rest = refl
unsigned-digits_from (suc fuel) n c rest =
    ground (arith, unsigned-digits_from fuel (n / 10) (n % 10 + b'0') (c ∷ rest))

-- What is printed is read back.
pub unsigned-itoa : (n : ℕ) → unsigned (itoa n) ≡ some n
unfolding itoa value_from
unsigned-itoa zero = unfold unsigned in refl
unsigned-itoa (suc n) = ground (
  arith,
  unsigned-digits_from n (suc n / 10) (suc n % 10 + b'0') [],
  value_from-digits_from (suc n) (suc n) [],
)

abbrev pub all_digits : Str → Bool
all_digits [] = true
all_digits (c ∷ s) = is_digit c && all_digits s

digits_from-digits :
    (fuel n : ℕ) (rest : Str) → all_digits rest ≡ true → all_digits (digits_from fuel n rest) ≡ true
unfolding digits_from
digits_from-digits zero n rest h = h
digits_from-digits (suc fuel) n rest h =
    ground (arith, digits_from-digits fuel (n / 10) ((n % 10 + b'0') ∷ rest))

itoa-digits : (n : ℕ) → all_digits (itoa n) ≡ true
unfolding itoa
itoa-digits n = ground (arith, digits_from-digits n n [])

occurs_in_digits :
    (sep : ℕ) (s : Str) → is_digit sep ≡ false → all_digits s ≡ true → occurs sep s ≡ false
occurs_in_digits sep [] h k = refl
occurs_in_digits sep (c ∷ s) h k = ground (arith, occurs_in_digits sep s)

-- No separator that is not a digit stands in a printed number.
pub occurs-itoa : (sep n : ℕ) → is_digit sep ≡ false → occurs sep (itoa n) ≡ false
occurs-itoa sep n h = occurs_in_digits sep (itoa n) h (itoa-digits n)

atoi_digits :
    (s : Str) (n : ℕ)
    → all_digits s ≡ true
    → unsigned s ≡ some n
    → n < 2 ^ 63
    → atoi s ≡ some (pos n)
unfolding atoi
atoi_digits [] n h k lt = absurd (ground arith)
atoi_digits (c ∷ s) n h k lt = ground arith

-- A printed number that fits in 64 bits is read back.
pub atoi-itoa : (n : ℕ) → n < 2 ^ 63 → atoi (itoa n) ≡ some (pos n)
atoi-itoa n lt = atoi_digits (itoa n) n (itoa-digits n) (unsigned-itoa n) lt
