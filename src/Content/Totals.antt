-- ===== src/Content/Totals.antt =====
-- internal/store/files.go: the sizes of a table of files under the changes of one of them.
use sitebin_io.Base.{
  ℕ, zero, suc, ◌+◌, ◌≤◌, ◌≡◌, refl, ap, arith, Bool, Bool-cases, inl, inr, true, false, [], ◌∷◌,
  is_some, if◌then◌else◌, Str, codes, str_eq, str_eq_iff, lookup, insert, delete, length,
  length-append, take,
}
use sitebin_io.Content.{Files, size_of, total, temp_name}

pub total-insert :
    (path bytes : Str) (files : Files)
    → total (insert path bytes files) + size_of (lookup path files) ≡ total files + length bytes
unfolding insert lookup
total-insert path bytes [] = omega arith
total-insert path bytes ((name, old) ∷ files) = ground (arith, total-insert path bytes files)

pub total-delete : (path : Str) (files : Files) → total (delete path files) ≤ total files
unfolding delete
total-delete path [] = omega arith
total-delete path ((name, old) ∷ files) = ground (arith, total-delete path files)

pub length-insert :
    (path bytes : Str) (files : Files)
    → length (insert path bytes files)
      ≡ length files + (if is_some (lookup path files) then 0 else 1)
unfolding insert lookup
length-insert path bytes [] = refl
length-insert path bytes ((name, old) ∷ files) = ground (arith, length-insert path bytes files)

pub length-delete : (path : Str) (files : Files) → length (delete path files) ≤ length files
unfolding delete
length-delete path [] = omega arith
length-delete path ((name, old) ∷ files) = ground (arith, length-delete path files)

pub temp_name-differs : (path : Str) → str_eq (temp_name path) path ≡ false
temp_name-differs path = elim (Bool-cases (str_eq (temp_name path) path)) [
  | inl same ↦
      let long = length-append path (codes ".sbtmp") in
      let it : temp_name path ≡ path = (str_eq_iff (temp_name path) path).0 same in
      let one = ap length it in ground (arith, one, long)
  | inr other ↦ other
]

-- What holds of both outcomes holds of a test.
pub of_either {ℓ ℓ'} :
    {A : Type ℓ} (P : A → Type ℓ') (b : Bool) (x y : A)
    → (b ≡ true → P x)
    → (b ≡ false → P y)
    → P (if b then x else y)
of_either P true x y h k = h refl
of_either P false x y h k = k refl

pub length-take : (n : ℕ) (s : Str) → length (take n s) ≤ length s
length-take zero s = omega arith
length-take (suc n) [] = omega arith
length-take (suc n) (c ∷ s) = ground (arith, length-take n s)

pub length-take_most : (n : ℕ) (s : Str) → length (take n s) ≤ n
length-take_most zero s = omega arith
length-take_most (suc n) [] = omega arith
length-take_most (suc n) (c ∷ s) = ground (arith, length-take_most n s)
