-- ===== src/Forms/Safe.antt =====
-- internal/forms/parse.go: what the names of attachments never hold.
use mathlib.Core.List.{reverse, reverse-cons}
use sitebin_io.Base.{
  ℕ, zero, suc, ◌-◌, ◌≤◌, ◌<◌, ◌≡◌, refl, ap, ◌∙◌, arith, Bool, Bool-cases, inl, inr, true, false,
  not, ◌&&◌, ◌||◌, [], ◌∷◌, ◌++◌, leb, ltb, ◌==◌, Str, codes, str_eq, any, length, drop,
  length-drop,
}
use sitebin_io.Text.{trim_space, trim_left, occurs}
use sitebin_io.Forms.Filename.{
  is_slash, last_element, drop_control, to_rune_start, or_attachment, name_tail, clean_filename,
  max_filename_bytes,
}

abbrev pub is_ascii_control : ℕ → Bool
is_ascii_control c = ltb c 32 || c == 127

last_element-slash : (s : Str) → any is_slash (last_element s) ≡ false
unfolding last_element
last_element-slash [] = refl
last_element-slash (c ∷ s) = ground (arith, last_element-slash s)

drop_control-control : (s : Str) → any is_ascii_control (drop_control s) ≡ false
unfolding drop_control
drop_control-control [] = refl
drop_control-control (c ∷ []) = ground arith
drop_control-control (c ∷ d ∷ s) =
    ground (arith, drop_control-control (d ∷ s), drop_control-control s)

-- What no byte of a text is, no byte of a part of it is.
module _ (p : ℕ → Bool) where
  any-drop_control : (s : Str) → any p s ≡ false → any p (drop_control s) ≡ false
  unfolding drop_control
  any-drop_control [] h = refl
  any-drop_control (c ∷ []) h = ground arith
  any-drop_control (c ∷ d ∷ s) h = ground (arith, any-drop_control (d ∷ s), any-drop_control s)

  any-trim_left : (s : Str) → any p s ≡ false → any p (trim_left s) ≡ false
  unfolding trim_left
  any-trim_left [] h = refl
  any-trim_left (c ∷ s) h = ground (arith, any-trim_left s)

  any-append : (s t : Str) → any p (s ++ t) ≡ (any p s || any p t)
  any-append [] t = refl
  any-append (c ∷ s) t = ground (arith, any-append s t)

  any-reverse : (s : Str) → any p (reverse s) ≡ any p s
  any-reverse [] = refl
  any-reverse (c ∷ s) =
      ap (any p) (reverse-cons c s)
      ∙ any-append (reverse s) (c ∷ [])
      ∙ ground (arith, any-reverse s)

  any-drop : (n : ℕ) (s : Str) → any p s ≡ false → any p (drop n s) ≡ false
  any-drop zero s h = h
  any-drop (suc n) [] h = refl
  any-drop (suc n) (c ∷ s) h = any-drop n s (ground arith)

  any-to_rune_start : (s : Str) → any p s ≡ false → any p (to_rune_start s) ≡ false
  unfolding to_rune_start
  any-to_rune_start [] h = refl
  any-to_rune_start (c ∷ s) h = ground (arith, any-to_rune_start s)

  any-trim_space : (s : Str) → any p s ≡ false → any p (trim_space s) ≡ false
  unfolding trim_space
  any-trim_space s h =
      let front = any-trim_left s h in
      any-reverse (trim_left (reverse (trim_left s)))
      ∙ any-trim_left (reverse (trim_left s)) (any-reverse (trim_left s) ∙ front)

  any-name_tail : (s : Str) → any p s ≡ false → any p (name_tail s) ≡ false
  any-name_tail s h =
      let n : ℕ = length s - max_filename_bytes in
      ground (arith, h, any-to_rune_start (drop n s) (any-drop n s h))

any_slash : (s : Str) → any is_slash s ≡ (occurs b'/' s || occurs b'\\' s)
any_slash [] = refl
any_slash (c ∷ s) = ground (arith, any_slash s)

length-to_rune_start : (s : Str) → length (to_rune_start s) ≤ length s
unfolding to_rune_start
length-to_rune_start [] = omega arith
length-to_rune_start (c ∷ s) = ground (arith, length-to_rune_start s)

length-name_tail : (s : Str) → length (name_tail s) ≤ max_filename_bytes
length-name_tail s =
    let n : ℕ = length s - max_filename_bytes in
    ground (arith, length-to_rune_start (drop n s), length-drop n s)

-- A name that stays in one folder: no slash, no control character of ASCII, and not too long.
unfoldable pub safe_name : Str → Bool
safe_name n =
    not (any is_slash n)
    && not (any is_ascii_control n)
    && leb (length n) max_filename_bytes
    && not (str_eq n [] || str_eq n (codes ".") || str_eq n (codes ".."))

or_attachment-safe :
    (s : Str)
    → any is_slash s ≡ false
    → any is_ascii_control s ≡ false
    → length s ≤ max_filename_bytes
    → safe_name (or_attachment s) ≡ true
unfolding safe_name str_eq
or_attachment-safe s slash control short =
    elim (Bool-cases (str_eq s [] || str_eq s (codes ".") || str_eq s (codes ".."))) [
      | inl e ↦ rw e refl
      | inr e ↦
          let fits : leb (length s) max_filename_bytes ≡ true = ground (arith, short) in
          rw e (rw slash (rw control (rw fits (rw e refl))))
    ]

pub clean_filename-safe :
    (to_valid : Str → Str) (s : Str)
    → ((t : Str) (b : ℕ) → b < 128 → occurs b t ≡ false → occurs b (to_valid t) ≡ false)
    → safe_name (clean_filename to_valid s) ≡ true
unfolding clean_filename
clean_filename-safe to_valid s keeps =
    let t : Str = to_valid (last_element s) in
    let parts = any_slash (last_element s) in
    let none_before = last_element-slash s in
    let one = keeps (last_element s) b'/' (omega arith) (ground arith) in
    let two = keeps (last_element s) b'\\' (omega arith) (ground arith) in
    let slash : any is_slash t ≡ false = any_slash t ∙ ground arith in
    let trimmed : Str = trim_space (drop_control t) in
    or_attachment-safe (name_tail trimmed)
      (any-name_tail is_slash trimmed
        (any-trim_space is_slash (drop_control t) (any-drop_control is_slash t slash)))
      (any-name_tail is_ascii_control trimmed
        (any-trim_space is_ascii_control (drop_control t) (drop_control-control t)))
      (length-name_tail trimmed)
