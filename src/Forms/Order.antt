-- ===== src/Forms/Order.antt =====
-- internal/forms/parse.go: a url-encoded form is forwarded in the order in which it was sent.
use mathlib.Core.List.{append_assoc, append-nil}
use sitebin_io.Base.{
  ◌+◌, ◌≡◌, refl, sym, ap, ◌∙◌, subst, arith, Bool, Bool-cases, inl, inr, true, false, not, ◌&&◌,
  List, [], ◌∷◌, ◌++◌, Option, none, some, is_some, if◌then◌else◌, leb, leb→le, ltb, Str, str_eq,
  str_eq_iff, lookup, keep_if, length, take_whole, length-of_take, take, refused, Result, ok, err,
  require, ◌>>=◌, >>=-eq-ok, require-true,
}
use sitebin_io.Text.{split}
use sitebin_io.Forms.{
  Field, Submission, Limits, Library, url_encoded, max_fields, max_value_runes, is_control_name,
  with_control, add_field, add_valid, add, add_named, add_pair, add_pairs, pair_of,
  parse_url_encoded, parse_form, empty_submission, max_text_bytes,
}

abbrev pub is_forwarded : Field → Bool
is_forwarded f = not (str_eq f.name []) && not (is_control_name f.name)

abbrev pub is_kept_apart : Field → Bool
is_kept_apart f = not (str_eq f.name []) && is_control_name f.name

abbrev pub name_and_value : List Field → List (Str × Str)
name_and_value [] = []
name_and_value (f ∷ fs) = (f.name, f.value) ∷ name_and_value fs

abbrev pub or_later : Option Str → Option Str → Option Str
or_later none later = later
or_later (some v) later = some v

lookup-append :
    (n : Str) (xs ys : List (Str × Str))
    → lookup n (xs ++ ys) ≡ or_later (lookup n xs) (lookup n ys)
unfolding lookup
lookup-append n [] ys = refl
lookup-append n ((k, v) ∷ xs) ys = ground (arith, lookup-append n xs ys)

or_later-none : (o : Option Str) → or_later o none ≡ o
or_later-none none = refl
or_later-none (some v) = refl

-- What the fields fs, in order, do to a submission.
record Takes (s : Submission) (fs : List Field) (t : Submission) : Type 0 where
  fields : t.fields ≡ s.fields ++ keep_if is_forwarded fs
  control :
      (n : Str)
      → lookup n t.control
        ≡ or_later (lookup n s.control) (lookup n (name_and_value (keep_if is_kept_apart fs)))

Takes-nothing : (s : Submission) → Takes s [] s
unfolding lookup
Takes-nothing s = record {
  fields = sym (append-nil s.fields);
  control = λ n. sym (or_later-none (lookup n s.control));
}

keep_if-append {ℓ} :
    {A : Type ℓ} (p : A → Bool) (xs ys : List A)
    → keep_if p (xs ++ ys) ≡ keep_if p xs ++ keep_if p ys
keep_if-append p [] ys = refl
keep_if-append p (x ∷ xs) ys = ground (arith, keep_if-append p xs ys)

name_and_value-append :
    (fs gs : List Field) → name_and_value (fs ++ gs) ≡ name_and_value fs ++ name_and_value gs
name_and_value-append [] gs = refl
name_and_value-append (f ∷ fs) gs =
    ap (λ (l : List (Str × Str)). (f.name, f.value) ∷ l) (name_and_value-append fs gs)

or_later_assoc : (a b c : Option Str) → or_later (or_later a b) c ≡ or_later a (or_later b c)
or_later_assoc none b c = refl
or_later_assoc (some v) b c = refl

Takes-append :
    (s : Submission) (fs : List Field) (t : Submission) (gs : List Field) (u : Submission)
    → Takes s fs t
    → Takes t gs u
    → Takes s (fs ++ gs) u
Takes-append s fs t gs u first next = record {
  fields =
      next.fields
      ∙ ap (λ (l : List Field). l ++ keep_if is_forwarded gs) first.fields
      ∙ append_assoc s.fields (keep_if is_forwarded fs) (keep_if is_forwarded gs)
      ∙ ap (λ (l : List Field). s.fields ++ l) (sym (keep_if-append is_forwarded fs gs));
  control = λ n.
      let a : List (Str × Str) = name_and_value (keep_if is_kept_apart fs) in
      let b : List (Str × Str) = name_and_value (keep_if is_kept_apart gs) in
      next.control n
      ∙ ap (λ (o : Option Str). or_later o (lookup n b)) (first.control n)
      ∙ or_later_assoc (lookup n s.control) (lookup n a) (lookup n b)
      ∙ ap (or_later (lookup n s.control)) (
          sym (
            ap (lookup n) (
              ap name_and_value (keep_if-append is_kept_apart fs gs)
              ∙ name_and_value-append (keep_if is_kept_apart fs) (keep_if is_kept_apart gs))
            ∙ lookup-append n a b));
}

or_later-some : (o p : Option Str) → is_some o ≡ true → or_later o p ≡ o
or_later-some none p h = cc
or_later-some (some v) p h = refl

-- A control field that is there already is left out, and found all the same.
lookup-known :
    (name value n : Str) (table : List (Str × Str))
    → is_some (lookup name table) ≡ true
    → lookup n table ≡ or_later (lookup n table) (lookup n ((name, value) ∷ []))
unfolding lookup
lookup-known name value n table there = elim (Bool-cases (str_eq name n)) [
  | inl same ↦
      let it : name ≡ n = (str_eq_iff name n).0 same in
      sym (or_later-some (lookup n table) _ (subst (λ k. is_some (lookup k table) ≡ true) it there))
  | inr other ↦ rw other (sym (or_later-none (lookup n table)))
]

with_control-Takes :
    (name value : Str) (s : Submission)
    → str_eq name [] ≡ false
    → is_control_name name ≡ true
    → Takes s (record { name = name; value = value } ∷ []) (with_control name value s)
with_control-Takes name value s some_name control =
    elim (Bool-cases (is_some (lookup name s.control))) [
      | inl there ↦ rw there (record {
        fields = rw some_name (rw control (sym (append-nil s.fields)));
        control = λ n. rw some_name (rw control (lookup-known name value n s.control there));
      })
      | inr fresh ↦ rw fresh (record {
        fields = rw some_name (rw control (sym (append-nil s.fields)));
        control = λ n. rw some_name (rw control (lookup-append n s.control ((name, value) ∷ [])));
      })
    ]

module _ (lib : Library) where
  -- The field that a pair of a query stands for, or nothing for an empty pair.
  abbrev field_of : Result (Str × Str) → List Field
  field_of (err why) = []
  field_of (ok (name, value)) = record { name = lib.to_valid name; value = lib.to_valid value } ∷ []

  unfoldable pub fields_of : List Str → List Field
  fields_of [] = []
  fields_of (pair ∷ pairs) =
      (if str_eq pair [] then [] else field_of (pair_of lib pair)) ++ fields_of pairs

  add_field-Takes :
      (name value : Str) (s t : Submission)
      → str_eq name [] ≡ false
      → is_control_name name ≡ false
      → add_field lib name value s ≡ ok t
      → Takes s (record { name = name; value = value } ∷ []) t
  unfolding add_field lookup
  add_field-Takes name value s t some_name plain e =
      let (a, room, e) = >>=-eq-ok (require (ltb (length s.fields) max_fields) (refused 400)) _ e in
      let (b, short, e) =
        >>=-eq-ok (require (leb (lib.rune_count value) max_value_runes) (refused 400)) _ e in
      let f : Field = record { name = name; value = value } in
      let u : Submission = record s { fields = s.fields ++ f ∷ [] } in
      let same : u ≡ t = cc in
      subst (Takes s (f ∷ [])) same (record {
        fields = rw some_name (rw plain refl);
        control = λ n. rw some_name (rw plain (sym (or_later-none (lookup n s.control))));
      })

  add_valid-Takes :
      (name value : Str) (s t : Submission)
      → add_valid lib name value s ≡ ok t
      → Takes s (record { name = name; value = value } ∷ []) t
  unfolding add_valid lookup
  add_valid-Takes name value s t e = elim (Bool-cases (str_eq name [])) [
    | inl nothing ↦
        let kept : ok s ≡ ok t = ground arith in
        let same : s ≡ t = cc in
        subst (Takes s (record { name = name; value = value } ∷ [])) same (record {
          fields = rw nothing (sym (append-nil s.fields));
          control = λ n. rw nothing (sym (or_later-none (lookup n s.control)));
        })
    | inr some_name ↦ elim (Bool-cases (is_control_name name)) [
      | inl control ↦
          let kept : ok (with_control name value s) ≡ ok t = ground arith in
          let same : with_control name value s ≡ t = cc in
          subst (Takes s (record { name = name; value = value } ∷ [])) same
            (with_control-Takes name value s some_name control)
      | inr plain ↦ add_field-Takes name value s t some_name plain (ground arith)
    ]
  ]

  add_pair-Takes :
      (pair : Str) (s t : Submission)
      → add_pair lib pair s ≡ ok t
      → Takes s (if str_eq pair [] then [] else field_of (pair_of lib pair)) t
  unfolding add_pair add_named add
  add_pair-Takes pair s t e = elim (Bool-cases (str_eq pair [])) [
    | inl nothing ↦
        let kept : ok s ≡ ok t = ground arith in
        let same : s ≡ t = cc in rw nothing (subst (Takes s []) same (Takes-nothing s))
    | inr some_pair ↦
        let added : (pair_of lib pair >>= λ p. add_named lib p s) ≡ ok t = ground arith in
        let ((name, value), found, added) = >>=-eq-ok (pair_of lib pair) _ added in
        rw some_pair (rw found (add_valid-Takes (lib.to_valid name) (lib.to_valid value) s t added))
  ]

  add_pairs-Takes :
      (pairs : List Str) (s t : Submission)
      → add_pairs lib pairs s ≡ ok t
      → Takes s (fields_of pairs) t
  unfolding add_pairs fields_of
  add_pairs-Takes [] s t e = let same : s ≡ t = cc in subst (Takes s []) same (Takes-nothing s)
  add_pairs-Takes (pair ∷ pairs) s t e =
      let (u, first, e) = >>=-eq-ok (add_pair lib pair s) _ e in
      Takes-append s _ u (fields_of pairs) t (add_pair-Takes pair s u first)
        (add_pairs-Takes pairs u t e)

-- A url-encoded form that is accepted forwards exactly its pairs whose names are not empty and not those
-- of control fields, in the order in which they were sent, and keeps of each control field the value
-- that was sent first.
pub parse_form-order :
    (lib : Library) (lim : Limits) (body : Str) (s : Submission)
    → parse_form lib lim (url_encoded body) ≡ ok s
    → (s.fields ≡ keep_if is_forwarded (fields_of lib (split b'&' body)))
      × ((n : Str)
          → lookup n s.control
            ≡ lookup n (name_and_value (keep_if is_kept_apart (fields_of lib (split b'&' body)))))
unfolding parse_form parse_url_encoded lookup
parse_form-order lib lim body s e =
    let raw : Str = take (max_text_bytes + 1) body in
    let (a, short, e) = >>=-eq-ok (require (leb (length raw) max_text_bytes) (refused 413)) _ e in
    let fits = length-of_take max_text_bytes body (leb→le _ _ (require-true _ _ a short)) in
    let whole : raw ≡ body = take_whole (max_text_bytes + 1) body (omega arith) in
    let taken =
      subst (λ b. Takes empty_submission (fields_of lib (split b'&' b)) s) whole
        (add_pairs-Takes lib (split b'&' raw) empty_submission s e) in
    (taken.fields, taken.control)
