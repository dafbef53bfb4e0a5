-- ===== src/Forms/Accepted.antt =====
-- internal/forms/parse.go: what a submission that is accepted holds.
use sitebin_io.Base.{
  ℕ, ◌+◌, ◌-◌, ◌≤◌, ◌<◌, ◌≡◌, refl, subst, arith, Bool, Bool-cases, inl, inr, true, false, not,
  ◌&&◌, ◌||◌, List, [], ◌∷◌, ◌++◌, Option, none, some, is_some, if◌then◌else◌, leb, ltb, ◌==◌, Str,
  str_eq, contains, lookup, any, length, length-append, take, refused, Result, ok, err, require,
  ◌>>=◌, >>=-eq-ok, require-true,
}
use sitebin_io.Text.{to_lower, path_ext, split, occurs}
use sitebin_io.Forms.{
  Field, File, Submission, Limits, Library, Part, Body, url_encoded, multipart, max_fields,
  max_value_runes, is_control_name, with_control, add_field, add_valid, add, add_named, add_pair,
  add_pairs, pair_of, parse_url_encoded, file_of, add_file, add_file_if, without_files, with_text,
  add_file_part, add_text_part, add_part, parse_multipart, parse_form, empty_submission,
  max_text_bytes,
}
use sitebin_io.Forms.Filename.{clean_filename, blocked_ext}
use sitebin_io.Forms.Safe.{safe_name, clean_filename-safe}

any-snoc {ℓ} :
    {A : Type ℓ} (p : A → Bool) (xs : List A) (x : A) → any p (xs ++ x ∷ []) ≡ (any p xs || p x)
any-snoc p [] x = ground arith
any-snoc p (y ∷ xs) x = ground (arith, any-snoc p xs x)

with_text-ok :
    (text : ℕ) (r : Result Submission) (n : ℕ) (t : Submission)
    → with_text text r ≡ ok (n, t)
    → r ≡ ok t
with_text-ok text (err why) n t e = cc
with_text-ok text (ok s) n t e = cc

module _ (lib : Library) where
  -- A field that may be forwarded.
  unfoldable pub field_fits : Field → Bool
  field_fits f =
      not (str_eq f.name [])
      && not (is_control_name f.name)
      && leb (lib.rune_count f.value) max_value_runes

  -- A file that may be attached.
  unfoldable pub file_fits : Limits → File → Bool
  file_fits lim f =
      ltb 0 (length f.bytes)
      && leb (length f.bytes) lim.max_file_bytes
      && safe_name f.filename
      && not (contains (to_lower (path_ext f.filename)) blocked_ext)

  pub record IsAccepted (lim : Limits) (s : Submission) : Type 0 where
    pub few_fields : length s.fields ≤ max_fields
    pub fields_fit : any (λ f. not (field_fits f)) s.fields ≡ false
    pub few_files : length s.files ≤ (if lim.allow_files then lim.max_files else 0)
    pub files_fit : any (λ f. not (file_fits lim f)) s.files ≡ false
    pub only_control : any (λ c. not (is_control_name (c.0))) s.control ≡ false

  module _ (lim : Limits) where
    with_control-IsAccepted :
        (name value : Str) (s : Submission)
        → is_control_name name ≡ true
        → IsAccepted lim s
        → IsAccepted lim (with_control name value s)
    with_control-IsAccepted name value s control h =
        elim (Bool-cases (is_some (lookup name s.control))) [
          | inl e ↦ rw e h
          | inr e ↦ rw e (record {
            few_fields = h.few_fields;
            fields_fit = h.fields_fit;
            few_files = h.few_files;
            files_fit = h.files_fit;
            only_control = ground (
              arith,
              h.only_control,
              any-snoc (λ (c : Str × Str). not (is_control_name (c.0))) s.control (name, value),
            );
          })
        ]

    add_field-IsAccepted :
        (name value : Str) (s t : Submission)
        → str_eq name [] ≡ false
        → is_control_name name ≡ false
        → IsAccepted lim s
        → add_field lib name value s ≡ ok t
        → IsAccepted lim t
    unfolding add_field field_fits
    add_field-IsAccepted name value s t some_name plain h e =
        let (a, room, e) =
          >>=-eq-ok (require (ltb (length s.fields) max_fields) (refused 400)) _ e in
        let (b, short, e) =
          >>=-eq-ok (require (leb (lib.rune_count value) max_value_runes) (refused 400)) _ e in
        let room = require-true _ _ a room in
        let short = require-true _ _ b short in
        let f : Field = record { name = name; value = value } in
        let u : Submission = record s { fields = s.fields ++ f ∷ [] } in
        let same : u ≡ t = cc in
        subst (IsAccepted lim) same (record {
          few_fields = ground (arith, room, length-append s.fields (f ∷ []));
          fields_fit = ground (
            arith,
            h.fields_fit,
            short,
            some_name,
            plain,
            any-snoc (λ f. not (field_fits f)) s.fields f,
          );
          few_files = h.few_files;
          files_fit = h.files_fit;
          only_control = h.only_control;
        })

    add_valid-IsAccepted :
        (name value : Str) (s t : Submission)
        → IsAccepted lim s
        → add_valid lib name value s ≡ ok t
        → IsAccepted lim t
    unfolding add_valid
    add_valid-IsAccepted name value s t h e = elim (Bool-cases (str_eq name [])) [
      | inl nothing ↦
          let kept : ok s ≡ ok t = ground arith in
          let same : s ≡ t = cc in subst (IsAccepted lim) same h
      | inr some_name ↦ elim (Bool-cases (is_control_name name)) [
        | inl control ↦
            let kept : ok (with_control name value s) ≡ ok t = ground arith in
            let same : with_control name value s ≡ t = cc in
            subst (IsAccepted lim) same (with_control-IsAccepted name value s control h)
        | inr plain ↦ add_field-IsAccepted name value s t some_name plain h (ground arith)
      ]
    ]

    add_pair-IsAccepted :
        (pair : Str) (s t : Submission)
        → IsAccepted lim s
        → add_pair lib pair s ≡ ok t
        → IsAccepted lim t
    unfolding add_pair add_named add
    add_pair-IsAccepted pair s t h e = elim (Bool-cases (str_eq pair [])) [
      | inl nothing ↦
          let kept : ok s ≡ ok t = ground arith in
          let same : s ≡ t = cc in subst (IsAccepted lim) same h
      | inr some_pair ↦
          let added : (pair_of lib pair >>= λ p. add_named lib p s) ≡ ok t = ground arith in
          let ((name, value), found, added) = >>=-eq-ok (pair_of lib pair) _ added in
          add_valid-IsAccepted (lib.to_valid name) (lib.to_valid value) s t h added
    ]

    add_pairs-IsAccepted :
        (pairs : List Str) (s t : Submission)
        → IsAccepted lim s
        → add_pairs lib pairs s ≡ ok t
        → IsAccepted lim t
    unfolding add_pairs
    add_pairs-IsAccepted [] s t h e = let same : s ≡ t = cc in subst (IsAccepted lim) same h
    add_pairs-IsAccepted (pair ∷ pairs) s t h e =
        let (u, first, e) = >>=-eq-ok (add_pair lib pair s) _ e in
        add_pairs-IsAccepted pairs u t (add_pair-IsAccepted pair s u h first) e

    module _
        (keeps : (s : Str) (b : ℕ)
          → b < 128
          → occurs b s ≡ false
          → occurs b (lib.to_valid s) ≡ false) where
      add_file-IsAccepted :
          (name filename bytes : Str) (s t : Submission)
          → lim.allow_files ≡ true
          → 0 < length bytes
          → IsAccepted lim s
          → add_file lib lim name filename bytes s ≡ ok t
          → IsAccepted lim t
      unfolding add_file file_fits
      add_file-IsAccepted name filename bytes s t allowed some_bytes h e =
          let n : Str = clean_filename lib.to_valid filename in
          let (a, short, e) =
            >>=-eq-ok (require (leb (length bytes) lim.max_file_bytes) (refused 413)) _ e in
          let (b, room, e) =
            >>=-eq-ok (require (ltb (length s.files) lim.max_files) (refused 400)) _ e in
          let (c, harmless, e) =
            >>=-eq-ok (require (not (contains (to_lower (path_ext n)) blocked_ext)) (refused 400)) _
              e in
          let short = require-true _ _ a short in
          let room = require-true _ _ b room in
          let harmless = require-true _ _ c harmless in
          let safe = clean_filename-safe lib.to_valid filename keeps in
          let f : File = file_of lib name n bytes in
          let u : Submission = record s { files = s.files ++ f ∷ [] } in
          let same : u ≡ t = cc in
          subst (IsAccepted lim) same (record {
            few_fields = h.few_fields;
            fields_fit = h.fields_fit;
            few_files = rw allowed (ground (arith, room, length-append s.files (f ∷ [])));
            files_fit = ground (
              arith,
              h.files_fit,
              short,
              harmless,
              safe,
              some_bytes,
              any-snoc (λ f. not (file_fits lim f)) s.files f,
            );
            only_control = h.only_control;
          })

      add_file_if-IsAccepted :
          (name filename bytes : Str) (s t : Submission)
          → lim.allow_files ≡ true
          → IsAccepted lim s
          → add_file_if lib lim name filename bytes s ≡ ok t
          → IsAccepted lim t
      add_file_if-IsAccepted name filename [] s t allowed h e =
          let same : s ≡ t = cc in subst (IsAccepted lim) same h
      add_file_if-IsAccepted name filename (b ∷ bytes) s t allowed h e =
          add_file-IsAccepted name filename (b ∷ bytes) s t allowed (omega arith) h e

      without_files-same :
          (body : Result Str) (s t : Submission) → without_files body s ≡ ok t → s ≡ t
      without_files-same (ok (b ∷ bytes)) s t e = cc
      without_files-same (ok []) s t e = cc
      without_files-same (err why) s t e = cc

      add_file_part-IsAccepted :
          (name filename : Str) (body : Result Str) (s t : Submission)
          → IsAccepted lim s
          → add_file_part lib lim name filename body s ≡ ok t
          → IsAccepted lim t
      unfolding add_file_part
      add_file_part-IsAccepted name filename body s t h e =
          elim (Bool-cases (not lim.allow_files || lim.max_files == 0)) [
            | inl refuses ↦ subst (IsAccepted lim) (without_files-same body s t (ground arith)) h
            | inr takes ↦
                let added : (body >>= λ bytes.
                add_file_if lib lim name filename (take (lim.max_file_bytes + 1) bytes) s)
                    ≡ ok t =
                  ground arith in
                let (bytes, read, added) = >>=-eq-ok body _ added in
                add_file_if-IsAccepted name filename _ s t (ground arith) h added
          ]

      add_text_part-IsAccepted :
          (text : ℕ) (name : Str) (body : Result Str) (s : Submission) (n : ℕ) (t : Submission)
          → IsAccepted lim s
          → add_text_part lib text name body s ≡ ok (n, t)
          → IsAccepted lim t
      unfolding add_text_part add
      add_text_part-IsAccepted text name body s n t h e =
          let (bytes, read, e) = >>=-eq-ok body _ e in
          let v : Str = take (max_text_bytes - text + 1) bytes in
          let (a, short, e) =
            >>=-eq-ok (require (leb (text + length name + length v) max_text_bytes) (refused 413)) _
              e in
          let (u, added, e) = >>=-eq-ok (add lib name v s) _ e in
          let same : u ≡ t = cc in
          subst (IsAccepted lim) same
            (add_valid-IsAccepted (lib.to_valid name) (lib.to_valid v) s u h added)

      add_part-IsAccepted :
          (text : ℕ) (part : Part) (o : Option Str) (s : Submission) (n : ℕ) (t : Submission)
          → part.filename ≡ o
          → IsAccepted lim s
          → add_part lib lim text part s ≡ ok (n, t)
          → IsAccepted lim t
      unfolding add_part
      add_part-IsAccepted text part none s n t plain h e =
          add_text_part-IsAccepted text part.name part.body s n t h (ground arith)
      add_part-IsAccepted text part (some filename) s n t attached h e =
          let first = add_file_part lib lim part.name filename part.body s in
          let added : with_text text first ≡ ok (n, t) = ground arith in
          add_file_part-IsAccepted part.name filename part.body s t h
            (with_text-ok text first n t added)

      parse_multipart-IsAccepted :
          (text : ℕ) (parts : List Part) (ended : Result (Unit {0})) (s t : Submission)
          → IsAccepted lim s
          → parse_multipart lib lim text parts ended s ≡ ok t
          → IsAccepted lim t
      unfolding parse_multipart
      parse_multipart-IsAccepted text [] ended s t h e =
          let (a, good, e) = >>=-eq-ok ended _ e in
          let same : s ≡ t = cc in subst (IsAccepted lim) same h
      parse_multipart-IsAccepted text (part ∷ parts) ended s t h e =
          let ((n, u), first, e) = >>=-eq-ok (add_part lib lim text part s) _ e in
          let one : IsAccepted lim u =
            add_part-IsAccepted text part part.filename s n u refl h first in
          parse_multipart-IsAccepted n parts ended u t one e

  empty-IsAccepted : (lim : Limits) → IsAccepted lim empty_submission
  empty-IsAccepted lim = record {
    few_fields = omega arith;
    fields_fit = refl;
    few_files = omega arith;
    files_fit = refl;
    only_control = refl;
  }

-- A submission that is accepted has at most fifty fields to forward, none of them without a name or
-- with that of a control field, each value within the limit of characters; it keeps apart only control
-- fields; and it has files only if the form takes them, no more than it takes, none of them empty or too
-- large, each under a name without slashes and control characters, of 1 to 150 bytes, that is no folder
-- and has no refused extension, where the repair of broken UTF-8 brings in no ASCII character.
pub parse_form-IsAccepted :
    (lib : Library) (lim : Limits) (body : Body) (s : Submission)
    → ((t : Str) (b : ℕ) → b < 128 → occurs b t ≡ false → occurs b (lib.to_valid t) ≡ false)
    → parse_form lib lim body ≡ ok s
    → IsAccepted lib lim s
unfolding parse_form parse_url_encoded
parse_form-IsAccepted lib lim (url_encoded body) s keeps e =
    let raw : Str = take (max_text_bytes + 1) body in
    let (a, short, e) = >>=-eq-ok (require (leb (length raw) max_text_bytes) (refused 413)) _ e in
    add_pairs-IsAccepted lib lim (split b'&' raw) empty_submission s (empty-IsAccepted lib lim) e
parse_form-IsAccepted lib lim (multipart parts ended) s keeps e =
    parse_multipart-IsAccepted lib lim keeps 0 parts ended empty_submission s
      (empty-IsAccepted lib lim) e
