-- ===== src/Forms.antt =====
-- internal/forms/parse.go: what a form post is read as, and what is refused. The query unescaping, the
-- MIME table, the count of characters and the repair of broken UTF-8 are arguments; of a request this
-- is the part after its media type and boundary are read.
pub mod Filename
pub mod Safe
pub mod Accepted
pub mod Order
use sitebin_io.Base.{
  ℕ, zero, suc, ◌+◌, ◌-◌, ◌*◌, ◌^◌, Bool, true, false, not, ◌&&◌, ◌||◌, List, [], ◌∷◌, ◌++◌, Option,
  none, some, is_some, if◌then◌else◌, leb, ltb, ◌==◌, Str, codes, str_eq, contains, lookup, keep_if,
  any, length, take, drop, Error, refused, Result, ok, err, require, ◌>>=◌, ◌>>◌,
}
use sitebin_io.Forms.Filename.{blocked_ext, clean_filename}
use sitebin_io.Text.{to_lower, has_prefix, trim_space, path_ext, cut, cut_last, split, occurs}

abbrev pub max_fields : ℕ
max_fields = 50

abbrev pub max_value_runes : ℕ
max_value_runes = 10_000

abbrev pub max_text_bytes : ℕ
max_text_bytes = 256 * 2 ^ 10

pub record Field : Type 0 where
  pub name : Str
  pub value : Str

-- `File`; `bytes` is its `Data`.
pub record File : Type 0 where
  pub field : Str
  pub filename : Str
  pub content_type : Str
  pub bytes : Str

pub record Submission : Type 0 where
  pub fields : List Field
  pub control : List (Str × Str)
  pub files : List File

-- `Honeypot`.
unfoldable pub honeypot : Submission → Bool
honeypot s = elim (lookup (codes "_gotcha") s.control) [
  | none ↦ false
  | some value ↦ not (str_eq (trim_space value) [])
]

-- `HasContent`.
unfoldable pub has_content : Submission → Bool
has_content s = any (λ f. not (str_eq (trim_space f.value) [])) s.fields

pub record Limits : Type 0 where
  pub allow_files : Bool
  pub max_files : ℕ
  pub max_file_bytes : ℕ

-- What the code asks of Go's packages net/url, unicode/utf8, strings and mime.
pub record Library : Type 0 where
  pub query_unescape : Str → Option Str
  pub rune_count : Str → ℕ
  pub to_valid : Str → Str
  pub type_of : Str → Str

-- A part of a multipart body: its name, the file name if it is a file, and what reading it gives; a
-- failure is the refusal that `bodyError` makes of it.
pub record Part : Type 0 where
  pub name : Str
  pub filename : Option Str
  pub body : Result Str

-- Whether a name is that of a control field, which is never forwarded.
abbrev pub is_control_name : Str → Bool
is_control_name name = str_eq name (codes "altcha") || has_prefix name (codes "_")

abbrev pub or_octets : Str → Str
or_octets t = if str_eq t [] then codes "application/octet-stream" else t

abbrev pub with_control : Str → Str → Submission → Submission
with_control name value s =
    if is_some (lookup name s.control)
    then s
    else record s { control = s.control ++ (name, value) ∷ [] }

abbrev pub unescaped : Option Str → Option Str → Result (Str × Str)
unescaped none value = err (refused 400)
unescaped (some name) none = err (refused 400)
unescaped (some name) (some value) = ok (name, value)

abbrev pub or_empty : Option Str → Str
or_empty none = []
or_empty (some s) = s

-- An untouched file input is an empty part, also where the form takes no files.
abbrev pub without_files : Result Str → Submission → Result Submission
without_files (ok (b ∷ bytes)) s = err (refused 400)
without_files (ok []) s = ok s
without_files (err why) s = ok s

abbrev pub with_text : ℕ → Result Submission → Result (ℕ × Submission)
with_text text (err why) = err why
with_text text (ok s) = ok (text, s)

module _ (lib : Library) where
  unfoldable pub add_field : Str → Str → Submission → Result Submission
  add_field name value s = do
    require (ltb (length s.fields) max_fields) (refused 400)
    require (leb (lib.rune_count value) max_value_runes) (refused 400)
    ok (record s { fields = s.fields ++ record { name = name; value = value } ∷ [] })

  -- The part of `Submission.add` after the repair of its arguments.
  unfoldable pub add_valid : Str → Str → Submission → Result Submission
  unfolding add_field
  add_valid name value s =
      if str_eq name []
      then ok s
      else if is_control_name name
      then ok (with_control name value s)
      else add_field name value s

  -- `Submission.add`.
  unfoldable pub add : Str → Str → Submission → Result Submission
  unfolding add_valid
  add name value s = add_valid (lib.to_valid name) (lib.to_valid value) s

  -- The name and the value of one pair of a query.
  unfoldable pub pair_of : Str → Result (Str × Str)
  pair_of pair =
      let (k, v) = cut b'=' pair in
      unescaped (lib.query_unescape k) (lib.query_unescape (or_empty v))

  unfoldable pub add_named : Str × Str → Submission → Result Submission
  unfolding add
  add_named (name, value) s = add name value s

  -- One pair of a query; an empty one is skipped.
  unfoldable pub add_pair : Str → Submission → Result Submission
  unfolding pair_of add_named
  add_pair pair s = if str_eq pair [] then ok s else pair_of pair >>= λ p. add_named p s

  -- The loop of `parseURLEncoded`.
  unfoldable pub add_pairs : List Str → Submission → Result Submission
  unfolding add_pair
  add_pairs [] s = ok s
  add_pairs (pair ∷ pairs) s = do s ← add_pair pair s; add_pairs pairs s

  -- `parseURLEncoded` on a body that can be read.
  unfoldable pub parse_url_encoded : Str → Submission → Result Submission
  unfolding add_pairs
  parse_url_encoded body s =
      let raw = take (max_text_bytes + 1) body in
      do require (leb (length raw) max_text_bytes) (refused 413); add_pairs (split b'&' raw) s

  abbrev pub file_of : Str → Str → Str → File
  file_of name filename bytes = record {
    field = lib.to_valid name;
    filename = filename;
    content_type = or_octets (lib.type_of (to_lower (path_ext filename)));
    bytes = bytes;
  }

  -- A file that is not empty, in a form that takes files; the bytes are read up to one past the limit.
  unfoldable pub add_file : Limits → Str → Str → Str → Submission → Result Submission
  add_file lim name filename bytes s = do
    require (leb (length bytes) lim.max_file_bytes) (refused 413)
    require (ltb (length s.files) lim.max_files) (refused 400)
    require
        (not (contains (to_lower (path_ext (clean_filename lib.to_valid filename))) blocked_ext))
        (refused 400)
    ok (record s {
      files = s.files ++ file_of name (clean_filename lib.to_valid filename) bytes ∷ [];
    })

  abbrev pub add_file_if : Limits → Str → Str → Str → Submission → Result Submission
  add_file_if lim name filename [] s = ok s
  add_file_if lim name filename (b ∷ bytes) s = add_file lim name filename (b ∷ bytes) s

  unfoldable pub add_file_part : Limits → Str → Str → Result Str → Submission → Result Submission
  unfolding add_file
  add_file_part lim name filename body s =
      let taken = (do
        bytes ← body
        add_file_if lim name filename (take (lim.max_file_bytes + 1) bytes) s) in
      if not lim.allow_files || lim.max_files == 0 then without_files body s else taken

  -- A part that is no file, with the bytes of text so far.
  unfoldable pub add_text_part : ℕ → Str → Result Str → Submission → Result (ℕ × Submission)
  unfolding add
  add_text_part text name body s = do
    bytes ← body
    let v = take (max_text_bytes - text + 1) bytes
    require (leb (text + length name + length v) max_text_bytes) (refused 413)
    s ← add name v s
    ok (text + length name + length v, s)

  unfoldable pub add_part : Limits → ℕ → Part → Submission → Result (ℕ × Submission)
  unfolding add_text_part add_file_part
  add_part lim text part s = elim part.filename [
    | none ↦ add_text_part text part.name part.body s
    | some filename ↦ with_text text (add_file_part lim part.name filename part.body s)
  ]

  -- `parseMultipart`: what comes after the last part is the end of the body, or a failure.
  unfoldable pub parse_multipart :
      Limits → ℕ → List Part → Result (Unit {0}) → Submission → Result Submission
  unfolding add_part
  parse_multipart lim text [] ended s = do ended; ok s
  parse_multipart lim text (part ∷ parts) ended s = do
    (text, s) ← add_part lim text part s
    parse_multipart lim text parts ended s

abbrev pub empty_submission : Submission
empty_submission = record { fields = []; control = []; files = [] }

-- A body by its media type.
pub data Body : Type 0 where
  url_encoded : Str → Body
  multipart : List Part → Result (Unit {0}) → Body

-- `Parse`.
unfoldable pub parse_form : Library → Limits → Body → Result Submission
unfolding parse_url_encoded parse_multipart
parse_form lib lim (url_encoded body) = parse_url_encoded lib body empty_submission
parse_form lib lim (multipart parts ended) = parse_multipart lib lim 0 parts ended empty_submission
