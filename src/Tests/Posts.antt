-- ===== src/Tests/Posts.antt =====
-- Form posts.
use sitebin_io.Base.{
  ℕ, ◌≡◌, ◌≤◌, ◌<◌, refl, Bool, true, false, List, [], ◌∷◌, ◌++◌, Option, none, some, Str, codes,
  keep_if, lookup, length, Result, ok, err, refused, arith,
}
use sitebin_io.Text.{split, occurs}
use sitebin_io.Forms.{Submission, Limits, Library, Part, Body, url_encoded, multipart, parse_form}
use sitebin_io.Forms.Filename.{clean_filename}
use sitebin_io.Forms.Accepted.{IsAccepted, parse_form-IsAccepted}
use sitebin_io.Forms.Order.{
  is_forwarded, is_kept_apart, fields_of, name_and_value, parse_form-order,
}

abbrev same_text : Str → Str
same_text s = s

abbrev plain_library : Library
plain_library = record {
  query_unescape = λ s. some s;
  rune_count = λ s. length s;
  to_valid = same_text;
  type_of = λ e. codes "text/plain";
}

abbrev two_files : Limits
two_files = record { allow_files = true; max_files = 2; max_file_bytes = 4 }

abbrev query : Str
query = codes "b=1&_gotcha=&&a=2&_gotcha=x"

abbrev read_query : Submission
read_query = record {
  fields =
      record { name = codes "b"; value = codes "1" }
      ∷ record { name = codes "a"; value = codes "2" }
      ∷ [];
  control = (codes "_gotcha", []) ∷ [];
  files = [];
}

reads_query : parse_form plain_library two_files (url_encoded query) ≡ ok read_query
unfolding parse_form split sitebin_io.Base.str_eq sitebin_io.Text.cut sitebin_io.Text.has_prefix
    lookup
reads_query = refl

parse_form-order_example :
    (read_query.fields ≡ keep_if is_forwarded (fields_of plain_library (split b'&' query)))
    × ((n : Str)
        → lookup n read_query.control
          ≡ lookup n
              (name_and_value (keep_if is_kept_apart (fields_of plain_library (split b'&' query)))))
parse_form-order_example = parse_form-order plain_library two_files query read_query reads_query

abbrev upload : Str → Str → Part
upload name bytes = record { name = codes "f"; filename = some name; body = ok bytes }

abbrev read_upload : Submission
read_upload = record {
  fields = [];
  control = [];
  files =
      record {
        field = codes "f";
        filename = codes "a.txt";
        content_type = codes "text/plain";
        bytes = codes "abc";
      }
      ∷ [];
}

abbrev uploads : Body
uploads = multipart (upload (codes "C:\\fakepath\\a.txt") (codes "abc") ∷ upload [] [] ∷ []) (ok tt)

reads_upload : parse_form plain_library two_files uploads ≡ ok read_upload
unfolding parse_form sitebin_io.Base.contains sitebin_io.Base.str_eq sitebin_io.Text.to_lower
    sitebin_io.Text.path_ext clean_filename sitebin_io.Text.trim_space
reads_upload = refl

refuses_program :
    parse_form plain_library two_files
      (multipart (upload (codes "x/Run.EXE") (codes "abc") ∷ []) (ok tt))
    ≡ err (refused 400)
unfolding parse_form sitebin_io.Base.contains sitebin_io.Base.str_eq sitebin_io.Text.to_lower
    sitebin_io.Text.path_ext clean_filename sitebin_io.Text.trim_space
refuses_program = refl

refuses_large :
    parse_form plain_library two_files (multipart (upload (codes "a") (codes "abcde") ∷ []) (ok tt))
    ≡ err (refused 413)
unfolding parse_form
refuses_large = refl

names_folder : clean_filename same_text (codes "a/..") ≡ codes "attachment"
unfolding clean_filename sitebin_io.Base.str_eq sitebin_io.Text.trim_space
names_folder = refl

parse_form-IsAccepted_example : IsAccepted plain_library two_files read_upload
parse_form-IsAccepted_example =
    parse_form-IsAccepted plain_library two_files uploads read_upload (λ t b ascii h. h)
      reads_upload
