-- ===== src/Rules/Dests.antt =====
-- internal/abuse/rules.go: the destinations that reports of blocked requests are compared with.
-- `url.Parse`, with the host name and the escaped path of its answer, is an argument.
use sitebin_io.Base.{
  ℕ, Bool, false, not, ◌&&◌, ◌||◌, List, [], ◌∷◌, ◌++◌, Option, none, some, if◌then◌else◌, leb,
  ◌==◌, Str, codes, str_eq, contains, any, length, find, bad_rules, Result, ok, err, require, ◌>>=◌,
  ◌>>◌,
}
use sitebin_io.Text.{
  to_lower, has_prefix, has_suffix, trim_space, trim_prefix, trim_suffix, cut, occurs,
}

-- The destination actions.
abbrev pub action_lock : Str
action_lock = codes "lock"

abbrev pub action_alert : Str
action_alert = codes "alert"

abbrev pub action_off : Str
action_off = codes "off"

-- `Destination`; its host and path are set by `compile`.
pub record Destination : Type 0 where
  pub id : Str
  pub url : Str
  pub action : Str
  pub host : Str
  pub path : Str

abbrev pub is_digit_or_letter : ℕ → Bool
is_digit_or_letter c = leb b'a' c && leb c b'z' || leb b'0' c && leb c b'9'

abbrev pub is_id_byte : ℕ → Bool
is_id_byte c = is_digit_or_letter c || c == b':' || c == b'.' || c == b'_' || c == b'-'

-- `idRe`.
unfoldable pub valid_id : Str → Bool
valid_id [] = false
valid_id (c ∷ s) =
    is_digit_or_letter c && leb (length s) 63 && not (any (λ d. not (is_id_byte d)) s)

abbrev pub not_in_host : Str → Bool
not_in_host host = any (λ c. occurs c (codes " :@?#")) host

abbrev pub with_slash : Option Str → Str
with_slash none = []
with_slash (some []) = []
with_slash (some (c ∷ path)) = b'/' ∷ trim_suffix (c ∷ path) (codes "/")

abbrev pub host_and_path : Str × Option Str → Result (Str × Str)
host_and_path (host, path) = do
  require (not (str_eq host [] || not_in_host host)) bad_rules
  ok (host, with_slash path)

-- `splitDestination`.
unfoldable pub split_destination : Str → Result (Str × Str)
split_destination url =
    let raw = to_lower (trim_space url) in
    host_and_path (cut b'/' (trim_prefix (trim_prefix raw (codes "https://")) (codes "http://")))

-- The action in force: none where the destination is off.
unfoldable pub action_of : Str → Result (Option Str)
action_of a =
    if str_eq a []
    then ok (some action_lock)
    else if str_eq a action_lock || str_eq a action_alert
    then ok (some a)
    else if str_eq a action_off
    then ok none
    else err bad_rules

unfoldable pub dest_with : Option Str → Destination → Result (List Destination)
unfolding split_destination
dest_with none d = ok []
dest_with (some action) d = do
  (host, path) ← split_destination d.url
  ok (record d { action = action; host = host; path = path } ∷ [])

-- One round of the loop of `compile` over the destinations.
unfoldable pub compile_dest : List Str → Destination → Result (List Destination)
unfolding valid_id action_of dest_with
compile_dest seen d = do
  require (valid_id d.id && not (contains d.id seen)) bad_rules
  action ← action_of d.action
  dest_with action d

unfoldable pub compile_dests : List Str → List Destination → Result (List Destination)
unfolding compile_dest
compile_dests seen [] = ok []
compile_dests seen (d ∷ dests) = do
  one ← compile_dest seen d
  more ← compile_dests (d.id ∷ seen) dests
  ok (one ++ more)

-- `strings.Contains(blocked, "://")`.
unfoldable pub has_scheme : Str → Bool
has_scheme [] = false
has_scheme (c ∷ s) = has_prefix (c ∷ s) (codes "://") || has_scheme s

-- Whether a destination covers a host and a path in lower case: a path that the browser left out, or
-- that names nothing below the host, matches by the host alone.
unfoldable pub dest_covers : Str → Str → Destination → Bool
dest_covers host path d =
    (str_eq host d.host || has_suffix host (b'.' ∷ d.host))
    && (str_eq d.path [] || str_eq path [] || str_eq path (codes "/") || has_prefix path d.path)

abbrev pub dest_at : List Destination → Option (Str × Str) → Option Destination
dest_at dests none = none
dest_at dests (some ([], path)) = none
dest_at dests (some (c ∷ host, path)) =
    find (dest_covers (to_lower (c ∷ host)) (to_lower path)) dests

-- `RuleSet.Destination`.
unfoldable pub destination :
    (Str → Option (Str × Str)) → List Destination → Str → Option Destination
unfolding has_scheme dest_covers
destination parse_url dests report =
    let blocked = trim_space report in
    if str_eq blocked []
    then none
    else dest_at dests
        (parse_url (if has_scheme blocked then blocked else codes "https://" ++ blocked))
