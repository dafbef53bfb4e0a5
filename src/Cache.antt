-- ===== src/Cache.antt =====
-- internal/auth/cache.go: which credentials were verified lately. Each operation is one critical
-- section; the clock is an argument of it.
pub mod Refines
use sitebin_io.Base.{
  ℕ, ◌+◌, Bool, true, false, not, List, [], ◌∷◌, Option, none, some, ltb, if◌then◌else◌, Str,
  str_eq, lookup, insert, delete, length,
}
use sitebin_io.Text.{has_prefix}

abbrev pub Time : Type 0
Time = ℕ

-- From a key to its expiry.
abbrev pub Cache : Type 0
Cache = List (Str × Time)

-- The entries whose key passes: a loop over the map that deletes the others.
unfoldable pub keep_keys : (Str → Bool) → Cache → Cache
keep_keys p [] = []
keep_keys p ((k, exp) ∷ m) = let rest = keep_keys p m in if p k then (k, exp) ∷ rest else rest

-- `now.After(exp)`, for a key that is there.
abbrev pub expired : Time → Option Time → Bool
expired now none = false
expired now (some exp) = ltb exp now

unfoldable pub prune : Time → Cache → Cache
unfolding keep_keys
prune now m = keep_keys (λ k. not (expired now (lookup k m))) m

abbrev pub check_entry : Time → Str → Cache → Option Time → Bool × Cache
check_entry now key m none = (false, m)
check_entry now key m (some exp) = if ltb exp now then (false, delete key m) else (true, m)

-- `Check`.
unfoldable pub check : Time → Str → Cache → Bool × Cache
check now key m = check_entry now key m (lookup key m)

abbrev pub max_entries : ℕ
max_entries = 4096

-- `Put`.
unfoldable pub put : Time → ℕ → Str → Cache → Cache
unfolding prune
put now ttl key m = insert key (now + ttl) (if ltb max_entries (length m) then prune now m else m)

-- `Drop`.
unfoldable pub drop_prefix : Str → Cache → Cache
unfolding keep_keys
drop_prefix prefix m = keep_keys (λ k. not (has_prefix k prefix)) m
