-- ===== src/Content.antt =====
-- internal/store/files.go: one file written into a site's content. The content is a table of the regular
-- files by their paths; whether a path is a folder or leads out of the site, and how each call on the
-- disk ends, are arguments.
pub mod Budget
pub mod Outcome
pub mod Save
pub mod Totals
use sitebin_io.Base.{
  ℕ, ◌+◌, ◌-◌, ◌*◌, ◌^◌, Bool, true, false, not, ◌&&◌, ◌||◌, List, [], ◌∷◌, ◌++◌, Option, none,
  some, is_some, if◌then◌else◌, leb, ltb, ◌==◌, Str, codes, str_eq, lookup, insert, delete, length,
  take, Error, bad_path, write_failed, too_large, too_many_files, Result, ok, err,
}
use sitebin_io.Meta.{Meta, is_container}

abbrev pub Files : Type 0
Files = List (Str × Str)

-- What stands at the path besides the files: nothing, a folder, or something out of reach.
pub data Place : Type 0 where
  free folder unreachable : Place

-- What the guard settles on the scan of the file.
pub data Settled : Type 0 where
  passes held discarded : Settled

-- How the calls on the disk end; `reached` are the bytes in the temporary file when the copying
-- fails, and `removed` is whether that file can be removed when it is not wanted any more.
pub record Ends : Type 0 where
  pub made_folders : Bool
  pub opened : Bool
  pub copied : Bool
  pub reached : ℕ
  pub closed : Bool
  pub settled : Settled
  pub renamed : Bool
  pub removed : Bool

-- What a caller learns: the bytes written and the size of the file that was replaced, and whether the
-- site is now held.
pub record Written : Type 0 where
  pub written : ℕ
  pub existing : ℕ
  pub is_held : Bool

abbrev pub size_of : Option Str → ℕ
size_of none = 0
size_of (some bytes) = length bytes

-- The bytes of all files.
abbrev pub total : Files → ℕ
total [] = 0
total ((path, bytes) ∷ files) = length bytes + total files

-- `EffMaxBytes`, with the instance's own cap.
unfoldable pub eff_max_bytes : ℕ → Meta → ℕ
eff_max_bytes max_site_bytes m = if ltb 0 m.quota.bytes then m.quota.bytes else max_site_bytes

-- `EffMaxFiles`: none where there is no cap.
unfoldable pub eff_max_files : ℕ → Meta → Option ℕ
eff_max_files max_files m =
    if is_container m.mode
    then none
    else if ltb 0 m.quota.files
    then some m.quota.files
    else some max_files

abbrev pub temp_name : Str → Str
temp_name path = path ++ codes ".sbtmp"

abbrev pub is_held : Settled → Bool
is_held held = true
is_held _ = false

-- The removal of the temporary file with these bytes, whose error is ignored.
abbrev pub discard : Bool → Str → Str → Files → Files
discard true path bytes files = files
discard false path bytes files = insert (temp_name path) bytes files

-- The last step: the file takes its place under its name.
abbrev pub commit : Ends → Str → Str → ℕ → Settled → Files → Result Written × Files
commit ends path bytes existing settled files =
    if ends.renamed
    then (
      ok (record { written = length bytes; existing = existing; is_held = is_held settled }),
      insert path bytes files,
    )
    else (err write_failed, discard ends.removed path bytes files)

abbrev pub after_verdict : Settled → Ends → Str → Str → ℕ → Files → Result Written × Files
after_verdict discarded ends path bytes existing files =
    (err write_failed, discard ends.removed path bytes files)
after_verdict passes ends path bytes existing files = commit ends path bytes existing passes files
after_verdict held ends path bytes existing files = commit ends path bytes existing held files

-- From the opening of the temporary file on: it is gone at the end, unless its removal fails.
unfoldable pub copy_file : Ends → Str → Str → ℕ → ℕ → Files → Result Written × Files
copy_file ends path input existing budget files =
    let bytes = take (budget + 1) input in
    let rest = delete (temp_name path) files in
    if not ends.copied
    then (err write_failed, discard ends.removed path (take ends.reached bytes) rest)
    else if ltb budget (length bytes)
    then (err too_large, discard ends.removed path bytes rest)
    else if not ends.closed
    then (err write_failed, discard ends.removed path bytes rest)
    else after_verdict ends.settled ends path bytes existing rest

-- A file that is new counts as one more.
abbrev pub over_count : Option Str → ℕ → Option ℕ → Bool
over_count (some bytes) count max_files = false
over_count none count none = false
over_count none count (some max) = ltb max (count + 1)

abbrev pub write_checked : Ends → Str → Str → ℕ → ℕ → ℕ → Files → Result Written × Files
write_checked ends path input used existing max_bytes files =
    if ltb (max_bytes + existing) used
    then (err too_large, files)
    else if not ends.made_folders || not ends.opened
    then (err write_failed, files)
    else copy_file ends path input existing (max_bytes + existing - used) files

-- `writeFileIn`.
unfoldable pub write_file_in :
    Place → Ends → Str → Str → ℕ → ℕ → ℕ → Option ℕ → Files → Result Written × Files
unfolding copy_file
write_file_in folder ends path input used count max_bytes max_files files = (err bad_path, files)
write_file_in unreachable ends path input used count max_bytes max_files files =
    (err bad_path, files)
write_file_in free ends path input used count max_bytes max_files files =
    if over_count (lookup path files) count max_files
    then (err too_many_files, files)
    else write_checked ends path input used (size_of (lookup path files)) max_bytes files
