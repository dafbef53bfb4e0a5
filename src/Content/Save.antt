-- ===== src/Content/Save.antt =====
-- internal/store/files.go: the operations on one file of a site, under the site's lock. Whether the site
-- is unlocked, the size of its repository, the caps, and how the renewal of the expiry date and each call
-- on the disk end are arguments.
use sitebin_io.Base.{
  ℕ, ◌+◌, ◌*◌, ◌^◌, ◌≤◌, ◌≡◌, subst, arith, Bool, Bool-cases, inl, inr, Option, none, some,
  if◌then◌else◌, ltb, Str, lookup, delete, length, bad_path, not_found, locked, remove_failed,
  too_large, Result, ok, err,
}
use sitebin_io.Paths.{clean_rel_path}
use sitebin_io.Content.{
  Files, Place, free, folder, unreachable, Ends, Written, total, write_file_in,
}
use sitebin_io.Content.Outcome.{Leaves}
use sitebin_io.Content.Budget.{write_file_in-IsWrite}

-- `MaxEditableBytes`.
abbrev pub max_editable_bytes : ℕ
max_editable_bytes = 2 * 2 ^ 20

-- The answer of an operation and what it leaves.
abbrev pub Saving : Type 0
Saving = Result (Unit {0}) × Files

-- What is the same for every operation: whether the site is unlocked, and how the renewal ends.
pub record SiteGate : Type 0 where
  pub unlocked : Bool
  pub renewed : Result (Unit {0})

-- A held site has its file, and the caller an error.
unfoldable pub after_write : Result (Unit {0}) → Result Written × Files → Saving
after_write renewed (err why, left) = (err why, left)
after_write renewed (ok w, left) = if w.is_held then (err locked, left) else (renewed, left)

abbrev pub save_measured :
    SiteGate → Place → Ends → ℕ → Option ℕ → Str → Str → Result ℕ → Files → Saving
save_measured site place ends max_bytes max_files rel input (err why) files = (err why, files)
save_measured site place ends max_bytes max_files rel input (ok repo) files =
    after_write site.renewed (
      write_file_in place ends rel input (total files + repo) (length files) max_bytes max_files
        files)

-- `saveFileLocked`.
unfoldable pub save_file_locked :
    SiteGate → Place → Ends → ℕ → Option ℕ → Result ℕ → Str → Str → Files → Saving
unfolding after_write
save_file_locked site place ends max_bytes max_files repo rel input files =
    if site.unlocked
    then save_measured site place ends max_bytes max_files rel input repo files
    else (err locked, files)

abbrev pub at_path : Files → (Str → Saving) → Result Str → Saving
at_path files go (err why) = (err why, files)
at_path files go (ok rel) = go rel

-- `SaveFile`; `repo` is what the repository takes, if that can be measured.
unfoldable pub save_file :
    SiteGate → Place → Ends → ℕ → Option ℕ → Result ℕ → Str → Str → Files → Saving
unfolding save_file_locked
save_file site place ends max_bytes max_files repo path input files =
    at_path files (λ rel. save_file_locked site place ends max_bytes max_files repo rel input files)
      (clean_rel_path path)

abbrev pub remove_file : SiteGate → Bool → Str → Files → Option Str → Saving
remove_file site removed rel files none = (err not_found, files)
remove_file site removed rel files (some bytes) =
    if removed then (site.renewed, delete rel files) else (err remove_failed, files)

abbrev pub delete_at : SiteGate → Place → Bool → Files → Str → Saving
delete_at site folder removed files rel = (err bad_path, files)
delete_at site unreachable removed files rel = (err bad_path, files)
delete_at site free removed files rel = remove_file site removed rel files (lookup rel files)

-- `DeleteFile`; the empty folders that it prunes are not in the table.
unfoldable pub delete_file : SiteGate → Place → Bool → Str → Files → Saving
delete_file site place removed path files =
    at_path files
      (λ rel. if site.unlocked then delete_at site place removed files rel else (err locked, files))
      (clean_rel_path path)

abbrev pub readable : Option Str → Result Str
readable none = err not_found
readable (some bytes) = if ltb max_editable_bytes (length bytes) then err too_large else ok bytes

abbrev pub read_at : Place → Files → Result Str → Result Str
read_at place files (err why) = err why
read_at folder files (ok rel) = err bad_path
read_at unreachable files (ok rel) = err bad_path
read_at free files (ok rel) = readable (lookup rel files)

-- `ReadContentFile`.
unfoldable pub read_content_file : Place → Str → Files → Result Str
read_content_file place path files = read_at place files (clean_rel_path path)

module _ (site : SiteGate) (place : Place) (ends : Ends) (max_bytes : ℕ) (max_files : Option ℕ)
    (input : Str) (files : Files) where
  after_write-stored :
      (rel : Str) (repo : ℕ) (r : Result Written) (written left : Files)
      → Leaves place ends rel input repo max_bytes max_files files r written
      → after_write site.renewed (r, written) ≡ (ok tt, left)
      → lookup rel left ≡ some input
  unfolding after_write Leaves
  after_write-stored rel repo (err why) written left leaves e = cc
  after_write-stored rel repo (ok w) written left (stored, sized, within, few) e =
      elim (Bool-cases w.is_held) [
        | inl holds ↦
            let told : ◌≡◌ {A = Saving} (err locked, written) (ok tt, left) = ground arith in cc
        | inr free_site ↦
            let told : ◌≡◌ {A = Saving} (site.renewed, written) (ok tt, left) = ground arith in
            let same : written ≡ left = cc in subst (λ f. lookup rel f ≡ some input) same stored
      ]

  save_measured-stored :
      (rel : Str) (repo : Result ℕ) (left : Files)
      → save_measured site place ends max_bytes max_files rel input repo files ≡ (ok tt, left)
      → lookup rel left ≡ some input
  save_measured-stored rel (err why) left e = cc
  save_measured-stored rel (ok repo) left e =
      let (leaves, others) =
        write_file_in-IsWrite place ends rel input repo max_bytes max_files files in
      after_write-stored rel repo _ _ left leaves e

  save_file_locked-stored :
      (rel : Str) (repo : Result ℕ) (left : Files)
      → save_file_locked site place ends max_bytes max_files repo rel input files ≡ (ok tt, left)
      → lookup rel left ≡ some input
  unfolding save_file_locked
  save_file_locked-stored rel repo left e = elim (Bool-cases site.unlocked) [
    | inl open_site ↦ save_measured-stored rel repo left (ground arith)
    | inr locked_site ↦
        let told : ◌≡◌ {A = Saving} (err locked, files) (ok tt, left) = ground arith in cc
  ]

  at_path-read :
      (c : Result Str) (repo : Result ℕ) (left : Files)
      → at_path files
          (λ rel. save_file_locked site place ends max_bytes max_files repo rel input files)
          c
        ≡ (ok tt, left)
      → length input ≤ max_editable_bytes
      → read_at free left c ≡ ok input
  at_path-read (err why) repo left e small = cc
  at_path-read (ok rel) repo left e small =
      rw (save_file_locked-stored rel repo left e) (ground (arith, small))

-- A file that was saved, by whatever spelling of its path, is read back by this spelling as it was sent,
-- where it is small enough to be edited.
pub save_file-read_content_file :
    (site : SiteGate) (place : Place) (ends : Ends) (max_bytes : ℕ) (max_files : Option ℕ)
    (repo : Result ℕ) (path input : Str) (files left : Files)
    → save_file site place ends max_bytes max_files repo path input files ≡ (ok tt, left)
    → length input ≤ max_editable_bytes
    → read_content_file free path left ≡ ok input
unfolding save_file read_content_file
save_file-read_content_file site place ends max_bytes max_files repo path input files left e small =
    at_path-read site place ends max_bytes max_files input files (clean_rel_path path) repo left e
      small
