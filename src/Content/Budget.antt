-- ===== src/Content/Budget.antt =====
-- internal/store/files.go: what a write leaves behind.
use sitebin_io.Base.{
  ℕ, ◌+◌, ◌≤◌, ◌≡◌, refl, ap, arith, inl, inr, true, false, not, ◌||◌, Option, none, some, leb, ltb,
  Str, str_eq_refl, lookup, insert, delete, lookup-insert, lookup-delete, length, take, take_whole,
  length-of_take, ◌⊎◌, Result, ok, write_failed, too_large, too_many_files, bad_path,
}
use sitebin_io.Content.{
  Files, Place, free, folder, unreachable, Settled, passes, held, discarded, Ends, Written, size_of,
  total, temp_name, is_held, commit, after_verdict, copy_file, over_count, write_checked,
  write_file_in,
}
use sitebin_io.Content.Totals.{
  total-insert, total-delete, length-insert, length-delete, of_either, length-take,
  length-take_most,
}
use sitebin_io.Content.Outcome.{
  AtMost, Leaves, IsWrite, granted, Fits, lookup-rest, IsWrite-nothing, discard-IsWrite, is_kept,
}

module _ (place : Place) (ends : Ends) (path input : Str) (repo max_bytes : ℕ)
    (max_files : Option ℕ) (files : Files) where
  abbrev left_over : Files
  left_over = delete (temp_name path) files

  abbrev Done : Result Written × Files → Type 0
  Done o = IsWrite place ends path input repo max_bytes max_files files o

  few_files :
      (o : Option Str) (most : Option ℕ)
      → lookup path left_over ≡ o
      → over_count o (length files) most ≡ false
      → (length (insert path input left_over) ≤ length files)
        ⊎ AtMost most (length (insert path input left_over))
  few_files (some bytes) most found few = inl (
      ground
        (arith, found, length-insert path input left_over, length-delete (temp_name path) files))
  few_files none none found few = inr tt
  few_files none (some max) found few = inr (
      ground (
        arith,
        found,
        few,
        length-insert path input left_over,
        length-delete (temp_name path) files,
      ))

  placed-IsWrite :
      (settled : Settled)
      → total files + length input + repo ≤ max_bytes + size_of (lookup path files)
      → over_count (lookup path files) (length files) max_files ≡ false
      → Done (
        ok (record {
          written = length input;
          existing = size_of (lookup path files);
          is_held = is_held settled;
        }),
        insert path input left_over,
      )
  unfolding Leaves
  placed-IsWrite settled fits few =
      let inserted = total-insert path input left_over in
      let found = ap size_of (lookup-rest place ends path input repo max_bytes max_files files) in
      let less = total-delete (temp_name path) files in
      (
        (
          ground (arith, lookup-insert path path input left_over, str_eq_refl path),
          refl,
          omega arith,
          few_files (lookup path files) max_files
              (lookup-rest place ends path input repo max_bytes max_files files) few,
        ),
        λ other apart temp. ground (
          arith,
          lookup-insert path other input left_over,
          lookup-delete (temp_name path) other files,
        ),
      )

  commit-IsWrite :
      (settled : Settled)
      → total files + length input + repo ≤ max_bytes + size_of (lookup path files)
      → over_count (lookup path files) (length files) max_files ≡ false
      → Done (commit ends path input (size_of (lookup path files)) settled left_over)
  commit-IsWrite settled fits few =
      of_either Done ends.renamed _ _ (λ e. placed-IsWrite settled fits few)
        (λ e.
          discard-IsWrite place ends path input repo max_bytes max_files files write_failed input
            ends.removed (ground (arith, e)) (omega arith) refl)

  after_verdict-IsWrite :
      (settled : Settled)
      → ends.settled ≡ settled
      → total files + length input + repo ≤ max_bytes + size_of (lookup path files)
      → over_count (lookup path files) (length files) max_files ≡ false
      → Done (after_verdict settled ends path input (size_of (lookup path files)) left_over)
  after_verdict-IsWrite discarded e fits few =
      let unkept = ap is_kept e in
      discard-IsWrite place ends path input repo max_bytes max_files files write_failed input
        ends.removed (ground (arith, unkept)) (omega arith) refl
  after_verdict-IsWrite passes e fits few = commit-IsWrite passes fits few
  after_verdict-IsWrite held e fits few = commit-IsWrite held fits few

  copy_file-IsWrite :
      (budget : ℕ)
      → budget + (total files + repo) ≡ max_bytes + size_of (lookup path files)
      → over_count (lookup path files) (length files) max_files ≡ false
      → Done (copy_file ends path input (size_of (lookup path files)) budget files)
  unfolding copy_file
  copy_file-IsWrite budget room few =
      let bytes : Str = take (budget + 1) input in
      let most : length bytes ≤ budget + 1 = length-take_most (budget + 1) input in
      let some_of = length-take ends.reached bytes in
      let fits : Fits place ends path input repo max_bytes max_files files bytes =
        omega (arith, most) in
      of_either Done (not ends.copied) _ _
        (λ e.
          discard-IsWrite place ends path input repo max_bytes max_files files write_failed _
            ends.removed (ground (arith, e)) (omega (arith, most, some_of)) refl)
        (λ e.
          of_either Done (ltb budget (length bytes)) _ _
            (λ large.
              discard-IsWrite place ends path input repo max_bytes max_files files too_large _
                ends.removed (no_room large) fits refl)
            (λ small.
              of_either Done (not ends.closed) _ _
                (λ e'.
                  discard-IsWrite place ends path input repo max_bytes max_files files write_failed
                    _ ends.removed (ground (arith, e')) fits refl)
                (λ e'. verdict small)))
    where
      no_room :
          ltb budget (length (take (budget + 1) input)) ≡ true
          → granted place ends path input repo max_bytes max_files files ≡ false
      no_room large =
          let shorter = length-take (budget + 1) input in
          let over : leb (total files + length input + repo)
                (max_bytes + size_of (lookup path files))
              ≡ false =
            ground (arith, large, shorter, room) in
          ground (arith, over)

      verdict :
          ltb budget (length (take (budget + 1) input)) ≡ false
          → Done (
              after_verdict ends.settled ends path
                (take (budget + 1) input)
                (size_of (lookup path files))
                left_over)
      verdict small =
          let short = length-of_take budget input (ground (arith, small)) in
          let whole = take_whole (budget + 1) input (omega arith) in
          rw whole (after_verdict-IsWrite ends.settled refl (omega (arith, short)) few)

  write_checked-IsWrite :
      over_count (lookup path files) (length files) max_files ≡ false
      → Done (
          write_checked ends path input
            (total files + repo)
            (size_of (lookup path files))
            max_bytes
            files)
  write_checked-IsWrite few =
      of_either Done (ltb (max_bytes + size_of (lookup path files)) (total files + repo)) _ _
        (λ over.
          IsWrite-nothing place ends path input repo max_bytes max_files files too_large
            (ground (arith, over)))
        (λ room.
          of_either Done (not ends.made_folders || not ends.opened) _ _
            (λ broken.
              IsWrite-nothing place ends path input repo max_bytes max_files files write_failed
                (ground (arith, broken)))
            (λ opens. copy_file-IsWrite _ (ground (arith, room)) few))

-- Where the totals that the caller measured are those of the content and the repository, a write goes
-- through where a file may stand at the path, the bytes and the file fit below the caps, the calls on
-- the disk go well and the guard lets it. A write that fails leaves the file as it was and the content
-- no larger, unless the temporary file could not be removed: then the content has at most one file more,
-- and with the repository exceeds the cap on the bytes by at most one byte and the size of the file that
-- was to be replaced. A write that goes through, also where the site is held, stores the whole input,
-- with the files and the repository together within the cap on the bytes, and the number of files within
-- its cap or no larger than before. No other file changes, but for one under the name of the temporary
-- file.
pub write_file_in-IsWrite :
    (place : Place) (ends : Ends) (path input : Str) (repo max_bytes : ℕ) (max_files : Option ℕ)
    (files : Files)
    → IsWrite place ends path input repo max_bytes max_files files (
        write_file_in place ends path input
          (total files + repo)
          (length files)
          max_bytes
          max_files
          files)
unfolding write_file_in
write_file_in-IsWrite folder ends path input repo max_bytes max_files files =
    IsWrite-nothing folder ends path input repo max_bytes max_files files bad_path refl
write_file_in-IsWrite unreachable ends path input repo max_bytes max_files files =
    IsWrite-nothing unreachable ends path input repo max_bytes max_files files bad_path refl
write_file_in-IsWrite free ends path input repo max_bytes max_files files =
    of_either (IsWrite free ends path input repo max_bytes max_files files)
      (over_count (lookup path files) (length files) max_files) _ _
      (λ over.
        IsWrite-nothing free ends path input repo max_bytes max_files files too_many_files
          (ground (arith, over)))
      (λ few. write_checked-IsWrite free ends path input repo max_bytes max_files files few)
