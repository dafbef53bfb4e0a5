-- ===== src/Content/Outcome.antt =====
-- internal/store/files.go: what a write may leave behind, by its outcome.
use sitebin_io.Base.{
  ℕ, ◌+◌, ◌≤◌, ◌≡◌, refl, arith, Bool, inl, inr, true, false, not, ◌&&◌, Option, none, some, leb,
  Str, str_eq, lookup, insert, delete, lookup-insert, lookup-delete, length, ◌⊎◌, Error, Result, ok,
  err,
}
use sitebin_io.Content.{
  Files, Place, free, Settled, discarded, Ends, Written, size_of, total, temp_name, discard,
  over_count,
}
use sitebin_io.Content.Totals.{
  total-insert, total-delete, length-insert, length-delete, temp_name-differs,
}

abbrev pub is_kept : Settled → Bool
is_kept discarded = false
is_kept _ = true

abbrev pub is_free : Place → Bool
is_free free = true
is_free _ = false

-- A number of files within the cap, if there is one.
abbrev pub AtMost : Option ℕ → ℕ → Type 0
AtMost none n = Unit
AtMost (some max) n = n ≤ max

-- The calls on the disk that decide about a write go well, and the guard lets the file be stored.
abbrev pub goes_well : Ends → Bool
goes_well ends =
    ends.made_folders
    && ends.opened
    && ends.copied
    && ends.closed
    && ends.renamed
    && is_kept ends.settled

module _ (place : Place) (ends : Ends) (path input : Str) (repo max_bytes : ℕ)
    (max_files : Option ℕ) (files : Files) where
  -- What a write that fails may leave besides: its temporary file, where that could not be removed.
  pub record LeavesTemp (left : Files) : Type 0 where
    pub not_removed : ends.removed ≡ false
    pub few_bytes : total left + repo ≤ max_bytes + size_of (lookup path files) + 1
    pub one_file : length left ≤ length files + 1

  -- A place where a file may stand, calls that go well, and room for the bytes and the file.
  abbrev pub granted : Bool
  granted =
      is_free place
      && goes_well ends
      && leb (total files + length input + repo) (max_bytes + size_of (lookup path files))
      && not (over_count (lookup path files) (length files) max_files)

  -- By the outcome: a write that fails was not granted, and leaves the file as it was and the content no
  -- larger, but for the temporary file; one that goes through stores the whole input, within the caps.
  unfoldable pub Leaves : Result Written → Files → Type 0
  Leaves (err why) left =
      (lookup path left ≡ lookup path files)
      × ((total left ≤ total files) × (length left ≤ length files) ⊎ LeavesTemp left)
      × (granted ≡ false)
  Leaves (ok w) left =
      (lookup path left ≡ some input)
      × (w.written ≡ length input)
      × (total left + repo ≤ max_bytes)
      × ((length left ≤ length files) ⊎ AtMost max_files (length left))

  -- No other file changes, but for one that bears the name of the temporary file.
  abbrev pub Untouched : Files → Type 0
  Untouched left =
      (other : Str)
      → str_eq path other ≡ false
      → str_eq (temp_name path) other ≡ false
      → lookup other left ≡ lookup other files

  -- The outcome of a write and what it leaves.
  abbrev pub IsWrite : Result Written × Files → Type 0
  IsWrite (r, left) = Leaves r left × Untouched left

  abbrev pub rest : Files
  rest = delete (temp_name path) files

  pub lookup-rest : lookup path rest ≡ lookup path files
  lookup-rest = ground (arith, lookup-delete (temp_name path) path files, temp_name-differs path)

  pub IsWrite-nothing : (why : Error) → granted ≡ false → IsWrite (err why, files)
  unfolding Leaves
  IsWrite-nothing why refused =
      ((refl, inl (omega arith, omega arith), refused), λ other apart temp. refl)

  IsWrite-rest : (why : Error) → granted ≡ false → IsWrite (err why, rest)
  unfolding Leaves
  IsWrite-rest why refused = (
    (
      lookup-rest,
      inl (total-delete (temp_name path) files, length-delete (temp_name path) files),
      refused,
    ),
    λ other apart temp. ground (arith, lookup-delete (temp_name path) other files),
  )

  -- The bytes of a temporary file fit, but for the one byte that shows that a file is too large.
  abbrev pub Fits : Str → Type 0
  Fits bytes = total files + length bytes + repo ≤ max_bytes + size_of (lookup path files) + 1

  IsWrite-temp :
      (why : Error) (bytes : Str)
      → granted ≡ false
      → Fits bytes
      → ends.removed ≡ false
      → IsWrite (err why, insert (temp_name path) bytes rest)
  unfolding Leaves
  IsWrite-temp why bytes refused fits stays =
      let inserted = total-insert (temp_name path) bytes rest in
      let less = total-delete (temp_name path) files in
      let more = length-insert (temp_name path) bytes rest in
      let fewer = length-delete (temp_name path) files in
      (
        (
          ground (
            arith,
            lookup-insert (temp_name path) path bytes rest,
            temp_name-differs path,
            lookup-rest,
          ),
          inr (record {
            not_removed = stays;
            few_bytes = omega arith;
            one_file = ground (arith, more, fewer);
          }),
          refused,
        ),
        λ other apart temp. ground (
          arith,
          lookup-insert (temp_name path) other bytes rest,
          lookup-delete (temp_name path) other files,
        ),
      )

  pub discard-IsWrite :
      (why : Error) (bytes : Str) (removed : Bool)
      → granted ≡ false
      → Fits bytes
      → ends.removed ≡ removed
      → IsWrite (err why, discard removed path bytes rest)
  discard-IsWrite why bytes true refused fits e = IsWrite-rest why refused
  discard-IsWrite why bytes false refused fits e = IsWrite-temp why bytes refused fits e
