-- ===== src/Tests/Uploads.antt =====
-- Uploads: their paths, and a write into the content.
use sitebin_io.Base.{
  ℕ, ◌≡◌, refl, Bool, true, false, List, [], ◌∷◌, ◌++◌, ◌+◌, Option, none, some, Str, codes, lookup,
  length, ok, err, bad_path, too_large, arith,
}
use sitebin_io.Paths.{clean_rel_path}
use sitebin_io.Paths.Confined.{IsConfined, clean_rel_path-IsConfined}
use sitebin_io.Content.{Files, Ends, free, passes, total, write_file_in}
use sitebin_io.Content.Save.{
  SiteGate, save_file, delete_file, read_content_file, save_file-read_content_file,
}
use sitebin_io.Content.Outcome.{IsWrite}
use sitebin_io.Content.Budget.{write_file_in-IsWrite}

cleans : clean_rel_path (codes "a/./b//../c.html") ≡ ok (codes "a/c.html")
unfolding clean_rel_path sitebin_io.Base.str_eq sitebin_io.Text.has_prefix sitebin_io.Text.split
    sitebin_io.Base.contains sitebin_io.Text.to_lower
cleans = refl

refuses_parent : clean_rel_path (codes "a/../../b") ≡ err bad_path
unfolding clean_rel_path sitebin_io.Base.str_eq sitebin_io.Text.has_prefix sitebin_io.Text.split
refuses_parent = refl

refuses_marker : clean_rel_path (codes "_Sitebin/x") ≡ err bad_path
unfolding clean_rel_path sitebin_io.Base.str_eq sitebin_io.Text.has_prefix sitebin_io.Text.split
    sitebin_io.Base.contains sitebin_io.Text.to_lower
refuses_marker = refl

clean_rel_path-IsConfined_example : IsConfined (codes "a/c.html")
clean_rel_path-IsConfined_example =
    clean_rel_path-IsConfined (codes "a/./b//../c.html") (codes "a/c.html") cleans

abbrev all_well : Ends
all_well = record {
  made_folders = true;
  opened = true;
  copied = true;
  reached = 0;
  closed = true;
  settled = passes;
  renamed = true;
  removed = true;
}

abbrev one_page : Files
one_page = (codes "a", codes "12") ∷ []

abbrev two_pages : Files
two_pages = (codes "a", codes "12") ∷ (codes "a.sbtmp", codes "345") ∷ []

replaces :
    write_file_in free all_well (codes "a") (codes "6789") 5 2 7 (some 2) two_pages
    ≡ (ok (record { written = 4; existing = 2; is_held = false }), (codes "a", codes "6789") ∷ [])
unfolding write_file_in lookup sitebin_io.Base.str_eq sitebin_io.Base.insert sitebin_io.Base.delete
replaces = refl

-- A refused write whose temporary file cannot be removed leaves one byte more than fits there.
stays :
    write_file_in free
      (record all_well { removed = false })
      (codes "a")
      (codes "6789")
      5
      2
      6
      (some 3)
      two_pages
    ≡ (err too_large, (codes "a", codes "12") ∷ (codes "a.sbtmp", codes "6789") ∷ [])
unfolding write_file_in lookup sitebin_io.Base.str_eq sitebin_io.Base.insert sitebin_io.Base.delete
stays = refl

-- A write that is refused for its size takes along a file that bears the name of its temporary file.
loses_neighbour :
    write_file_in free all_well (codes "a") (codes "6789") 5 2 6 (some 2) two_pages
    ≡ (err too_large, (codes "a", codes "12") ∷ [])
unfolding write_file_in lookup sitebin_io.Base.str_eq sitebin_io.Base.delete
loses_neighbour = refl

write_file_in-IsWrite_example :
    IsWrite free all_well (codes "a") (codes "6789") 1 9 (some 2) two_pages (
      write_file_in free all_well
        (codes "a")
        (codes "6789")
        (total two_pages + 1)
        (length two_pages)
        9
        (some 2)
        two_pages)
write_file_in-IsWrite_example =
    write_file_in-IsWrite free all_well (codes "a") (codes "6789") 1 9 (some 2) two_pages

abbrev unlocked_site : SiteGate
unlocked_site = record { unlocked = true; renewed = ok tt }

saves :
    save_file unlocked_site free all_well 9 (some 2) (ok 1) (codes "./b") (codes "678") one_page
    ≡ (ok tt, (codes "a", codes "12") ∷ (codes "b", codes "678") ∷ [])
unfolding save_file clean_rel_path sitebin_io.Base.str_eq sitebin_io.Text.has_prefix
    sitebin_io.Text.split sitebin_io.Base.contains sitebin_io.Text.to_lower write_file_in lookup
    sitebin_io.Base.insert sitebin_io.Base.delete
saves = refl

deletes :
    delete_file unlocked_site free true (codes "a") two_pages
    ≡ (ok tt, (codes "a.sbtmp", codes "345") ∷ [])
unfolding delete_file clean_rel_path sitebin_io.Base.str_eq sitebin_io.Text.has_prefix
    sitebin_io.Text.split sitebin_io.Base.contains sitebin_io.Text.to_lower lookup
    sitebin_io.Base.delete
deletes = refl

save_file-read_content_file_example :
    read_content_file free (codes "./b") ((codes "a", codes "12") ∷ (codes "b", codes "678") ∷ [])
    ≡ ok (codes "678")
save_file-read_content_file_example =
    save_file-read_content_file unlocked_site free all_well 9 (some 2) (ok 1) (codes "./b")
      (codes "678") one_page ((codes "a", codes "12") ∷ (codes "b", codes "678") ∷ []) saves
      (omega arith)
