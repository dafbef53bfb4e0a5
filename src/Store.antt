-- ===== src/Store.antt =====
-- internal/store/store.go: `Update` and the deletions; the reading and writing of meta.json
-- (internal/store/meta.go). A site is what its handle caches and what its folder holds under meta.json
-- and under the name of its temporary file; a renaming happens or does not, as the system has it. The outcome of a disk operation that can fail is an argument, the time too. The
-- locks are not modelled: each function is one critical section. A deletion also drops the index
-- links; a link that cannot be removed (its error is ignored in the source) is not modelled, nor is
-- the cancelling of a push.
pub mod Atomic
use sitebin_io.Base.{
  Bool, true, false, not, ◌&&◌, ◌||◌, List, [], ◌∷◌, Option, none, some, if◌then◌else◌, Str, str_eq,
  delete, is_some, Error, not_found, not_owner, locked, read_failed, write_failed, remove_failed,
  Result, ok, err, ◌>>=◌, ◌>>◌, require,
}
use sitebin_io.Meta.{Meta, Time, Address}

-- What reading meta.json gives.
pub data Disk : Type 0 where
  missing : Disk
  unreadable : Disk
  stored : Meta → Disk

pub record Site : Type 0 where
  pub view_id : Str
  pub edit_id : Str
  pub cached : Meta
  pub disk : Disk
  pub temp : Disk

-- The symlink indexes of domains, random address labels and edit ids, to view ids.
pub record Index : Type 0 where
  pub domains : List (Str × Str)
  pub addresses : List (Str × Str)
  pub edits : List (Str × Str)

abbrev pub stamp : Time → Meta → Meta
stamp now m = record m { updated_at = now }

abbrev pub read_meta : Disk → Result Meta
read_meta missing = err not_found
read_meta unreadable = err read_failed
read_meta (stored m) = ok m

-- How the calls of one `writeMeta` end: the encoding, the writing of the temporary file and what it
-- leaves under that name if it fails, the renaming, and the removal after a renaming that failed.
pub record WriteEnds : Type 0 where
  pub encoded : Bool
  pub temp_written : Bool
  pub partial : Disk
  pub renamed : Bool
  pub removed : Bool

-- The renaming of the temporary file, which is whole.
abbrev place_meta : WriteEnds → Meta → Site → Result (Unit {0}) × Site
place_meta ends m site =
    if ends.renamed
    then (ok tt, record site { disk = stored m; temp = missing })
    else (err write_failed, record site { temp = if ends.removed then missing else stored m })

-- `writeMeta`, on the folder of the site.
unfoldable pub write_meta : WriteEnds → Meta → Site → Result (Unit {0}) × Site
write_meta ends m site =
    if not ends.encoded
    then (err write_failed, site)
    else if not ends.temp_written
    then (err write_failed, record site { temp = ends.partial })
    else place_meta ends m site

-- The handle takes over what was written, if it was.
abbrev then_cached : Meta → Result (Unit {0}) × Site → Result (Unit {0}) × Site
then_cached m (err e, site) = (err e, site)
then_cached m (ok _, site) = (ok tt, record site { cached = m })

-- The write of a meta and the handle after it.
unfoldable pub commit : WriteEnds → Meta → Site → Result (Unit {0}) × Site
unfolding write_meta
commit ends m site = then_cached m (write_meta ends m site)

unfoldable pub finish : Time → WriteEnds → Site → Result Meta → Result (Unit {0}) × Site
unfolding commit
finish now ends site (err e) = (err e, site)
finish now ends site (ok m) = commit ends (stamp now m) site

unfoldable pub update : Time → WriteEnds → (Meta → Result Meta) → Site → Result (Unit {0}) × Site
unfolding finish
update now ends mutate site = finish now ends site (read_meta site.disk >>= mutate)

abbrev with_value {ℓ} : {A : Type ℓ} → A → Result (Unit {0}) × Site → Result A × Site
with_value a (ok _, site) = (ok a, site)
with_value a (err e, site) = (err e, site)

-- `Update` around a closure that also sets variables of its caller.
unfoldable pub update_with {ℓ} :
    {A : Type ℓ} → Time → WriteEnds → (Meta → Result (A × Meta)) → Site → Result A × Site
unfolding commit
update_with now ends mutate site = elim (read_meta site.disk >>= mutate) [
  | ok (a, m) ↦ with_value a (commit ends (stamp now m) site)
  | err e ↦ (err e, site)
]

-- The parameter of a check of `deleteChecked`: nil for a meta.json that cannot be read.
abbrev pub readable : Disk → Option Meta
readable (stored m) = some m
readable _ = none

unlink_all : List Str → List (Str × Str) → List (Str × Str)
unlink_all [] links = links
unlink_all (d ∷ ds) links = unlink_all ds (delete d links)

-- `unlinkAddresses`: the links of the random labels, not of the site's own.
unlink_addresses : Str → List Address → List (Str × Str) → List (Str × Str)
unlink_addresses own [] links = links
unlink_addresses own (a ∷ more) links =
    unlink_addresses own more
      (if not (str_eq a.label own) && not (str_eq a.label []) then delete a.label links else links)

unlink_site : Site → Index → Index
unfolding unlink_all unlink_addresses
unlink_site site index = elim (readable site.disk) [
  | none ↦ record index { edits = delete site.edit_id index.edits }
  | some m ↦ record {
    domains = unlink_all m.custom_domains index.domains;
    addresses = unlink_addresses m.id m.addresses index.addresses;
    edits = delete site.edit_id index.edits;
  }
]

unfoldable pub carry_out :
    Result (Unit {0}) → Option Disk → Site → Index → Result (Unit {0}) × Disk × Index
unfolding unlink_site
carry_out (err e) left site index = (err e, site.disk, index)
carry_out (ok _) none site index = (ok tt, missing, unlink_site site index)
carry_out (ok _) (some rest) site index = (err remove_failed, rest, unlink_site site index)

-- The folder, the indexes and the answer of `deleteChecked`. `left` is what `os.RemoveAll` leaves
-- when it fails, if it does.
unfoldable pub delete_checked :
    (Option Meta → Result (Unit {0}))
    → Option Disk
    → Site
    → Index
    → Result (Unit {0}) × Disk × Index
unfolding carry_out
delete_checked check left site index = carry_out (check (readable site.disk)) left site index

unfoldable pub delete_check : Bool → Option Meta → Result (Unit {0})
delete_check force none = ok tt
delete_check force (some m) = require (not (is_some m.locked && not force)) locked

-- `Delete`, and `ForceDelete` with `force`.
unfoldable pub delete_site : Bool → Option Disk → Site → Index → Result (Unit {0}) × Disk × Index
unfolding delete_checked delete_check
delete_site force = delete_checked (delete_check force)

-- The check reads the file once more to say why it could not be read; `again` is that reading.
unfoldable pub delete_if_owner_check : Str → Disk → Option Meta → Result (Unit {0})
delete_if_owner_check owner again none = read_meta again >>= λ _. err not_owner
delete_if_owner_check owner again (some m) = do
  require (not (str_eq owner [] || not (str_eq m.owner_account_id owner))) not_owner
  require (not (is_some m.locked)) locked

unfoldable pub delete_if_owner :
    Str → Disk → Option Disk → Site → Index → Result (Unit {0}) × Disk × Index
unfolding delete_checked delete_if_owner_check
delete_if_owner owner again = delete_checked (delete_if_owner_check owner again)
