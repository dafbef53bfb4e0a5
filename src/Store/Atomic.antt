-- ===== src/Store/Atomic.antt =====
-- What an update leaves on the disk and in the cache, and what stops a deletion.
use sitebin_io.Base.{
  ◌≡◌, ◌≢◌, ap, sym, ◌∙◌, Error, ◌&&◌, false, Bool, refl, true, Option, none, some, arith, Str,
  is_some, str_eq_iff, [], locked, Result, ok, err, ◌>>=◌,
}
use sitebin_io.Meta.{Meta, Time}
use sitebin_io.Store.{
  Disk, missing, unreadable, stored, WriteEnds, write_meta, commit, Site, Index, read_meta, update,
  finish, stamp, readable, delete_checked, carry_out, delete_site, delete_if_owner,
  delete_if_owner_check,
}

-- The calls of a write that decide about it all go well.
abbrev pub goes_well : WriteEnds → Bool
goes_well ends = ends.encoded && ends.temp_written && ends.renamed

-- What an update that answered `answer` left of a site, and what a failure needs.
abbrev pub Left : Time → WriteEnds → (Meta → Result Meta) → Site → Result (Unit {0}) → Site → Type 0
Left now ends mutate site (err e) site' =
    (site'.disk ≡ site.disk)
    × (site'.cached ≡ site.cached)
    × ((m m' : Meta) → site.disk ≡ stored m → mutate m ≡ ok m' → goes_well ends ≡ false)
Left now ends mutate site (ok _) site' =
    (m : Meta) × (m' : Meta) × (site.disk ≡ stored m)
    × (mutate m ≡ ok m')
    × (site'.disk ≡ stored (stamp now m'))
    × (site'.cached ≡ stamp now m')
    × (site'.temp ≡ missing)

-- What writing `m` leaves, by its answer.
abbrev pub Wrote : WriteEnds → Meta → Site → Result (Unit {0}) → Site → Type 0
Wrote ends m site (err e) site' =
    (site'.disk ≡ site.disk) × (site'.cached ≡ site.cached) × (goes_well ends ≡ false)
Wrote ends m site (ok _) site' =
    (site'.disk ≡ stored m) × (site'.cached ≡ m) × (site'.temp ≡ missing)

pub commit-Wrote :
    (ends : WriteEnds) (m : Meta) (site : Site)
    → Wrote ends m site (commit ends m site).0 (commit ends m site).1
unfolding commit write_meta
commit-Wrote ends m site = go ends.encoded ends.temp_written ends.renamed
  where
    go :
        (encoded temp_written renamed : Bool)
        → Wrote
            (record ends { encoded = encoded; temp_written = temp_written; renamed = renamed })
            m
            site
            (commit
              (record ends { encoded = encoded; temp_written = temp_written; renamed = renamed })
              m
              site).0
            (commit
              (record ends { encoded = encoded; temp_written = temp_written; renamed = renamed })
              m
              site).1
    go false w r = (refl, refl, refl)
    go true false r = (refl, refl, refl)
    go true true false = (refl, refl, refl)
    go true true true = (refl, refl, refl)

Left-Wrote :
    (now : Time) (ends : WriteEnds) (mutate : Meta → Result Meta) (site site' : Site) (m n : Meta)
    (r : Result (Unit {0}))
    → site.disk ≡ stored m
    → mutate m ≡ ok n
    → Wrote ends (stamp now n) site r site'
    → Left now ends mutate site r site'
Left-Wrote now ends mutate site site' m n (err e) d h (a, b, c) = (a, b, λ x y u v. c)
Left-Wrote now ends mutate site site' m n (ok u) d h (a, b, c) = (m, n, d, h, a, b, c)

refused-Left :
    (now : Time) (ends : WriteEnds) (mutate : Meta → Result Meta) (site : Site) (m : Meta)
    (e : Error)
    → site.disk ≡ stored m
    → mutate m ≡ err e
    → Left now ends mutate site (err e) site
refused-Left now ends mutate site m e d h = (refl, refl, λ x y u v. absurd (differ x y u v))
  where
    same : (x : Meta) → site.disk ≡ stored x → m ≡ x
    same x u = let it : stored m ≡ stored x = sym d ∙ u in cc

    differ : (x y : Meta) → site.disk ≡ stored x → mutate x ≡ ok y → ⊥
    differ x y u v = let it : err e ≡ ok y = sym h ∙ ap mutate (same x u) ∙ v in cc

finish-Left :
    (now : Time) (ends : WriteEnds) (mutate : Meta → Result Meta) (site : Site) (m : Meta)
    (r : Result Meta)
    → site.disk ≡ stored m
    → mutate m ≡ r
    → Left now ends mutate site (finish now ends site r).0 (finish now ends site r).1
unfolding finish
finish-Left now ends mutate site m (err e) d h = refused-Left now ends mutate site m e d h
finish-Left now ends mutate site m (ok n) d h =
    Left-Wrote now ends mutate site _ m n _ d h (commit-Wrote ends (stamp now n) site)

-- An update fails only where meta.json cannot be read, the mutation refuses, or the encoding, the
-- writing of the temporary file or the renaming fails; then meta.json and the cache are as they were.
-- After one that succeeds both hold the mutation of what was on the disk, stamped with the time, and no
-- temporary file is left.
pub update-Left :
    (now : Time) (ends : WriteEnds) (mutate : Meta → Result Meta) (site : Site)
    → Left now ends mutate site (update now ends mutate site).0 (update now ends mutate site).1
unfolding update
update-Left now ends mutate site = go site.disk refl
  where
    go :
        (d : Disk)
        → site.disk ≡ d
        → Left now ends mutate site
            (finish now ends site (read_meta d >>= mutate)).0
            (finish now ends site (read_meta d >>= mutate)).1
    go missing e = (refl, refl, λ x y u v. let it : missing ≡ stored x = sym e ∙ u in cc)
    go unreadable e = (refl, refl, λ x y u v. let it : unreadable ≡ stored x = sym e ∙ u in cc)
    go (stored m) e = finish-Left now ends mutate site m (mutate m) e refl

-- Without force a locked site is not deleted: the folder and the indexes stay.
delete_site-locked :
    (left : Option Disk) (site : Site) (index : Index) (m : Meta)
    → site.disk ≡ stored m
    → is_some m.locked ≡ true
    → delete_site false left site index ≡ (err locked, site.disk, index)
unfolding delete_site
delete_site-locked left site index m d l = ground arith

carry_out-ok :
    (r : Result (Unit {0})) (left : Option Disk) (site : Site) (index : Index)
    → (carry_out r left site index).0 ≡ ok tt
    → r ≡ ok tt
unfolding carry_out
carry_out-ok (err e) left site index h = h
carry_out-ok (ok u) left site index h = refl

-- A deletion that goes through passed its check, on the meta read under the site's lock.
delete_checked-ok :
    (check : Option Meta → Result (Unit {0})) (left : Option Disk) (site : Site) (index : Index)
    → (delete_checked check left site index).0 ≡ ok tt
    → check none ≢ ok tt
    → (m : Meta) × (site.disk ≡ stored m) × (check (some m) ≡ ok tt)
unfolding delete_checked
delete_checked-ok check left site index h n =
    go site.disk refl (carry_out-ok (check (readable site.disk)) left site index h)
  where
    go :
        (d : Disk)
        → site.disk ≡ d
        → check (readable d) ≡ ok tt
        → (m : Meta) × (site.disk ≡ stored m) × (check (some m) ≡ ok tt)
    go missing e k = absurd (n k)
    go unreadable e k = absurd (n k)
    go (stored m) e k = (m, e, k)

no_reading : (owner : Str) (again : Disk) → delete_if_owner_check owner again none ≢ ok tt
unfolding delete_if_owner_check
no_reading owner again e = ground arith

-- A deletion for an owner goes through only for the account that owns the site now, and never on a
-- locked one.
delete_if_owner-ok :
    (owner : Str) (again : Disk) (left : Option Disk) (site : Site) (index : Index)
    → (delete_if_owner owner again left site index).0 ≡ ok tt
    → (m : Meta) × (site.disk ≡ stored m)
      × (owner ≢ [])
      × (m.owner_account_id ≡ owner)
      × (m.locked ≡ none)
unfolding delete_if_owner delete_if_owner_check
delete_if_owner-ok owner again left site index h =
    let (m, d, c) =
      delete_checked-ok (delete_if_owner_check owner again) left site index h
        (no_reading owner again) in
    (
      m,
      d,
      λ e. ground (arith, c, str_eq_iff owner []),
      (str_eq_iff m.owner_account_id owner).0 (ground (arith, c)),
      ground (arith, c),
    )
