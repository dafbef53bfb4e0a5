-- ===== src/Lock/Release.antt =====
-- Runs of a site that stays locked, and what may lift a lock.
use sitebin_io.Base.{
  ◌≡◌, ◌↔◌, ◌⊎◌, refl, sym, ap, ◌∙◌, inl, inr, Bool, Bool-cases, List, [], ◌∷◌, not, ◌&&◌, any,
  find, is_some, true, false, none, some, Option-cases, arith, Str, str_eq, str_eq_iff,
}
use sitebin_io.Meta.{Meta, Time, Finding, is_container, SiteLock, LockHold}
use sitebin_io.Guard.{Trust, exemption, is_block}
use sitebin_io.Guard.Held.{is_exempt, exemption-undecided}
use sitebin_io.Lock.{
  unlock_meta, release_lock_meta, release_found, unreviewed_block, lock_by_account, lock_by_admin,
  findings_of, block_under,
}
use sitebin_io.Lock.Clock.{Act, act, act-Continues}

-- Acts one after another, each at its time, on a site that is locked before and after each of them.
pub data LockedRun (t : Trust) (m : Meta) (l : SiteLock) : Meta → SiteLock → Type 0 where
  start : m.locked ≡ some l → LockedRun t m l m l
  then_act :
      {n : Meta} {k : SiteLock} (now : Time) (a : Act) (k' : SiteLock)
      → LockedRun t m l n k
      → (act t now a n).locked ≡ some k'
      → LockedRun t m l (act t now a n) k'

LockedRun-locked :
    {t : Trust} {m : Meta} {l : SiteLock} {n : Meta} {k : SiteLock}
    → LockedRun t m l n k
    → n.locked ≡ some k
LockedRun-locked (start h) = h
LockedRun-locked (then_act now a k' r h) = h

-- However a site is locked again while it is locked, its lock keeps the date of the first one.
pub LockedRun-at :
    {t : Trust} {m : Meta} {l : SiteLock} {n : Meta} {k : SiteLock}
    → LockedRun t m l n k
    → k.at ≡ l.at
LockedRun-at (start h) = refl
LockedRun-at {t} (then_act {n} {k} now a k' r h) =
    (act-Continues t now a n k k' (LockedRun-locked r) h).date ∙ LockedRun-at r

-- The operator's evidence hold survives the end of a suspension: the lock becomes the operator's own.
release_lock_meta-held :
    (t : Trust) (by : Str) (m : Meta) (l : SiteLock) (h : LockHold)
    → m.locked ≡ some l
    → l.hold ≡ some h
    → l.by ≡ by
    → (release_lock_meta t by m).1.locked ≡ some (record l { by = lock_by_admin })
unfolding release_lock_meta release_found
release_lock_meta-held t by m l h locked held e = ground (arith, str_eq_iff l.by by)

-- Whether a blocking finding is left that the operator did not review.
abbrev pub is_found : Meta → Bool
is_found m = any (λ f. is_block f.severity) (findings_of m.abuse)

-- What it takes for `ReleaseLock` to lift the lock: its author asks, the operator holds nothing, and the
-- end of a suspension does not put a site online that the guard would have held.
pub record MayRelease (t : Trust) (by : Str) (m : Meta) (l : SiteLock) : Type 0 where
  pub author : l.by ≡ by
  pub no_hold : l.hold ≡ none
  pub no_finding : by ≡ lock_by_account → (is_exempt t false m ≡ true) ⊎ (is_found m ≡ false)

find-is_some :
    (fs : List Finding)
    → is_some (find (λ f. is_block f.severity) fs) ≡ any (λ f. is_block f.severity) fs
find-is_some [] = refl
find-is_some (f ∷ fs) = ground (arith, find-is_some fs)

block_under-exempt :
    (t : Trust) (m : Meta) (fs : List Finding)
    → is_exempt t false m ≡ true
    → is_some (block_under (exemption t false m) fs) ≡ false
unfolding exemption
block_under-exempt t m fs x = elim (Bool-cases t.is_trusted) [
  | inl a ↦ ground (arith, a)
  | inr a ↦ elim (Bool-cases (is_container m.mode)) [
    | inl b ↦ ground (arith, a, b)
    | inr b ↦ ground (arith, a, b, x)
  ]
]

-- `UnreviewedBlock` finds something exactly on a site that the guard may hold and that has a blocking
-- finding.
unreviewed_block-is_some :
    (t : Trust) (m : Meta)
    → is_some (unreviewed_block t m) ≡ (not (is_exempt t false m) && is_found m)
unfolding unreviewed_block
unreviewed_block-is_some t m = elim (Bool-cases (is_exempt t false m)) [
  | inl x ↦ ground (arith, x, block_under-exempt t m (findings_of m.abuse) x)
  | inr x ↦
      ap (λ d. is_some (block_under d (findings_of m.abuse))) ((exemption-undecided t false m).1 x)
      ∙ find-is_some (findings_of m.abuse)
      ∙ ap (λ b. not b && is_found m) (sym x)
]

lifting : SiteLock → Str → Bool → Bool
lifting l by block =
    str_eq l.by by && not (is_some l.hold) && not (str_eq by lock_by_account && block)

release_lock_meta-lifting :
    (t : Trust) (by : Str) (m : Meta) (l : SiteLock)
    → m.locked ≡ some l
    → ((release_lock_meta t by m).0 ≡ lifting l by (is_some (unreviewed_block t m)))
      × (is_some (release_lock_meta t by m).1.locked
          ≡ not (lifting l by (is_some (unreviewed_block t m))))
unfolding release_lock_meta release_found unlock_meta lifting
release_lock_meta-lifting t by m l locked = elim (Option-cases (unreviewed_block t m)) [
  | inl e ↦ (ground (arith, e, locked), ground (arith, e, locked))
  | inr (f, e) ↦ (ground (arith, e, locked), ground (arith, e, locked))
]

MayRelease-lifting :
    (t : Trust) (by : Str) (m : Meta) (l : SiteLock)
    → (lifting l by (not (is_exempt t false m) && is_found m) ≡ true) ↔ MayRelease t by m l
unfolding lifting
MayRelease-lifting t by m l = (
  λ h. record {
    author = (str_eq_iff l.by by).0 (ground (arith, h));
    no_hold = ground (arith, h);
    no_finding = λ e. elim (Bool-cases (is_exempt t false m)) [
      | inl x ↦ inl x
      | inr x ↦ inr (ground (arith, h, x, (str_eq_iff by lock_by_account).1 e))
    ];
  },
  λ r. elim (Bool-cases (str_eq by lock_by_account)) [
    | inl a ↦ elim (r.no_finding ((str_eq_iff by lock_by_account).0 a)) [
      | inl x ↦ ground (arith, a, x, r.no_hold, (str_eq_iff l.by by).1 r.author)
      | inr x ↦ ground (arith, a, x, r.no_hold, (str_eq_iff l.by by).1 r.author)
    ]
    | inr a ↦ ground (arith, a, r.no_hold, (str_eq_iff l.by by).1 r.author)
  ],
)

-- `ReleaseLock` lifts a lock exactly when its author asks, no evidence hold stands on it, and, at the
-- end of a suspension, the site is one that the guard never holds or no blocking finding is left in what
-- the operator did not review; it says so exactly when the site is unlocked after it.
pub release_lock_meta-Released :
    (t : Trust) (by : Str) (m : Meta) (l : SiteLock)
    → m.locked ≡ some l
    → (((release_lock_meta t by m).0 ≡ true) ↔ MayRelease t by m l)
      × (((release_lock_meta t by m).1.locked ≡ none) ↔ MayRelease t by m l)
release_lock_meta-Released t by m l locked =
    let (told, left) = release_lock_meta-lifting t by m l locked in
    let (to, from) = MayRelease-lifting t by m l in
    let same = ap (lifting l by) (unreviewed_block-is_some t m) in
    (
      (λ h. to (sym same ∙ sym told ∙ h), λ r. told ∙ same ∙ from r),
      (
        λ h. to (sym same ∙ ground (arith, left, h)),
        λ r. let lifts = same ∙ from r in ground (arith, left, lifts),
      ),
    )
