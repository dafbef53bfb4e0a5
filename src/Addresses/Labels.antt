-- ===== src/Addresses/Labels.antt =====
-- The random labels of generated addresses.
use sitebin_io.Base.{
  ◌≡◌, sym, ℕ, zero, suc, ◌+◌, inl, inr, Bool, false, ◌||◌, Bool-cases, List, Option, some, arith,
  Str, str_eq, any,
}
use sitebin_io.Meta.{Address}
use sitebin_io.Addresses.{free_label}

-- A drawn label is one that no address of the list holds and that no site or index link uses.
free_label-unused :
    (tries : ℕ) (draw : ℕ → Str) (used : Str → Bool) (taken : List Address) (n after : ℕ)
    (label : Str)
    → free_label tries draw used taken n ≡ some (label, after)
    → (any (λ a. str_eq a.label label) taken ≡ false) × (used label ≡ false)
unfolding free_label
free_label-unused zero draw used taken n after label h = absurd (ground arith)
free_label-unused (suc tries) draw used taken n after label h =
    elim (Bool-cases (any (λ a. str_eq a.label (draw n)) taken || used (draw n))) [
      | inl e ↦ free_label-unused tries draw used taken (n + 1) after label (rw e at h)
      | inr e ↦ here (draw n) (rw e at h) e
    ]
  where
    here :
        (l : Str)
        → (let drawn : Option (Str × ℕ) = some (l, n + 1) in drawn ≡ some (label, after))
        → (any (λ a. str_eq a.label l) taken || used l) ≡ false
        → (any (λ a. str_eq a.label label) taken ≡ false) × (used label ≡ false)
    here l k e = let same : l ≡ label = cc in rw (sym same) (ground (arith, e))
