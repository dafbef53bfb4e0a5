-- ===== src/Expiry/Quota.antt =====
-- Laws of the tier change.
use sitebin_io.Base.{
  ℕ, ◌+◌, ◌*◌, ◌≤◌, ◌<◌, ◌≡◌, refl, inl, inr, Bool, true, false, ◌&&◌, Bool-cases, Option, none,
  some, arith, if◌then◌else◌, ltb, ◌==◌,
}
use sitebin_io.Base.Int.{int64_small, add_duration}
use sitebin_io.Meta
use sitebin_io.Meta.{Meta, Time}
use sitebin_io.Expiry.{day, after_days, shrank, grew, reconciled, lifted, apply_quota}

-- The largest number of days that a 64-bit duration holds.
abbrev pub max_days : ℕ
max_days = 106751

pub after_days-eq : (now days : ℕ) → days ≤ max_days → after_days now days ≡ now + days * day
unfolding after_days add_duration
after_days-eq now days h = rw (int64_small (days * day) (omega arith))

abbrev expiry_of : Time → ℕ → ℕ → Meta → Option Time × Bool
expiry_of now days grace m =
    if days == 0
    then lifted m.expires_at m.expiry_from_tier
    else reconciled now grace (after_days now days) m.quota.expiry_days days m.expires_at
        m.expiry_from_tier

reconciled_again :
    (now now' limit limit' grace old days : ℕ) (e : Option Time) (b : Bool)
    → 0 < days
    → reconciled now' grace limit' days days
        (reconciled now grace limit old days e b).0
        (reconciled now grace limit old days e b).1
      ≡ reconciled now grace limit old days e b
unfolding reconciled shrank grew
reconciled_again now now' limit limit' grace old days none b h = ground arith
reconciled_again now now' limit limit' grace old days (some e) b h = ground arith

lifted_again : (e : Option Time) (b : Bool) → lifted (lifted e b).0 (lifted e b).1 ≡ lifted e b
unfolding lifted
lifted_again e true = refl
lifted_again e false = refl

-- Stamping a site with the quota that it already carries changes nothing, whenever it is done: a
-- retried tier change neither cuts a running grace short nor moves a date.
apply_quota_again :
    (now now' : Time) (q : Meta.Quota) (grace : ℕ) (m : Meta)
    → apply_quota now' q grace (apply_quota now q grace m) ≡ apply_quota now q grace m
unfolding apply_quota
apply_quota_again now now' q grace m = elim (Bool-cases (q.expiry_days == 0)) [
  | inl e ↦ ground (arith, e, lifted_again m.expires_at m.expiry_from_tier)
  | inr n ↦ ground (
    arith,
    n,
    reconciled_again now now' (after_days now q.expiry_days) (after_days now' q.expiry_days) grace
        m.quota.expiry_days q.expiry_days m.expires_at m.expiry_from_tier,
  )
]

-- What a tier change does to a date that the owner chose.
pub record OwnerDate (now : Time) (q : Meta.Quota) (m m' : Meta) (e : Time) : Type 0 where
  pub stays_chosen : m'.expiry_from_tier ≡ false
  pub only_clamped : m'.expires_at ≡ (
      if shrank m.quota.expiry_days q.expiry_days && ltb (after_days now q.expiry_days) e
      then (if q.expiry_days == 0 then some e else some (after_days now q.expiry_days))
      else some e)

reconciled_chosen :
    (now grace limit old days e : ℕ)
    → reconciled now grace limit old days (some e) false
      ≡ ((if shrank old days && ltb limit e then some limit else some e), false)
unfolding reconciled
reconciled_chosen now grace limit old days e = ground arith

-- A date that the owner chose stays the owner's through every tier change. It is clamped to the new
-- cap exactly when the cap shrank and the date lies beyond it, and is never lifted or extended.
apply_quota-OwnerDate :
    (now : Time) (q : Meta.Quota) (grace : ℕ) (m : Meta) (e : Time)
    → m.expires_at ≡ some e
    → m.expiry_from_tier ≡ false
    → OwnerDate now q m (apply_quota now q grace m) e
unfolding apply_quota lifted
apply_quota-OwnerDate now q grace m e he hb = record {
  stays_chosen = ground (
    arith,
    reconciled_chosen now grace (after_days now q.expiry_days) m.quota.expiry_days q.expiry_days e,
  );
  only_clamped = ground (
    arith,
    reconciled_chosen now grace (after_days now q.expiry_days) m.quota.expiry_days q.expiry_days e,
  );
}

-- When the cap shrinks, a site that had a date is left with one within the new cap, whoever set it.
apply_quota_within :
    (now : Time) (q : Meta.Quota) (grace : ℕ) (m : Meta) (e : Time)
    → 0 < q.expiry_days
    → q.expiry_days ≤ max_days
    → shrank m.quota.expiry_days q.expiry_days ≡ true
    → m.expires_at ≡ some e
    → (e' : Time) × ((apply_quota now q grace m).expires_at ≡ some e')
      × (e' ≤ now + q.expiry_days * day)
      × (e' ≤ e)
unfolding apply_quota reconciled
apply_quota_within now q grace m e pos small s he =
    elim (Bool-cases (ltb (after_days now q.expiry_days) e)) [
      | inl b ↦ (
        after_days now q.expiry_days,
        ground (arith, b),
        omega (arith, after_days-eq now q.expiry_days small),
        ground (arith, b),
      )
      | inr b ↦ (
        e,
        ground (arith, b),
        ground (arith, b, after_days-eq now q.expiry_days small),
        omega arith,
      )
    ]

-- A cap that grows moves a date that the tier imposed to now plus the new cap, also where that is
-- EARLIER than the date: a longer cap chosen during the grace after a downgrade cuts the grace short.
apply_quota-grew :
    (now : Time) (q : Meta.Quota) (grace : ℕ) (m : Meta) (e : Time)
    → grew m.quota.expiry_days q.expiry_days ≡ true
    → q.expiry_days ≤ max_days
    → m.expires_at ≡ some e
    → m.expiry_from_tier ≡ true
    → now + q.expiry_days * day < e
    → (e' : Time) × ((apply_quota now q grace m).expires_at ≡ some e')
      × (e' ≡ now + q.expiry_days * day)
      × (e' < e)
unfolding apply_quota reconciled grew shrank
apply_quota-grew now q grace m e g small he hb late = (
  after_days now q.expiry_days,
  ground arith,
  after_days-eq now q.expiry_days small,
  omega (arith, after_days-eq now q.expiry_days small),
)
