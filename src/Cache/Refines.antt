-- ===== src/Cache/Refines.antt =====
-- The cache against a memory without bound, in which nothing is pruned or deleted on expiry.
use sitebin_io.Base.{
  ℕ, ◌+◌, ◌≤◌, ◌≡◌, refl, ap, ◌∙◌, Bool, true, false, not, Bool-cases, inl, inr, List, [], ◌∷◌,
  Option, none, some, arith, ltb, leb, if◌then◌else◌, Str, str_eq, str_eq_iff, lookup,
  lookup-insert, lookup-delete, length,
}
use sitebin_io.Text.{has_prefix}
use sitebin_io.Cache.{
  Time, Cache, keep_keys, expired, prune, check_entry, check, max_entries, put, drop_prefix,
}

-- What a caller does with the cache.
pub data Op : Type 0 where
  ask : Str → Op
  verified : Str → Op
  forget : Str → Op

-- The expiry of each key that was ever put and not dropped since.
abbrev pub Memory : Type 0
Memory = Str → Option Time

abbrev pub valid : Option Time → Time → Bool
valid none t = false
valid (some exp) t = leb t exp

-- What each question is answered, in order.
unfoldable pub answers : ℕ → List (Time × Op) → Cache → List Bool
answers ttl [] m = []
answers ttl ((now, ask key) ∷ more) m = (check now key m).0 ∷ answers ttl more (check now key m).1
answers ttl ((now, verified key) ∷ more) m = answers ttl more (put now ttl key m)
answers ttl ((now, forget prefix) ∷ more) m = answers ttl more (drop_prefix prefix m)

-- The same in the memory: a key is good while its last verification is not older than the ttl and
-- no prefix of it was dropped since.
pub expected : ℕ → List (Time × Op) → Memory → List Bool
expected ttl [] a = []
expected ttl ((now, ask key) ∷ more) a = valid (a key) now ∷ expected ttl more a
expected ttl ((now, verified key) ∷ more) a =
    expected ttl more (λ k. if str_eq key k then some (now + ttl) else a k)
expected ttl ((now, forget prefix) ∷ more) a =
    expected ttl more (λ k. if has_prefix k prefix then none else a k)

-- The clock does not run backwards from `from` on.
abbrev pub Ordered : Time → List (Time × Op) → Type 0
Ordered from [] = Unit
Ordered from ((now, op) ∷ more) = (from ≤ now) × Ordered now more

-- From a time on the cache and the memory hold the same keys for good.
abbrev Agree : Time → Cache → Memory → Type 0
Agree now m a = (k : Str) (t : Time) → now ≤ t → valid (lookup k m) t ≡ valid (a k) t

lookup-keep_keys :
    (p : Str → Bool) (k : Str) (m : Cache)
    → lookup k (keep_keys p m) ≡ (if p k then lookup k m else none)
unfolding keep_keys lookup
lookup-keep_keys p k [] = ground arith
lookup-keep_keys p k ((j, exp) ∷ m) = elim (Bool-cases (str_eq j k)) [
  | inl e ↦ let same = ap p ((str_eq_iff j k).0 e) in ground (arith, same, lookup-keep_keys p k m)
  | inr e ↦ ground (arith, lookup-keep_keys p k m)
]

valid_if :
    (b : Bool) (o : Option Time) (t : Time)
    → valid (if b then o else none) t ≡ (if b then valid o t else false)
valid_if true o t = refl
valid_if false o t = refl

valid-prune :
    (now t : Time) (k : Str) (m : Cache)
    → now ≤ t
    → valid (lookup k (prune now m)) t ≡ valid (lookup k m) t
unfolding prune
valid-prune now t k m le =
    ap (λ o. valid o t) (lookup-keep_keys (λ j. not (expired now (lookup j m))) k m)
    ∙ go (lookup k m)
  where
    go : (o : Option Time) → valid (if not (expired now o) then o else none) t ≡ valid o t
    go none = refl
    go (some exp) = ground arith

Agree-later : (now t : Time) (m : Cache) (a : Memory) → now ≤ t → Agree now m a → Agree t m a
Agree-later now t m a le h k u later = h k u (omega arith)

put-Agree :
    (now : Time) (ttl : ℕ) (key : Str) (m : Cache) (a : Memory)
    → Agree now m a
    → Agree now (put now ttl key m) (λ k. if str_eq key k then some (now + ttl) else a k)
unfolding put
put-Agree now ttl key m a h k t le = ground (
  arith,
  lookup-insert key k (now + ttl) (if ltb max_entries (length m) then prune now m else m),
  valid-prune now t k m,
  h k t,
)

drop-Agree :
    (now : Time) (prefix : Str) (m : Cache) (a : Memory)
    → Agree now m a
    → Agree now (drop_prefix prefix m) (λ k. if has_prefix k prefix then none else a k)
unfolding drop_prefix
drop-Agree now prefix m a h k t le =
    ground (arith, lookup-keep_keys (λ j. not (has_prefix j prefix)) k m, h k t)

check_answer :
    (now : Time) (key : Str) (m : Cache) (a : Memory)
    → Agree now m a
    → (check now key m).0 ≡ valid (a key) now
unfolding check
check_answer now key m a h = go (lookup key m) ∙ h key now (omega arith)
  where
    go : (o : Option Time) → (check_entry now key m o).0 ≡ valid o now
    go none = refl
    go (some exp) = ground arith

check-Agree :
    (now : Time) (key : Str) (m : Cache) (a : Memory)
    → Agree now m a
    → Agree now (check now key m).1 a
unfolding check
check-Agree now key m a h k t le = go (lookup key m) refl
  where
    go :
        (o : Option Time)
        → lookup key m ≡ o
        → valid (lookup k (check_entry now key m o).1) t ≡ valid (a k) t
    go none e = h k t le
    go (some exp) e = ground (
      arith,
      lookup-delete key k m,
      str_eq_iff key k,
      h k t,
      ap (λ o. valid o t) e,
      ap (λ j. valid (lookup j m) t) ((str_eq_iff key k).0 _),
    )

answers-expected :
    (ttl : ℕ) (from : Time) (ops : List (Time × Op)) (m : Cache) (a : Memory)
    → Ordered from ops
    → Agree from m a
    → answers ttl ops m ≡ expected ttl ops a
unfolding answers expected
answers-expected ttl from [] m a o h = refl
answers-expected ttl from ((now, ask key) ∷ more) m a (le, o) h =
    let h' = Agree-later from now m a le h in
    λ i.
      check_answer now key m a h' i
      ∷ answers-expected ttl now more (check now key m).1 a o (check-Agree now key m a h') i
answers-expected ttl from ((now, verified key) ∷ more) m a (le, o) h =
    answers-expected ttl now more (put now ttl key m) _ o
      (put-Agree now ttl key m a (Agree-later from now m a le h))
answers-expected ttl from ((now, forget prefix) ∷ more) m a (le, o) h =
    answers-expected ttl now more (drop_prefix prefix m) _ o
      (drop-Agree now prefix m a (Agree-later from now m a le h))

-- Whoever uses a new cache, at times that do not run backwards, is answered as by a memory that keeps
-- every key for the ttl after its last verification, unless it was dropped: pruning and the limit on
-- the entries never show.
pub answers_fresh :
    (ttl : ℕ) (ops : List (Time × Op))
    → Ordered 0 ops
    → answers ttl ops [] ≡ expected ttl ops (λ k. none)
answers_fresh ttl ops o = answers-expected ttl 0 ops [] (λ k. none) o (λ k t le. nothing k t)
  where
    nothing : (k : Str) (t : Time) → valid (lookup k []) t ≡ false
    nothing k t = unfold lookup in refl
