-- ===== src/Guard/Held.antt =====
-- When the guard holds a site for review.
use sitebin_io.Base.{
  ◌≡◌, ◌∙◌, ap, refl, sym, inl, inr, Bool, true, false, not, if◌then◌else◌, ◌&&◌, ◌||◌, Bool-cases,
  List, [], ◌∷◌, ◌++◌, Option, none, some, arith, Str, str_eq, contains, find, any, is_some, ◌↔◌,
}
use sitebin_io.Meta.{Meta, Time, Finding, AbuseState, is_container}
use sitebin_io.Guard.{
  Trust, held, undecided, ScanResult, Hit, exemption, collect, record_hits, is_block, blocks,
  reviewed_content, settle, judge, judge_found, has_hits,
}

-- A site that the guard never holds: one that is trusted, a container site whose files are not served
-- as they are, one of an operator.
abbrev pub is_exempt : Trust → Bool → Meta → Bool
is_exempt t as_served m =
    t.is_trusted
    || (is_container m.mode && not as_served)
    || (not (str_eq m.owner_account_id []) && t.is_operator m.owner_account_id)

-- The operator let this very content pass although it blocks: its hash is remembered without a mark.
abbrev pub let_pass : Option AbuseState → Str → Bool
let_pass none hash = false
let_pass (some a) hash = not (str_eq hash []) && contains hash a.reviewed

-- Some file blocks that the operator did not let pass.
abbrev pub offends : Meta → List ScanResult → Bool
offends m results = any (λ r. blocks r && not (let_pass m.abuse r.hash)) results

has_block : List Finding → Bool
has_block fs = is_some (find (λ g. is_block g.severity) fs)

has_block-append : (fs gs : List Finding) → has_block (fs ++ gs) ≡ (has_block fs || has_block gs)
unfolding has_block
has_block-append [] gs = refl
has_block-append (f ∷ fs) gs = ground (arith, has_block-append fs gs)

has_block-record_hits :
    (r : ScanResult) (source blocked : Str) (now : Time) (hs : List Hit)
    → has_block (record_hits r source blocked now hs)
      ≡ (r.active && any (λ h. is_block h.severity) hs)
unfolding has_block record_hits
has_block-record_hits r source blocked now [] = ground arith
has_block-record_hits r source blocked now (h ∷ hs) =
    ground (arith, has_block-record_hits r source blocked now hs)

reviewed_content-blocks :
    (abuse : Option AbuseState) (r : ScanResult)
    → blocks r ≡ true
    → reviewed_content abuse r ≡ let_pass abuse r.hash
unfolding reviewed_content
reviewed_content-blocks none r b = refl
reviewed_content-blocks (some a) r b = ground (arith, b)

has_block-record_all :
    (r : ScanResult) (source blocked : Str) (now : Time)
    → has_block (record_hits r source blocked now r.hits) ≡ blocks r
unfolding blocks
has_block-record_all r source blocked now = has_block-record_hits r source blocked now r.hits

has_block-new :
    (abuse : Option AbuseState) (r : ScanResult) (fs : List Finding)
    → has_block fs ≡ blocks r
    → has_block (if reviewed_content abuse r then [] else fs)
      ≡ (blocks r && not (let_pass abuse r.hash))
unfolding has_block
has_block-new abuse r fs e = elim (Bool-cases (blocks r)) [
  | inl b ↦ ground (arith, b, e, reviewed_content-blocks abuse r b)
  | inr b ↦ ground (arith, b, e)
]

has_block-collect :
    (abuse : Option AbuseState) (source blocked : Str) (now : Time) (results : List ScanResult)
    → has_block (collect abuse source blocked now results)
      ≡ any (λ r. blocks r && not (let_pass abuse r.hash)) results
unfolding collect has_block
has_block-collect abuse source blocked now [] = refl
has_block-collect abuse source blocked now (r ∷ rs) =
    let fs = record_hits r source blocked now r.hits in
    let mine = has_block-new abuse r fs (has_block-record_all r source blocked now) in
    let more = has_block-collect abuse source blocked now rs in
    has_block-append (if reviewed_content abuse r then [] else fs)
      (collect abuse source blocked now rs)
    ∙ ap (λ b. b || has_block (collect abuse source blocked now rs)) mine
    ∙ ap (λ b. blocks r && not (let_pass abuse r.hash) || b) more

pub exemption-undecided :
    (t : Trust) (as_served : Bool) (m : Meta)
    → (exemption t as_served m ≡ undecided) ↔ (is_exempt t as_served m ≡ false)
unfolding exemption
exemption-undecided t as_served m = (λ h. ground arith, λ h. ground arith)

-- What it takes to hold a site.
abbrev pub MayHold : Trust → Bool → Meta → Bool → Type 0
MayHold t as_served m offence =
    (m.locked ≡ none) × (is_exempt t as_served m ≡ false) × (offence ≡ true)

settle-held :
    (t : Trust) (as_served : Bool) (now : Time) (blocked : Str) (found : List Finding)
    (first : Option Finding) (m : Meta)
    → ((settle t as_served now blocked found first m).0 ≡ held)
      ↔ MayHold t as_served m (is_some first)
unfolding settle
settle-held t as_served now blocked found none m =
    (λ h. absurd (ground arith), λ h. absurd (ground arith))
settle-held t as_served now blocked found (some f) m =
    let u = exemption-undecided t as_served m in
    (λ h. (ground arith, u.0 (ground arith), refl), λ (a, b, c). ground (arith, a, u.1 b))

judge_found-held :
    (t : Trust) (as_served : Bool) (now : Time) (blocked : Str) (found : List Finding) (m : Meta)
    → ((judge_found t as_served now blocked found m).0 ≡ held)
      ↔ MayHold t as_served m (has_block found)
unfolding judge_found has_block
judge_found-held t as_served now blocked [] m =
    (λ h. absurd (ground arith), λ h. absurd (ground arith))
judge_found-held t as_served now blocked (f ∷ fs) m =
    settle-held t as_served now blocked (f ∷ fs) (find (λ g. is_block g.severity) (f ∷ fs)) m

has_hits-blocks : (r : ScanResult) → blocks r ≡ true → has_hits r ≡ true
unfolding blocks
has_hits-blocks r b = go r.hits refl
  where
    go : (hs : List Hit) → r.hits ≡ hs → has_hits r ≡ true
    go [] e = absurd (ground (arith, e))
    go (h ∷ hs) e = rw e refl

any-has_hits :
    (m : Meta) (results : List ScanResult) → offends m results ≡ true → any has_hits results ≡ true
any-has_hits m [] h = h
any-has_hits m (r ∷ rs) h = elim (Bool-cases (blocks r)) [
  | inl b ↦ ground (arith, has_hits-blocks r b)
  | inr b ↦ ground (arith, b, any-has_hits m rs)
]

-- A verdict holds a site exactly when it is not locked, neither trusted nor an operator's nor a
-- container site whose files are not served as they are, and one of the files blocks whose very content
-- the operator did not let pass before.
pub judge-held :
    (t : Trust) (as_served : Bool) (now : Time) (source blocked : Str) (results : List ScanResult)
    (m : Meta)
    → ((judge t as_served now source blocked results m).0 ≡ held)
      ↔ MayHold t as_served m (offends m results)
unfolding judge
judge-held t as_served now source blocked results m = elim (Bool-cases (any has_hits results)) [
  | inl e ↦
      let (f, g) =
        judge_found-held t as_served now blocked (collect m.abuse source blocked now results) m in
      let same = has_block-collect m.abuse source blocked now results in
      rw (e, judge)
        (λ h. let (a, b, c) = f h in (a, b, sym same ∙ c), λ (a, b, c). g (a, b, same ∙ c))
  | inr e ↦ (
    λ h. absurd (ground (arith, e)),
    λ (a, b, c). absurd (ground (arith, e, any-has_hits m results c)),
  )
]
