-- ===== src/Guard.antt =====
-- internal/store/guard.go: what scan results mean for a site, what is recorded, and the operator's
-- review. The results of the scan, which Scan models, are an argument. Events to the log and to the
-- scan hook are left out.
pub mod Held
use sitebin_io.Base.{
  ℕ, ◌-◌, Bool, true, false, not, ◌&&◌, ◌||◌, List, [], ◌∷◌, ◌++◌, Option, none, some,
  if◌then◌else◌, ltb, Str, codes, str_eq, contains, any, find, keep_if, is_some, length, drop,
}
use sitebin_io.OneLine.{clean_lock_reason, clean_excerpt}
use sitebin_io.Meta.{Meta, Time, SiteLock, Severity, block, flag, Finding, AbuseState, is_container}

abbrev pub lock_by_scanner : Str
lock_by_scanner = codes "scanner"

abbrev pub max_findings : ℕ
max_findings = 20

abbrev pub max_reviewed : ℕ
max_reviewed = 200

-- `reviewedFlag`.
abbrev pub reviewed_flag : Str
reviewed_flag = codes ":flag"

pub record Hit : Type 0 where
  pub rule : Str
  pub severity : Severity
  pub excerpt : Str

-- `abuse.Result`; `scanned` and `hash` are its `Path` and `SHA256`.
pub record ScanResult : Type 0 where
  pub scanned : Str
  pub hash : Str
  pub active : Bool
  pub hits : List Hit

abbrev pub is_block : Severity → Bool
is_block block = true
is_block flag = false

-- `Result.Blocks`.
unfoldable pub blocks : ScanResult → Bool
blocks r = r.active && any (λ h. is_block h.severity) r.hits

-- The newest n of a list: `l[len(l)-n:]` where it is longer.
unfoldable pub newest {ℓ} : {A : Type ℓ} → ℕ → List A → List A
newest n xs = if ltb n (length xs) then drop (length xs - n) xs else xs

-- The fingerprint to remember of a finding.
unfoldable pub review_key : Finding → Str
review_key f = if is_block f.severity then f.sha256 else f.sha256 ++ reviewed_flag

unfoldable pub add_reviewed : List Str → List Finding → List Str
unfolding review_key
add_reviewed reviewed [] = reviewed
add_reviewed reviewed (f ∷ fs) =
    add_reviewed
      (if not (str_eq f.sha256 []) && not (contains (review_key f) reviewed)
        then reviewed ++ review_key f ∷ []
        else reviewed)
      fs

unfoldable pub review_state : AbuseState → AbuseState
unfolding add_reviewed newest
review_state a = record {
  findings = [];
  reviewed = newest max_reviewed (add_reviewed a.reviewed a.findings);
}

abbrev pub has_findings : Option AbuseState → Bool
has_findings none = false
has_findings (some a) = elim a.findings [ [] ↦ false | f ∷ fs ↦ true ]

-- `reviewMeta`, also the closure of `ClearFindings`.
unfoldable pub review_meta : Meta → Bool × Meta
unfolding review_state
review_meta m = elim m.abuse [
  | none ↦ (false, m)
  | some a ↦ elim a.findings [
    | [] ↦ (false, m)
    | f ∷ fs ↦ (true, record m { abuse = some (review_state a) })
  ]
]

-- Whether the operator already released this content at the severity that it now has.
unfoldable pub reviewed_content : Option AbuseState → ScanResult → Bool
unfolding blocks
reviewed_content none r = false
reviewed_content (some a) r =
    not (str_eq r.hash [])
    && (contains r.hash a.reviewed
        || not (blocks r) && contains (r.hash ++ reviewed_flag) a.reviewed)

unfoldable pub same_place : Finding → Finding → Bool
same_place f h = str_eq f.rule h.rule && str_eq f.path h.path

unfoldable pub merge_findings : List Finding → List Finding → List Finding
unfolding newest same_place
merge_findings have found =
    newest max_findings (keep_if (λ h. not (any (λ f. same_place f h) found)) have ++ found)

pub data Decision : Type 0 where
  held flagged trusted container operator already_locked reviewed undecided : Decision

-- What the exemptions ask of the store: the site's trust marker, and who the operator is.
pub record Trust : Type 0 where
  pub is_trusted : Bool
  pub is_operator : Str → Bool

-- `exemption`; `undecided` is the empty string, no exemption.
unfoldable pub exemption : Trust → Bool → Meta → Decision
exemption t as_served m =
    if t.is_trusted
    then trusted
    else if is_container m.mode && not as_served
    then container
    else if not (str_eq m.owner_account_id []) && t.is_operator m.owner_account_id
    then operator
    else undecided

abbrev pub finding_severity : Bool → Severity → Severity
finding_severity active block = if active then block else flag
finding_severity active flag = flag

unfoldable pub record_hits : ScanResult → Str → Str → Time → List Hit → List Finding
record_hits r source blocked now [] = []
record_hits r source blocked now (h ∷ hs) =
    record {
      rule = h.rule;
      severity = finding_severity r.active h.severity;
      path = r.scanned;
      excerpt = (if str_eq blocked [] then h.excerpt else clean_excerpt blocked);
      sha256 = r.hash;
      source = source;
      at = now;
    }
    ∷ record_hits r source blocked now hs

-- The findings of all results that were not reviewed.
unfoldable pub collect : Option AbuseState → Str → Str → Time → List ScanResult → List Finding
unfolding record_hits reviewed_content
collect abuse source blocked now [] = []
collect abuse source blocked now (r ∷ rs) =
    (if reviewed_content abuse r then [] else record_hits r source blocked now r.hits)
    ++ collect abuse source blocked now rs

abbrev pub has_hits : ScanResult → Bool
has_hits r = elim r.hits [ [] ↦ false | h ∷ hs ↦ true ]

unfoldable pub hold_reason : Str → Finding → Str
hold_reason blocked first =
    if str_eq blocked []
    then codes "held for review: " ++ (first.rule ++ (codes " in " ++ first.path))
    else codes "held for review: a CSP report blocked "
      ++ (clean_excerpt blocked ++ (codes " (" ++ (first.rule ++ codes ")")))

unfoldable pub add_findings : List Finding → Option AbuseState → AbuseState
unfolding merge_findings
add_findings found none = record { findings = merge_findings [] found; reviewed = [] }
add_findings found (some a) = record a { findings = merge_findings a.findings found }

unfoldable pub scanner_lock : Time → Str → Finding → SiteLock
unfolding hold_reason
scanner_lock now blocked first = record {
  at = now;
  reason = clean_lock_reason (hold_reason blocked first);
  by = lock_by_scanner;
  hold = none;
}

abbrev pub recorded : List Finding → Meta → Meta
recorded found m = record m { abuse = some (add_findings found m.abuse) }

-- The last `switch` of `judge`, with the first blocking finding if there is one.
unfoldable pub settle :
    Trust → Bool → Time → Str → List Finding → Option Finding → Meta → Decision × Meta
unfolding exemption scanner_lock add_findings
settle t as_served now blocked found none m = (flagged, recorded found m)
settle t as_served now blocked found (some first) m =
    if is_some m.locked
    then (already_locked, recorded found m)
    else elim (exemption t as_served m) [
      | undecided ↦
          (held, record (recorded found m) { locked = some (scanner_lock now blocked first) })
      | why ↦ (why, recorded found m)
    ]

-- The second half of `judge`, on the findings that are new.
unfoldable pub judge_found :
    Trust → Bool → Time → Str → List Finding → Meta → Decision × Option Meta
unfolding settle
judge_found t as_served now blocked [] m = (reviewed, none)
judge_found t as_served now blocked (f ∷ fs) m =
    let first = find (λ g. is_block g.severity) (f ∷ fs) in
    let (decision, m') = settle t as_served now blocked (f ∷ fs) first m in (decision, some m')

-- `judge`: the decision, and the meta to write if it changed.
unfoldable pub judge :
    Trust → Bool → Time → Str → Str → List ScanResult → Meta → Decision × Option Meta
unfolding collect judge_found
judge t as_served now source blocked results m =
    if any has_hits results
    then judge_found t as_served now blocked (collect m.abuse source blocked now results) m
    else (undecided, none)
