-- ===== src/Rules.antt =====
-- internal/abuse/rules.go: the rules that uploads are scanned by, and their compilation. Descriptions are
-- left out. `regexp.Compile`, with the literal that `requiredLiteral` finds, is an argument.
pub mod Dests
pub mod Compiled
pub mod InForce
pub mod Loader
use sitebin_io.Base.{
  ℕ, zero, suc, ◌+◌, ◌≤◌, Bool, true, false, not, ◌&&◌, ◌||◌, List, [], ◌∷◌, ◌++◌, map, Option,
  none, some, if◌then◌else◌, leb, ltb, ◌==◌, Str, codes, str_eq, contains, any, lookup, insert,
  is_some, length, drop, Error, bad_rules, Result, ok, err, require, ◌>>=◌, ◌>>◌,
}
use sitebin_io.Text.{
  to_lower, has_prefix, has_suffix, trim_space, trim_prefix, trim_suffix, cut, occurs,
}
use sitebin_io.Rules.Dests.{Destination, valid_id, compile_dests}
use sitebin_io.Meta.{Severity, block, flag}
use sitebin_io.Scan.{Pattern, literal, regex}

abbrev pub max_rules : ℕ
max_rules = 500

abbrev pub max_pattern_len : ℕ
max_pattern_len = 1000

-- `Rule`. A list that JSON leaves out is empty, except that `files` tells null from empty.
pub record Rule : Type 0 where
  pub id : Str
  pub severity : Str
  pub all : List Str
  pub any_of : List Str
  pub files : Option (List Str)

pub record CompiledRule : Type 0 where
  pub id : Str
  pub severity : Severity
  pub all : List ℕ
  pub any_of : List ℕ
  pub files : Option (List Str)

pub record RuleSet : Type 0 where
  pub rules : List CompiledRule
  pub patterns : List Pattern
  pub dests : List Destination

-- The patterns so far, and where each source text is among them: `rs.patterns` and `index`.
pub record Table : Type 0 where
  pub patterns : List Pattern
  pub index : List (Str × ℕ)

abbrev pub Regexp : Type 0
Regexp = Str → Option (Option Str × (Str → Option (ℕ × ℕ)))

abbrev pub regex_of : Option (Option Str × (Str → Option (ℕ × ℕ))) → Result Pattern
regex_of none = err bad_rules
regex_of (some (need, first)) = ok (regex need first)

-- The file extensions of a rule, or none for every file.
abbrev pub file_set : Option (List Str) → Option (List Str)
file_set none = none
file_set (some []) = none
file_set (some (f ∷ files)) = some (map (λ f. to_lower (trim_prefix f (codes "."))) (f ∷ files))

abbrev pub with_rule : Option CompiledRule → List CompiledRule → List CompiledRule
with_rule none rules = rules
with_rule (some r) rules = r ∷ rules

-- The switch on the severity: none where the rule is off.
unfoldable pub severity_of : Str → Result (Option Severity)
severity_of s =
    if str_eq s (codes "block")
    then ok (some block)
    else if str_eq s (codes "flag")
    then ok (some flag)
    else if str_eq s (codes "off")
    then ok none
    else err bad_rules

module _ (regexp : Regexp) where
  -- The pattern of a source text.
  unfoldable pub pattern_of : Str → Result Pattern
  pattern_of src = do
    require (not (str_eq (trim_space src) []) && leb (length src) max_pattern_len) bad_rules
    if has_prefix src (codes "re:")
        then regex_of (regexp (drop 3 src))
        else ok (literal (to_lower src))

  unfoldable pub add_at : Option ℕ → Str → Table → Result (ℕ × Table)
  unfolding pattern_of
  add_at (some i) src t = ok (i, t)
  add_at none src t = do
    p ← pattern_of src
    ok (
      length t.patterns,
      record { patterns = t.patterns ++ p ∷ []; index = insert src (length t.patterns) t.index },
    )

  -- The closure `add` of `compile`.
  unfoldable pub add : Str → Table → Result (ℕ × Table)
  unfolding add_at
  add src t = add_at (lookup src t.index) src t

  unfoldable pub add_all : List Str → Table → Result (List ℕ × Table)
  unfolding add
  add_all [] t = ok ([], t)
  add_all (src ∷ more) t = do (i, t) ← add src t; (is, t) ← add_all more t; ok (i ∷ is, t)

  unfoldable pub compile_with :
      Option Severity → Rule → Table → Result (Option CompiledRule × Table)
  unfolding add_all
  compile_with none r t = ok (none, t)
  compile_with (some severity) r t = do
    require (ltb 0 (length r.all + length r.any_of)) bad_rules
    (all, t) ← add_all r.all t
    (any_of, t) ← add_all r.any_of t
    ok (
      some (record {
        id = r.id;
        severity = severity;
        all = all;
        any_of = any_of;
        files = file_set r.files;
      }),
      t,
    )

  -- One round of the loop of `compile` over the rules.
  unfoldable pub compile_rule : List Str → Rule → Table → Result (Option CompiledRule × Table)
  unfolding compile_with valid_id severity_of
  compile_rule seen r t = do
    require (valid_id r.id && not (contains r.id seen)) bad_rules
    severity ← severity_of r.severity
    compile_with severity r t

  unfoldable pub compile_rules : List Str → List Rule → Table → Result (List CompiledRule × Table)
  unfolding compile_rule
  compile_rules seen [] t = ok ([], t)
  compile_rules seen (r ∷ rules) t = do
    (one, t) ← compile_rule seen r t
    (more, t) ← compile_rules (r.id ∷ seen) rules t
    ok (with_rule one more, t)

-- `compile`.
unfoldable pub compile : Regexp → List Rule → List Destination → Result RuleSet
unfolding compile_rules compile_dests
compile regexp rules dests = do
  require (leb (length rules) max_rules && leb (length dests) max_rules) bad_rules
  (compiled, t) ← compile_rules regexp [] rules (record { patterns = []; index = [] })
  dests ← compile_dests [] dests
  ok (record { rules = compiled; patterns = t.patterns; dests = dests })
