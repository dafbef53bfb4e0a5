-- ===== src/Rules/InForce.antt =====
-- internal/abuse/rules.go: which compiled rules there are, for the rules that were written.
use sitebin_io.Base.{
  ℕ, ◌+◌, ◌<◌, ◌≡◌, refl, subst, arith, List, [], ◌∷◌, Option, none, some, lookup, leb, ltb, Str,
  not, ◌&&◌, contains, length, bad_rules, ok, require, >>=-eq-ok, require-true,
}
use sitebin_io.Meta.{Severity}
use sitebin_io.Scan.{Pattern}
use sitebin_io.Rules.{
  Rule, CompiledRule, RuleSet, Table, Regexp, add_all, severity_of, compile_with, compile_rule,
  compile_rules, compile, with_rule, file_set, max_rules,
}
use sitebin_io.Rules.Dests.{Destination, valid_id, compile_dests}
use sitebin_io.Rules.Compiled.{
  Indexed, Kept, Kept-refl, Kept-trans, Refers, Refers-Kept, AddedAll, add_all-AddedAll,
}

module _ (regexp : Regexp) where
  -- A compiled rule says what the rule says: each index is the place of the pattern of its text.
  pub record RuleOf (ps : List Pattern) (r : Rule) (c : CompiledRule) : Type 0 where
    pub same_id : c.id ≡ r.id
    pub severity : severity_of r.severity ≡ ok (some c.severity)
    pub all : Refers regexp ps r.all c.all
    pub any_of : Refers regexp ps r.any_of c.any_of
    pub files : c.files ≡ file_set r.files
    pub some_pattern : 0 < length r.all + length r.any_of

  -- The rules that are not off, in order.
  pub data InForce (ps : List Pattern) : List Rule → List CompiledRule → Type 0 where
    nothing : InForce ps [] []
    off :
        {r : Rule} {rules : List Rule} {compiled : List CompiledRule}
        → severity_of r.severity ≡ ok none
        → InForce ps rules compiled
        → InForce ps (r ∷ rules) compiled
    on :
        {r : Rule} {c : CompiledRule} {rules : List Rule} {compiled : List CompiledRule}
        → RuleOf ps r c
        → InForce ps rules compiled
        → InForce ps (r ∷ rules) (c ∷ compiled)

  RuleOf-Kept :
      (ps qs : List Pattern) (r : Rule) (c : CompiledRule)
      → Kept regexp ps qs
      → RuleOf ps r c
      → RuleOf qs r c
  RuleOf-Kept ps qs r c kept h = record {
    same_id = h.same_id;
    severity = h.severity;
    all = Refers-Kept regexp ps qs r.all c.all kept h.all;
    any_of = Refers-Kept regexp ps qs r.any_of c.any_of kept h.any_of;
    files = h.files;
    some_pattern = h.some_pattern;
  }

  abbrev Outcome : List Pattern → Rule → Option CompiledRule → Type 0
  Outcome ps r none = severity_of r.severity ≡ ok none
  Outcome ps r (some c) = RuleOf ps r c

  record Step (t : Table) (r : Rule) (one : Option CompiledRule) (u : Table) : Type 0 where
    indexed : Indexed regexp u
    kept : Kept regexp t.patterns u.patterns
    outcome : Outcome u.patterns r one

  abbrev compiled_as : Severity → Rule → List ℕ → List ℕ → CompiledRule
  compiled_as severity r all any_of = record {
    id = r.id;
    severity = severity;
    all = all;
    any_of = any_of;
    files = file_set r.files;
  }

  Step_built :
      (severity : Severity) (r : Rule) (t : Table) (all : List ℕ) (v : Table) (any_of : List ℕ)
      (w : Table)
      → severity_of r.severity ≡ ok (some severity)
      → 0 < length r.all + length r.any_of
      → AddedAll regexp t r.all all v
      → AddedAll regexp v r.any_of any_of w
      → Step t r (some (compiled_as severity r all any_of)) w
  Step_built severity r t all v any_of w severe counted a b = record {
    indexed = b.indexed;
    kept = Kept-trans regexp t.patterns v.patterns w.patterns a.kept b.kept;
    outcome = record {
      same_id = refl;
      severity = severe;
      all = Refers-Kept regexp v.patterns w.patterns r.all all b.kept a.refers;
      any_of = b.refers;
      files = refl;
      some_pattern = counted;
    };
  }

  compile_with-Step :
      (severity : Option Severity) (r : Rule) (t : Table) (one : Option CompiledRule) (u : Table)
      → severity_of r.severity ≡ ok severity
      → Indexed regexp t
      → compile_with regexp severity r t ≡ ok (one, u)
      → Step t r one u
  unfolding compile_with
  compile_with-Step none r t one u severe indexed e =
      let same : t ≡ u = cc in
      let it : none ≡ one = cc in
      let done : Step t r none t = record {
        indexed = indexed;
        kept = Kept-refl regexp t.patterns;
        outcome = severe;
      } in
      subst (λ o. Step t r o u) it (subst (Step t r none) same done)
  compile_with-Step (some severity) r t one u severe indexed e =
      let (pass, wanted, e) =
        >>=-eq-ok (require (ltb 0 (length r.all + length r.any_of)) bad_rules) _ e in
      let ((all, v), first, e) = >>=-eq-ok (add_all regexp r.all t) _ e in
      let ((any_of, w), next, e) = >>=-eq-ok (add_all regexp r.any_of v) _ e in
      let a : AddedAll regexp t r.all all v = add_all-AddedAll regexp r.all t all v indexed first in
      let b : AddedAll regexp v r.any_of any_of w =
        add_all-AddedAll regexp r.any_of v any_of w a.indexed next in
      let counted = require-true (ltb 0 (length r.all + length r.any_of)) bad_rules pass wanted in
      let built = Step_built severity r t all v any_of w severe (ground arith) a b in
      let same : w ≡ u = cc in
      let it : some (compiled_as severity r all any_of) ≡ one = cc in
      subst (λ o. Step t r o u) it
        (subst (Step t r (some (compiled_as severity r all any_of))) same built)

  compile_rule-Step :
      (seen : List Str) (r : Rule) (t : Table) (one : Option CompiledRule) (u : Table)
      → Indexed regexp t
      → compile_rule regexp seen r t ≡ ok (one, u)
      → Step t r one u
  unfolding compile_rule
  compile_rule-Step seen r t one u indexed e =
      let (pass, allowed, e) =
        >>=-eq-ok (require (valid_id r.id && not (contains r.id seen)) bad_rules) _ e in
      let (severity, severe, e) = >>=-eq-ok (severity_of r.severity) _ e in
      compile_with-Step severity r t one u severe indexed e

  record Steps (t : Table) (rules : List Rule) (compiled : List CompiledRule) (u : Table)
      : Type 0 where
    kept : Kept regexp t.patterns u.patterns
    in_force : InForce u.patterns rules compiled

  Steps-cons :
      (t : Table) (r : Rule) (one : Option CompiledRule) (v : Table) (rules : List Rule)
      (more : List CompiledRule) (w : Table)
      → Step t r one v
      → Steps v rules more w
      → Steps t (r ∷ rules) (with_rule one more) w
  Steps-cons t r none v rules more w step later = record {
    kept = Kept-trans regexp t.patterns v.patterns w.patterns step.kept later.kept;
    in_force = off step.outcome later.in_force;
  }
  Steps-cons t r (some c) v rules more w step later = record {
    kept = Kept-trans regexp t.patterns v.patterns w.patterns step.kept later.kept;
    in_force = on (RuleOf-Kept v.patterns w.patterns r c later.kept step.outcome) later.in_force;
  }

  compile_rules-Steps :
      (seen : List Str) (rules : List Rule) (t : Table) (compiled : List CompiledRule) (u : Table)
      → Indexed regexp t
      → compile_rules regexp seen rules t ≡ ok (compiled, u)
      → Steps t rules compiled u
  unfolding compile_rules
  compile_rules-Steps seen [] t compiled u indexed e =
      let same : t ≡ u = cc in
      let it : [] ≡ compiled = cc in
      let done : Steps t [] [] t = record {
        kept = Kept-refl regexp t.patterns;
        in_force = nothing;
      } in
      subst (λ l. Steps t [] l u) it (subst (Steps t [] []) same done)
  compile_rules-Steps seen (r ∷ rules) t compiled u indexed e =
      let ((one, v), first, e) = >>=-eq-ok (compile_rule regexp seen r t) _ e in
      let ((more, w), next, e) = >>=-eq-ok (compile_rules regexp (r.id ∷ seen) rules v) _ e in
      let same : w ≡ u = cc in
      let it : with_rule one more ≡ compiled = cc in
      let step : Step t r one v = compile_rule-Step seen r t one v indexed first in
      let later : Steps v rules more w =
        compile_rules-Steps (r.id ∷ seen) rules v more w step.indexed next in
      subst (λ l. Steps t (r ∷ rules) l u) it
        (subst (Steps t (r ∷ rules) (with_rule one more)) same
          (Steps-cons t r one v rules more w step later))

abbrev empty_table : Table
empty_table = record { patterns = []; index = [] }

empty_table-Indexed : (regexp : Regexp) → Indexed regexp empty_table
unfolding Indexed lookup
empty_table-Indexed regexp src i e = ground arith

-- A set that compiles holds, in order, exactly the rules that are not off, each with its id, severity
-- and file extensions, and with a pattern; and each of its indexes is the place, among the set's
-- patterns, of the pattern of the text that the rule has there.
pub compile-InForce :
    (regexp : Regexp) (rules : List Rule) (dests : List Destination) (rs : RuleSet)
    → compile regexp rules dests ≡ ok rs
    → InForce regexp rs.patterns rules rs.rules
unfolding compile
compile-InForce regexp rules dests rs e =
    let (pass, few, e) =
      >>=-eq-ok (require (leb (length rules) max_rules && leb (length dests) max_rules) bad_rules) _
        e in
    let ((compiled, t), ruled, e) = >>=-eq-ok (compile_rules regexp [] rules empty_table) _ e in
    let (ds, destined, e) = >>=-eq-ok (compile_dests [] dests) _ e in
    let same : record { rules = compiled; patterns = t.patterns; dests = ds } ≡ rs = cc in
    let steps =
      compile_rules-Steps regexp [] rules empty_table compiled t (empty_table-Indexed regexp)
        ruled in
    subst (λ (s : RuleSet). InForce regexp s.patterns rules s.rules) same steps.in_force
