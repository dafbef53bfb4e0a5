-- ===== src/Scan/Kits.antt =====
-- internal/abuse/scan.go: what the patterns that are found make of a rule by plain texts.
use sitebin_io.Base.{
  ℕ, ◌+◌, ◌≤◌, ◌<◌, ◌≡◌, refl, sym, ap, ◌∙◌, arith, Bool, Bool-cases, inl, inr, true, false, not,
  ◌&&◌, ◌||◌, List, [], ◌∷◌, Option, none, some, is_some, Str, codes, str_eq, any, leb, leb→le,
  length, contains, bad_rules, ok, require, >>=-eq-ok, require-true,
}
use sitebin_io.Text.{to_lower, has_prefix, trim_space, trim_left}
use sitebin_io.Meta.{block}
use sitebin_io.Scan.{Pattern, literal}
use sitebin_io.Scan.Matches.{get_elem?}
use sitebin_io.Scan.Overlap.{shows, length-to_lower}
use sitebin_io.Scan.Verdict.{
  all_found, first_found, hit_with, hit_at, any_hit, with_hit, rule_hit, rule_hits,
}
use sitebin_io.Scan.Total.{in_range, rule_hit-total, rule_hits-total}
use sitebin_io.Rules.{
  Rule, CompiledRule, Regexp, pattern_of, max_pattern_len, file_set, severity_of,
}
use sitebin_io.Rules.Compiled.{Stands, Refers}
use sitebin_io.Rules.InForce.{RuleOf, InForce, nothing, off, on}
use sitebin_io.Guard.{Hit, is_block}

-- A text to look for that is no regular expression and stands in the content.
abbrev pub plain_in : Str → Str → Bool
plain_in content src = not (has_prefix src (codes "re:")) && shows (to_lower src) content

abbrev pub in_files : Str → Option (List Str) → Bool
in_files e none = true
in_files e (some files) = contains e files

-- A block rule for files of extension e whose texts stand in the content: all of those that it wants
-- together, and one of those that it wants one of.
unfoldable pub kit_in : Str → Str → Rule → Bool
kit_in e content r =
    str_eq r.severity (codes "block")
    && in_files e (file_set r.files)
    && not (any (λ src. not (plain_in content src)) r.all)
    && (leb (length r.any_of) 0 || any (plain_in content) r.any_of)

trim_space-some : (src : Str) → str_eq (trim_space src) [] ≡ false → 0 < length src
unfolding trim_space trim_left str_eq
trim_space-some [] e = cc
trim_space-some (c ∷ src) e = omega arith

pattern_of-literal :
    (regexp : Regexp) (src : Str) (p : Pattern)
    → has_prefix src (codes "re:") ≡ false
    → pattern_of regexp src ≡ ok p
    → (p ≡ literal (to_lower src))
      × (0 < length (to_lower src))
      × (length (to_lower src) ≤ max_pattern_len)
unfolding pattern_of
pattern_of-literal regexp src p plain e =
    let (pass, sized, rest) =
      >>=-eq-ok
        (require (not (str_eq (trim_space src) []) && leb (length src) max_pattern_len) bad_rules) _
        e in
    let allowed = require-true _ bad_rules pass sized in
    let it : ok (literal (to_lower src)) ≡ ok p = ground arith in
    (
      cc,
      omega (arith, length-to_lower src, trim_space-some src (ground arith)),
      omega (arith, length-to_lower src, leb→le (length src) max_pattern_len (ground arith)),
    )

kit-severity :
    (e content : Str) (r : Rule)
    → kit_in e content r ≡ true
    → severity_of r.severity ≡ ok (some block)
unfolding kit_in severity_of
kit-severity e content r kit =
    let severe : str_eq r.severity (codes "block") ≡ true = ground arith in rw severe refl

off-not :
    (e content : Str) (r : Rule) → severity_of r.severity ≡ ok none → kit_in e content r ≡ false
off-not e content r severe = elim (Bool-cases (kit_in e content r)) [
  | inl kit ↦ let known = kit-severity e content r kit in cc
  | inr other ↦ other
]

-- The hits of a file, one of them to block it.
unfoldable pub Blocking : Option (List Hit) → Type 0
Blocking o = (hits : List Hit) × (o ≡ some hits) × (any (λ h. is_block h.severity) hits ≡ true)

with_hit-first :
    (o : Option (Option Hit)) (more : Option (List Hit)) (h : Hit)
    → o ≡ some (some h)
    → h.severity ≡ block
    → is_some more ≡ true
    → Blocking (with_hit o more)
unfolding Blocking
with_hit-first none more h e severe rest = ground arith
with_hit-first (some none) more h e severe rest = ground arith
with_hit-first (some (some g)) none h e severe rest = ground arith
with_hit-first (some (some g)) (some hits) h e severe rest =
    let same : g ≡ h = cc in (g ∷ hits, refl, rw same (rw severe refl))

with_hit-later :
    (o : Option (Option Hit)) (more : Option (List Hit))
    → is_some o ≡ true
    → Blocking more
    → Blocking (with_hit o more)
unfolding Blocking
with_hit-later none more one h = ground arith
with_hit-later (some none) more one (hits, e, h) = (hits, ground arith, h)
with_hit-later (some (some g)) more one (hits, e, h) = (g ∷ hits, ground arith, ground arith)

module _ (regexp : Regexp) (ps : List Pattern) (found : List Bool) (excerpts : List Str)
    (content : Str) (aligned : length found ≡ length ps) (texts : length excerpts ≡ length ps)
    (finds : (i : ℕ) (l : Str)
      → get_elem? ps i ≡ some (literal l)
      → 0 < length l
      → length l ≤ max_pattern_len
      → shows l content ≡ true
      → get_elem? found i ≡ some true) where
  found-plain :
      (src : Str) (i : ℕ)
      → Stands regexp ps src i
      → plain_in content src ≡ true
      → get_elem? found i ≡ some true
  found-plain src i (p, here, compiled) plain =
      let (it, some_text, short) = pattern_of-literal regexp src p (ground arith) compiled in
      finds i (to_lower src) (here ∙ ap some it) some_text short (ground arith)

  all_found-plain :
      (srcs : List Str) (is : List ℕ)
      → Refers regexp ps srcs is
      → any (λ src. not (plain_in content src)) srcs ≡ false
      → all_found found is ≡ some true
  unfolding all_found Refers
  all_found-plain [] [] h plain = refl
  all_found-plain [] (i ∷ is) h plain = elim h [ ]
  all_found-plain (src ∷ srcs) [] h plain = elim h [ ]
  all_found-plain (src ∷ srcs) (i ∷ is) (here, later) plain =
      let one = found-plain src i here (ground arith) in
      let rest = all_found-plain srcs is later (ground arith) in ground arith

  -- A hit of a rule.
  HitOf : CompiledRule → Option (Option Hit) → Type 0
  HitOf c o = (h : Hit) × (o ≡ some (some h)) × (h.severity ≡ c.severity)

  hit_with-HitOf :
      (c : CompiledRule) (i : ℕ) {p : Pattern}
      → get_elem? ps i ≡ some p
      → HitOf c (hit_with c (get_elem? excerpts i))
  unfolding HitOf
  hit_with-HitOf c i here =
      let (text, e) = in_range ps excerpts i texts here in
      (record { rule = c.id; severity = c.severity; excerpt = text }, ap (hit_with c) e, refl)

  first_found-true :
      (i : ℕ) (is : List ℕ)
      → get_elem? found i ≡ some true
      → first_found found (i ∷ is) ≡ some (some i)
  unfolding first_found
  first_found-true i is e = ground arith

  first_found-false :
      (i : ℕ) (is : List ℕ)
      → get_elem? found i ≡ some false
      → first_found found (i ∷ is) ≡ first_found found is
  unfolding first_found
  first_found-false i is e = ground arith

  first_found-plain :
      (c : CompiledRule) (srcs : List Str) (is : List ℕ)
      → Refers regexp ps srcs is
      → any (plain_in content) srcs ≡ true
      → HitOf c (hit_at c excerpts (first_found found is))
  unfolding Refers
  first_found-plain c [] is h plain = ground arith
  first_found-plain c (src ∷ srcs) [] h plain = elim h [ ]
  first_found-plain c (src ∷ srcs) (i ∷ is) ((p, here, compiled), later) plain =
      let (b, e) = in_range ps found i aligned here in
      let known = found-plain src i (p, here, compiled) in
      elim (Bool-cases b) [
        | inl yes_found ↦
            rw (first_found-true i is (e ∙ ap some yes_found)) (hit_with-HitOf c i here)
        | inr not_found ↦
            rw (first_found-false i is (e ∙ ap some not_found))
              (first_found-plain c srcs is later (ground (arith, known)))
      ]

  any_hit-plain :
      (c : CompiledRule) (all any_of : List Str) (is js : List ℕ)
      → 0 < length all + length any_of
      → Refers regexp ps all is
      → Refers regexp ps any_of js
      → (leb (length any_of) 0 || any (plain_in content) any_of) ≡ true
      → HitOf c (any_hit c found excerpts js is)
  unfolding any_hit Refers
  any_hit-plain c all [] is (j ∷ js) some_pattern a b plain = elim b [ ]
  any_hit-plain c all (src ∷ any_of) is (j ∷ js) some_pattern a b plain =
      first_found-plain c (src ∷ any_of) (j ∷ js) b (ground arith)
  any_hit-plain c all (src ∷ any_of) is [] some_pattern a b plain = elim b [ ]
  any_hit-plain c [] [] is [] some_pattern a b plain = ground arith
  any_hit-plain c (src ∷ all) [] [] [] some_pattern a b plain = elim a [ ]
  any_hit-plain c (src ∷ all) [] (i ∷ is) [] some_pattern ((p, here, compiled), later) b plain =
      hit_with-HitOf c i here

  rule_hit-kit :
      (e : Str) (r : Rule) (c : CompiledRule)
      → RuleOf regexp ps r c
      → kit_in e content r ≡ true
      → HitOf c (rule_hit e found excerpts c)
  unfolding rule_hit kit_in
  rule_hit-kit e r c of kit =
      let together = all_found-plain r.all c.all of.all (ground arith) in
      let hit =
        any_hit-plain c r.all r.any_of c.all c.any_of of.some_pattern of.all of.any_of
          (ground arith) in
      let served : in_files e c.files ≡ true = ap (in_files e) of.files ∙ ground arith in
      rw served (rw together hit)

  pub rule_hits-kit :
      (e : Str) (rules : List Rule) (compiled : List CompiledRule)
      → InForce regexp ps rules compiled
      → any (kit_in e content) rules ≡ true
      → Blocking (rule_hits e found excerpts compiled)
  unfolding rule_hits HitOf
  rule_hits-kit e [] [] nothing kit = ground arith
  rule_hits-kit e [] (c ∷ compiled) h kit = elim h [ ]
  rule_hits-kit e (r ∷ rules) compiled (off severe more) kit =
      rule_hits-kit e rules compiled more (ground (arith, off-not e content r severe))
  rule_hits-kit e (r ∷ rules) (c ∷ compiled) (on of more) kit =
      let rest = rule_hits-total regexp ps found excerpts e aligned texts rules compiled more in
      let one = rule_hit-total regexp ps found excerpts c aligned texts e r of in
      elim (Bool-cases (kit_in e content r)) [
        | inl this ↦
            let (h, hit, severe) = rule_hit-kit e r c of this in
            let known = sym of.severity ∙ kit-severity e content r this in
            let blocking : h.severity ≡ block = cc in with_hit-first _ _ h hit blocking rest
        | inr other ↦ with_hit-later _ _ one (rule_hits-kit e rules compiled more (ground arith))
      ]
