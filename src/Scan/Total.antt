-- ===== src/Scan/Total.antt =====
-- internal/abuse/scan.go: no index of a compiled rule is out of range when a scan is finished.
use sitebin_io.Base.{
  ℕ, zero, suc, ◌+◌, ◌<◌, ◌≡◌, refl, arith, Bool, true, List, [], ◌∷◌, some, is_some, Str, length,
  take, drop, ◌-◌, ◌++◌, ok,
}
use sitebin_io.Scan.{
  Sizes, Pattern, Scan, flush, match_chunk, new_scan, write, write_text, fill, if_full, strip,
}
use Prim.Native.Nat.{min}
use sitebin_io.Scan.Decode.{decode}
use sitebin_io.Scan.Splits.{write_each}
use sitebin_io.Scan.Matches.{get_elem?, length-match_all, length-no_matches}
use sitebin_io.Scan.Verdict.{
  all_found, first_found, hit_with, hit_at, any_hit, rule_hit, rule_hits, result_of, ext,
}
use sitebin_io.Rules.{Rule, CompiledRule, RuleSet, Regexp, compile}
use sitebin_io.Rules.Dests.{Destination}
use sitebin_io.Rules.Compiled.{Refers}
use sitebin_io.Rules.InForce.{RuleOf, InForce, nothing, off, on, compile-InForce}

-- Lists of one length have the same places.
pub in_range {ℓ κ} :
    {A : Type ℓ} {B : Type κ} (ps : List A) (xs : List B) (i : ℕ) {p : A}
    → length xs ≡ length ps
    → get_elem? ps i ≡ some p
    → (x : B) × (get_elem? xs i ≡ some x)
unfolding get_elem?
in_range [] xs i same h = ground arith
in_range (p ∷ ps) [] i same h = ground arith
in_range (p ∷ ps) (x ∷ xs) zero same h = (x, refl)
in_range (p ∷ ps) (x ∷ xs) (suc i) same h = in_range ps xs i (omega arith) h

module _ (regexp : Regexp) (ps : List Pattern) (found : List Bool) (excerpts : List Str)
    (c : CompiledRule) (aligned : length found ≡ length ps)
    (texts : length excerpts ≡ length ps) where
  all_found-total :
      (srcs : List Str) (is : List ℕ)
      → Refers regexp ps srcs is
      → is_some (all_found found is) ≡ true
  unfolding all_found Refers
  all_found-total [] [] h = refl
  all_found-total [] (i ∷ is) h = elim h [ ]
  all_found-total (src ∷ srcs) [] h = elim h [ ]
  all_found-total (src ∷ srcs) (i ∷ is) ((p, here, compiled), later) =
      let (b, e) = in_range ps found i aligned here in
      let rest = all_found-total srcs is later in ground arith

  pub hit_with-total :
      (i : ℕ) {p : Pattern}
      → get_elem? ps i ≡ some p
      → is_some (hit_with c (get_elem? excerpts i)) ≡ true
  hit_with-total i here = let (text, e) = in_range ps excerpts i texts here in rw e refl

  first_found-total :
      (srcs : List Str) (is : List ℕ)
      → Refers regexp ps srcs is
      → is_some (hit_at c excerpts (first_found found is)) ≡ true
  unfolding first_found Refers
  first_found-total [] [] h = refl
  first_found-total [] (i ∷ is) h = elim h [ ]
  first_found-total (src ∷ srcs) [] h = elim h [ ]
  first_found-total (src ∷ srcs) (i ∷ is) ((p, here, compiled), later) =
      let (b, e) = in_range ps found i aligned here in
      let rest = first_found-total srcs is later in let one = hit_with-total i here in ground arith

  any_hit-total :
      (all any_of : List Str) (is js : List ℕ)
      → 0 < length all + length any_of
      → Refers regexp ps all is
      → Refers regexp ps any_of js
      → is_some (any_hit c found excerpts js is) ≡ true
  unfolding any_hit Refers
  any_hit-total all any_of is (j ∷ js) some_pattern a b = first_found-total any_of (j ∷ js) b
  any_hit-total (src ∷ all) any_of (i ∷ is) [] some_pattern ((p, here, compiled), later) b =
      hit_with-total i here
  any_hit-total (src ∷ all) any_of [] [] some_pattern a b = elim a [ ]
  any_hit-total [] (src ∷ any_of) [] [] some_pattern a b = elim b [ ]
  any_hit-total [] [] [] [] some_pattern a b = ground arith
  any_hit-total [] any_of (i ∷ is) [] some_pattern a b = elim a [ ]

  pub rule_hit-total :
      (e : Str) (r : Rule) → RuleOf regexp ps r c → is_some (rule_hit e found excerpts c) ≡ true
  unfolding rule_hit
  rule_hit-total e r of = ground (
    arith,
    all_found-total r.all c.all of.all,
    any_hit-total r.all r.any_of c.all c.any_of of.some_pattern of.all of.any_of,
  )

module _ (regexp : Regexp) (ps : List Pattern) (found : List Bool) (excerpts : List Str) (e : Str)
    (aligned : length found ≡ length ps) (texts : length excerpts ≡ length ps) where
  pub rule_hits-total :
      (rules : List Rule) (compiled : List CompiledRule)
      → InForce regexp ps rules compiled
      → is_some (rule_hits e found excerpts compiled) ≡ true
  unfolding rule_hits
  rule_hits-total [] [] nothing = refl
  rule_hits-total [] (c ∷ compiled) h = elim h [ ]
  rule_hits-total (r ∷ rules) compiled (off severe more) = rule_hits-total rules compiled more
  rule_hits-total (r ∷ rules) (c ∷ compiled) (on of more) =
      let one = rule_hit-total regexp ps found excerpts c aligned texts e r of in
      let rest = rule_hits-total rules compiled more in ground arith

module _ (sizes : Sizes) (patterns : List Pattern) (unescape : Str → Str) where
  pub flush-aligned :
      (s : Scan)
      → length s.found ≡ length patterns
      → length (flush sizes patterns unescape s).found ≡ length patterns
  unfolding flush match_chunk
  flush-aligned s h =
      let text : Str = s.carry ++ s.buf in
      ground (arith, length-match_all patterns text (decode unescape text) s.found h)

  fill-aligned :
      (fuel : ℕ) (p : Str) (s : Scan)
      → length s.found ≡ length patterns
      → length (fill sizes patterns unescape fuel p s).found ≡ length patterns
  unfolding fill
  fill-aligned zero p s h = h
  fill-aligned (suc fuel) [] s h = h
  fill-aligned (suc fuel) (c ∷ p) s h =
      let n : ℕ = min (sizes.chunk - length s.buf) (length (c ∷ p)) in
      let t : Scan = record s { buf = s.buf ++ take n (c ∷ p) } in
      fill-aligned fuel (drop n (c ∷ p)) (if_full sizes patterns unescape t)
        (ground (arith, flush-aligned t h))

  write-aligned :
      (p : Str) (s : Scan)
      → length s.found ≡ length patterns
      → length (write sizes patterns unescape p s).found ≡ length patterns
  unfolding write write_text
  write-aligned p s h =
      let q : Str = take (sizes.cap - s.scanned - length s.buf) (strip p) in
      ground (arith, fill-aligned (length q) q s h)

  pub write_each-aligned :
      (pieces : List Str) (s : Scan)
      → length s.found ≡ length patterns
      → length (write_each sizes patterns unescape pieces s).found ≡ length patterns
  unfolding write_each
  write_each-aligned [] s h = h
  write_each-aligned (p ∷ pieces) s h =
      write_each-aligned pieces (write sizes patterns unescape p s) (write-aligned p s h)

-- A scan by a set that compiled ends with a result, whatever was written: no rule has an index that is
-- out of range, and none is without a pattern to show.
pub result_of-total :
    (regexp : Regexp) (rules : List Rule) (dests : List Destination) (rs : RuleSet) (sizes : Sizes)
    (unescape type_of : Str → Str) (path hash : Str) (pieces excerpts : List Str)
    → compile regexp rules dests ≡ ok rs
    → length excerpts ≡ length rs.patterns
    → is_some (
        result_of sizes rs unescape type_of path hash excerpts
          (write_each sizes rs.patterns unescape pieces (new_scan sizes rs.patterns unescape)))
      ≡ true
unfolding result_of
result_of-total regexp rules dests rs sizes unescape type_of path hash pieces excerpts compiled
      texts =
    let start = new_scan sizes rs.patterns unescape in
    let s = write_each sizes rs.patterns unescape pieces start in
    let begun : length start.found ≡ length rs.patterns =
      unfold new_scan in length-no_matches rs.patterns in
    let aligned =
      flush-aligned sizes rs.patterns unescape s
        (write_each-aligned sizes rs.patterns unescape pieces start begun) in
    let hits =
      rule_hits-total regexp rs.patterns (flush sizes rs.patterns unescape s).found excerpts
        (ext path) aligned texts rules rs.rules (compile-InForce regexp rules dests rs compiled) in
    ground arith
