-- ===== src/Scan/Blocks.antt =====
-- internal/abuse/rules.go and scan.go together: a kit that a rule describes by plain texts is blocked.
use sitebin_io.Base.{suc, ◌≤◌, ◌<◌, ◌≡◌, ap, arith, true, List, some, Str, any, length, take, ok}
use sitebin_io.Scan.{Sizes, flush, new_scan, strip}
use sitebin_io.Scan.Matches.{length-no_matches}
use sitebin_io.Scan.Finds.{flush-finds}
use sitebin_io.Scan.Splits.{write_each, joined}
use sitebin_io.Rules.Dests.{Destination}
use sitebin_io.Scan.Verdict.{ext, is_active, result_of, result_with}
use sitebin_io.Scan.Total.{flush-aligned, write_each-aligned}
use sitebin_io.Rules.{Rule, RuleSet, Regexp, max_pattern_len, compile}
use sitebin_io.Rules.InForce.{compile-InForce}
use sitebin_io.Guard.{ScanResult, blocks}
use sitebin_io.Scan.Kits.{kit_in, Blocking, rule_hits-kit}

-- A file that holds a kit is blocked: where a set of rules compiled, a file that a browser runs and
-- whose first bytes up to the cap, the zero bytes apart, hold in any letter case every plain text of a
-- block rule for such files, and one of those of which it wants one, has a result that blocks it,
-- whatever the pieces that the file was written in.
pub result_of-kit :
    (regexp : Regexp) (rules : List Rule) (dests : List Destination) (rs : RuleSet) (sizes : Sizes)
    (unescape type_of : Str → Str) (path hash : Str) (pieces excerpts : List Str)
    → compile regexp rules dests ≡ ok rs
    → length excerpts ≡ length rs.patterns
    → 0 < sizes.chunk
    → max_pattern_len ≤ suc sizes.overlap
    → is_active type_of path ≡ true
    → any (kit_in (ext path) (take sizes.cap (strip (joined pieces)))) rules ≡ true
    → (r : ScanResult) × (result_of sizes rs unescape type_of path hash excerpts
          (write_each sizes rs.patterns unescape pieces (new_scan sizes rs.patterns unescape))
        ≡ some r)
      × (blocks r ≡ true)
unfolding result_of Blocking blocks
result_of-kit regexp rules dests rs sizes unescape type_of path hash pieces excerpts compiled texts
      some_room wide active kit =
    let start = new_scan sizes rs.patterns unescape in
    let s = write_each sizes rs.patterns unescape pieces start in
    let begun : length start.found ≡ length rs.patterns =
      unfold new_scan in length-no_matches rs.patterns in
    let aligned =
      flush-aligned sizes rs.patterns unescape s
        (write_each-aligned sizes rs.patterns unescape pieces start begun) in
    let (hits, e, blocking) =
      rule_hits-kit regexp rs.patterns (flush sizes rs.patterns unescape s).found excerpts
        (take sizes.cap (strip (joined pieces))) aligned texts
        (λ i l here some_text short seen.
          flush-finds sizes rs.patterns unescape pieces i l some_room here some_text (omega arith)
            seen)
        (ext path) rules rs.rules (compile-InForce regexp rules dests rs compiled) kit in
    (
      record { scanned = path; hash = hash; active = is_active type_of path; hits = hits },
      ap (result_with type_of path hash) e,
      ground arith,
    )
