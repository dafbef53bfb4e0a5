-- ===== src/Tests/Scans.antt =====
-- Scans of small files by a few rules, and the rules' file.
use sitebin_io.Base.{
  ℕ, ◌≡◌, refl, Bool, true, false, List, [], ◌∷◌, ◌++◌, Option, none, some, is_some, Str, codes,
  length, take, any, Result, ok, err, arith, bad_rules, if◌then◌else◌, ◌==◌,
}
use sitebin_io.Scan.{Sizes, scan_sizes, Pattern, literal, Scan, flush, new_scan, write, fill, strip}
use sitebin_io.Scan.Decode.{decode}
use sitebin_io.Scan.Splits.{feed_all, write_each, joined, write_each-feed_all}
use sitebin_io.Scan.Overlap.{shows}
use sitebin_io.Scan.Matches.{get_elem?}
use sitebin_io.Scan.Verdict.{ext, is_active, result_of}
use sitebin_io.Scan.Total.{result_of-total}
use sitebin_io.Scan.Kits.{kit_in}
use sitebin_io.Scan.Blocks.{result_of-kit}
use sitebin_io.Rules.{Rule, RuleSet, Regexp, compile}
use sitebin_io.Rules.Dests.{Destination, destination}
use sitebin_io.Rules.InForce.{InForce, compile-InForce}
use sitebin_io.Rules.Loader.{new_loader, rules}
use sitebin_io.Guard.{ScanResult, blocks}

-- Two bytes at a time, and three of those before are matched again.
abbrev narrow : Sizes
narrow = record { chunk = 2; overlap = 3; cap = 20 }

abbrev kit_pattern : List Pattern
kit_pattern = literal (codes "kit") ∷ []

abbrev as_is : Str → Str
as_is s = s

abbrev kit_pieces : List Str
kit_pieces = (codes "a K" ++ 0 ∷ codes "I") ∷ codes "t" ∷ []

abbrev fresh_scan : Scan
fresh_scan = record { scanned = 0; buf = []; carry = []; found = false ∷ [] }

decodes : decode as_is (codes "p%61ss\\x77ord") ≡ some (codes "password")
unfolding decode sitebin_io.Base.str_eq
decodes = refl

write_each-feed_all_example :
    write_each narrow kit_pattern as_is kit_pieces fresh_scan
    ≡ feed_all narrow kit_pattern as_is (strip (joined kit_pieces)) fresh_scan
write_each-feed_all_example =
    write_each-feed_all narrow kit_pattern as_is kit_pieces fresh_scan (omega arith) (omega arith)

kit_pieces-shows : shows (codes "kit") (take 20 (strip (joined kit_pieces))) ≡ true
unfolding sitebin_io.Scan.index_of sitebin_io.Text.to_lower strip joined sitebin_io.Text.has_prefix
kit_pieces-shows = refl

kit_pattern-first : get_elem? kit_pattern 0 ≡ some (literal (codes "kit"))
unfolding get_elem?
kit_pattern-first = refl

abbrev no_regexp : Regexp
no_regexp s = none

abbrev sender_rule : Rule
sender_rule = record {
  id = codes "sender";
  severity = codes "block";
  all = codes "sendTo" ∷ [];
  any_of = codes "bot" ∷ codes "hook" ∷ [];
  files = some (codes ".html" ∷ []);
}

abbrev switched_rule : Rule
switched_rule = record sender_rule { id = codes "switched"; severity = codes "off" }

abbrev some_rules : List Rule
some_rules = switched_rule ∷ sender_rule ∷ []

abbrev webhook : Destination
webhook = record {
  id = codes "hook";
  url = codes "https://Hook.io/in/";
  action = [];
  host = [];
  path = [];
}

abbrev compiled_webhook : Destination
compiled_webhook = record webhook {
  action = codes "lock";
  host = codes "hook.io";
  path = codes "/in";
}

abbrev some_set : RuleSet
some_set = record {
  rules =
      record {
        id = codes "sender";
        severity = sitebin_io.Meta.block;
        all = 0 ∷ [];
        any_of = 1 ∷ 2 ∷ [];
        files = some (codes "html" ∷ []);
      }
      ∷ [];
  patterns = literal (codes "sendto") ∷ literal (codes "bot") ∷ literal (codes "hook") ∷ [];
  dests = compiled_webhook ∷ [];
}

compiles : compile no_regexp some_rules (webhook ∷ []) ≡ ok some_set
unfolding compile sitebin_io.Base.contains sitebin_io.Base.str_eq sitebin_io.Base.lookup
    sitebin_io.Text.trim_space sitebin_io.Text.has_prefix sitebin_io.Base.insert sitebin_io.Text.cut
    sitebin_io.Text.trim_prefix sitebin_io.Text.to_lower sitebin_io.Text.trim_suffix
compiles = refl

refuses_twice : compile no_regexp (switched_rule ∷ switched_rule ∷ []) [] ≡ err bad_rules
unfolding compile sitebin_io.Base.contains sitebin_io.Base.str_eq
refuses_twice = refl

abbrev at_subdomain : Str → Option (Str × Str)
at_subdomain url = some (codes "eu.hook.io", codes "/in/7")

finds_destination :
    destination at_subdomain some_set.dests (codes "eu.hook.io/in/7") ≡ some compiled_webhook
unfolding destination sitebin_io.Base.str_eq sitebin_io.Text.trim_space sitebin_io.Text.to_lower
    sitebin_io.Text.has_suffix
finds_destination = refl

compile-InForce_example : InForce no_regexp some_set.patterns some_rules some_set.rules
compile-InForce_example = compile-InForce no_regexp some_rules (webhook ∷ []) some_set compiles

abbrev page : List Str
page = codes "<a>SENDt" ∷ codes "o(hook)" ∷ []

abbrev page_name : Str
page_name = codes "kit/index.Html"

abbrev excerpts : List Str
excerpts = codes "sendto" ∷ [] ∷ codes "hook" ∷ []

abbrev no_types : Str → Str
no_types e = []

result_of-total_example :
    is_some (
      result_of scan_sizes some_set as_is no_types page_name (codes "h") excerpts (
        write_each scan_sizes some_set.patterns as_is page
          (new_scan scan_sizes some_set.patterns as_is)))
    ≡ true
result_of-total_example =
    result_of-total no_regexp some_rules (webhook ∷ []) some_set scan_sizes as_is no_types page_name
      (codes "h") page excerpts compiles refl

page_active : is_active no_types page_name ≡ true
unfolding is_active sitebin_io.Base.contains sitebin_io.Base.str_eq sitebin_io.Text.cut_last
    sitebin_io.Text.to_lower
page_active = refl

page-kit :
    any (kit_in (ext page_name) (take scan_sizes.cap (strip (joined page)))) some_rules ≡ true
unfolding kit_in sitebin_io.Base.str_eq sitebin_io.Base.contains sitebin_io.Text.to_lower
    sitebin_io.Text.trim_prefix sitebin_io.Text.has_prefix ext sitebin_io.Text.cut_last
    sitebin_io.Scan.index_of strip joined
page-kit = refl

result_of-kit_example :
    (r : ScanResult) × (result_of scan_sizes some_set as_is no_types page_name
        (codes "h")
        excerpts
        (write_each scan_sizes some_set.patterns as_is page
          (new_scan scan_sizes some_set.patterns as_is))
      ≡ some r)
    × (blocks r ≡ true)
result_of-kit_example =
    result_of-kit no_regexp some_rules (webhook ∷ []) some_set scan_sizes as_is no_types page_name
      (codes "h") page excerpts compiles refl (omega arith) (omega arith) page_active page-kit

abbrev empty_set : RuleSet
empty_set = record { rules = []; patterns = []; dests = [] }

abbrev reads_good : Str → Result RuleSet
reads_good s = elim s [
  | [] ↦ err bad_rules
  | c ∷ more ↦ if c == b'g' then ok some_set else err bad_rules
]

-- A good version, then a broken one: the good one stays in force.
keeps_good :
    (rules empty_set reads_good 50_000_000_000 (some (2, 3)) (some (codes "bad")) (
      rules empty_set reads_good 20_000_000_000
        (some (1, 4))
        (some (codes "good"))
        (new_loader empty_set reads_good (codes "r.json")))).cur
    ≡ some_set
unfolding rules sitebin_io.Base.str_eq
keeps_good = refl
