-- ===== src/Rules/Loader.antt =====
-- internal/abuse/loader.go: the rule set in force, read again when its file changes. `Parse` and the
-- built-in set are arguments, and so is what each call finds on the disk: the file's time and size if
-- there is a file, and its bytes if they can be read.
use sitebin_io.Base.{
  ℕ, ◌-◌, ◌*◌, ◌^◌, Bool, true, false, not, ◌&&◌, [], Option, none, some, if◌then◌else◌, ltb, ◌==◌,
  Str, str_eq, Result, ok, err,
}
use sitebin_io.Rules.{RuleSet}

-- `checkInterval`, in nanoseconds.
abbrev pub check_interval : ℕ
check_interval = 10 * 10 ^ 9

-- `Loader`, without its lock and its clock; a time of 0 is Go's zero time.
pub record Loader : Type 0 where
  pub path : Str
  pub cur : RuleSet
  pub checked : ℕ
  pub present : Bool
  pub mtime : ℕ
  pub size : ℕ

module _ (defaults : RuleSet) (parse : Str → Result RuleSet) where
  -- `NewLoader`.
  abbrev pub new_loader : Str → Loader
  new_loader path = record {
    path = path;
    cur = defaults;
    checked = 0;
    present = false;
    mtime = 0;
    size = 0;
  }

  abbrev pub parsed : Result RuleSet → Loader → Loader
  parsed (err why) l = l
  parsed (ok rs) l = record l { cur = rs }

  abbrev pub read_rules : Option Str → Loader → Loader
  read_rules none l = l
  read_rules (some bytes) l = parsed (parse bytes) l

  -- From the stat on.
  unfoldable pub look : Option (ℕ × ℕ) → Option Str → Loader → Loader
  look none bytes l = record l { present = false; mtime = 0; size = 0; cur = defaults }
  look (some (mtime, size)) bytes l =
      if l.present && mtime == l.mtime && size == l.size
      then l
      else read_rules bytes (record l { present = true; mtime = mtime; size = size })

  -- Whether a call looks at the file.
  abbrev pub looks : ℕ → Loader → Bool
  looks now l =
      not (str_eq l.path []) && not (not (l.checked == 0) && ltb (now - l.checked) check_interval)

  -- `Rules`: the loader afterwards, whose set is the answer.
  unfoldable pub rules : ℕ → Option (ℕ × ℕ) → Option Str → Loader → Loader
  unfolding look
  rules now found bytes l = if looks now l then look found bytes (record l { checked = now }) else l
