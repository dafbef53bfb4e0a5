-- ===== src/Samples.antt =====
-- Small sites for the tests: a plain one, one with two domains, one that is locked, a container site.
use sitebin_io.Base.{ℕ, true, false, [], ◌∷◌, none, some, Str, codes}
use sitebin_io.Meta
use sitebin_io.Meta.{
  Meta, webserver, container, redirect, off, SiteLock, LockHold, Finding, block, Address,
}
use sitebin_io.Store.{WriteEnds, missing, Site, Index, stored}

abbrev pub no_caps : Meta.Quota
no_caps = record {
  bytes = 0;
  files = 0;
  expiry_days = 0;
  domains = none;
  webdav = none;
  git = none;
  analytics = none;
  forms = none;
}

abbrev pub days_cap : ℕ → Meta.Quota
days_cap n = record no_caps { expiry_days = n }

abbrev pub plain : Meta
plain = record {
  id = codes "shop";
  mode = webserver;
  custom_domains = [];
  domain_claims = [];
  domain_redirects = [];
  view_address = none;
  addresses = [];
  domain_targets = [];
  spa_fallback = false;
  not_found_page = [];
  owner_account_id = codes "acc";
  quota = no_caps;
  expires_at = none;
  expiry_from_tier = false;
  container_state = none;
  locked = none;
  abuse = none;
  updated_at = 0;
}

abbrev pub www : Str
www = codes "www.a.de"

abbrev pub bare : Str
bare = codes "a.de"

-- Both domains attached; the bare one redirects.
abbrev pub redirected : Meta
redirected = record plain {
  custom_domains = www ∷ bare ∷ [];
  domain_redirects = (bare, record { to = www; code = 308 }) ∷ [];
  view_address = some (record { mode = off; to = []; code = 0 });
}

-- A container site whose port 80 is served by the domain and redirects there.
abbrev pub web_address : Address
web_address = record {
  endpoint = codes "web:80";
  label = codes "shop";
  rule = some (record { mode = redirect; to = www; code = 302 });
}

abbrev pub contained : Meta
contained = record plain {
  mode = container;
  custom_domains = www ∷ [];
  addresses = web_address ∷ [];
  domain_targets = (www, codes "web:80") ∷ [];
}

abbrev pub suspension : SiteLock
suspension = record { at = 100; reason = []; by = codes "account"; hold = none }

abbrev pub operator_lock : SiteLock
operator_lock = record { at = 900; reason = codes "court order"; by = codes "admin"; hold = none }

abbrev pub evidence : LockHold
evidence = record { at = 150; by = codes "cli" }

abbrev pub suspended : Meta
suspended = record plain { locked = some suspension }

abbrev pub blocking : Finding
blocking = record {
  rule = codes "phish";
  severity = block;
  path = codes "index.html";
  excerpt = [];
  sha256 = codes "00";
  source = codes "push";
  at = 50;
}

abbrev pub site_of : Meta → Site
site_of m = record {
  view_id = codes "shop";
  edit_id = codes "secret";
  cached = m;
  disk = stored m;
  temp = missing;
}

abbrev pub index : Index
index = record {
  domains = (www, codes "shop") ∷ (codes "other.de", codes "else") ∷ [];
  addresses = [];
  edits = (codes "secret", codes "shop") ∷ [];
}

-- A write of meta.json that goes through.
abbrev pub all_written : WriteEnds
all_written = record {
  encoded = true;
  temp_written = true;
  partial = missing;
  renamed = true;
  removed = true;
}
