-- ===== src/Base/Results.antt =====
-- The errors that the modelled functions return, by the sentinel that callers test with
-- `errors.Is`, or by the HTTP status of a refusal (the wording is left out), and results with `do`.
use Prim.Native.Nat.{ℕ}
use mathlib.Core.Path.{◌≡◌, refl}
use mathlib.Core.Bool.{Bool, true, false}

pub data Error : Type 0 where
  not_found bad_redirect bad_target bad_domain bad_path locked not_locked not_owner not_due : Error
  read_failed write_failed remove_failed no_free_label bad_tag too_many_tags : Error
  bad_pkt short_read too_many_zones no_sites site_gone no_sizes too_many_domains site_offered
        daily_limit offer_moved bad_rules :
      Error
  no_roots malformed bad_cert_sig cert_expired bad_lic_sig bad_app_id bad_plan : Error
  refused : ℕ → Error
  too_large too_many_files : Error

-- What a function that may fail returns.
pub data Result {ℓ} (A : Type ℓ) : Type ℓ where
  err : Error → Result A
  ok : A → Result A

-- An early `return err` unless the test passes.
abbrev pub require : Bool → Error → Result (Unit {0})
require false why = err why
require true why = ok tt

pub require-true :
    (test : Bool) (why : Error) (u : Unit {0}) → require test why ≡ ok u → test ≡ true
require-true false why u e = cc
require-true true why u e = refl

module _ {ℓ κ} {S : Type ℓ} {T : Type κ} where
  infixl 5 ◌>>=◌
  abbrev pub ◌>>=◌ : Result S → (S → Result T) → Result T
  err why >>= next = err why
  ok s >>= next = next s

  pub >>=-eq-ok :
      (first : Result S) (next : S → Result T) {t : T}
      → (first >>= next) ≡ ok t
      → (s : S) × (first ≡ ok s) × (next s ≡ ok t)
  >>=-eq-ok (err why) next e = cc
  >>=-eq-ok (ok s) next e = (s, refl, e)

infixl 5 ◌>>◌
abbrev pub ◌>>◌ {ℓ} : {T : Type ℓ} → Result (Unit {0}) → Result T → Result T
check >> next = check >>= λ _. next
