-- ===== src/HostShare/Orphans.antt =====
-- The addresses that `Dependents` names are left without a voucher when the address goes.
use sitebin_io.Base.{
  ◌≡◌, refl, inl, inr, true, false, not, Bool-cases, List, [], ◌∷◌, ◌++◌, Option, none, some, arith,
  Str, str_eq, str_eq_iff, contains, keep_if,
}
use sitebin_io.Meta.{DomainClaim}
use sitebin_io.Tags.{sort_tags}
use sitebin_io.HostShare.{HostAddress, is_voucher, dependents_loop, dependents, vouch_for}
use sitebin_io.HostShare.Vouchers.{OwnProof, AmongVouchers, vouch_for-healthy}

-- What is left on the host without an address.
unfoldable pub without : Str → List HostAddress → List HostAddress
without addr = keep_if (λ h. not (str_eq h.addr addr))

OwnProof-is_voucher : (c : Option DomainClaim) → OwnProof c → is_voucher c ≡ true
unfolding is_voucher
OwnProof-is_voucher none p = refl
OwnProof-is_voucher (some c) (v, h, f) = rw (v, h, f) refl

-- A voucher beside the address ends the loop with nothing, whatever was found before it.
dependents_loop-none :
    (owner addr d : Str) (deps : List Str) (addresses : List HostAddress)
    → AmongVouchers owner d (without addr addresses)
    → dependents_loop owner addr deps addresses ≡ []
unfolding dependents_loop without
dependents_loop-none owner addr d deps [] v = absurd v
dependents_loop-none owner addr d deps (h ∷ more) v = elim (Bool-cases (str_eq h.addr addr)) [
  | inl e ↦ ground (arith, e, dependents_loop-none owner addr d deps more (rw e at v))
  | inr e ↦ elim (rw e at v) [
    | inl w ↦
        ground (
          arith,
          e,
          str_eq_iff h.owner owner,
          w.same_owner,
          OwnProof-is_voucher h.claim w.own_proof,
        )
    | inr w ↦ ground (
      arith,
      e,
      dependents_loop-none owner addr d deps more w,
      dependents_loop-none owner addr d (deps ++ h.addr ∷ []) more w,
    )
  ]
]

-- An address that depends on another has nobody to vouch for it once that other is gone.
dependents-unhealthy :
    (owner addr d : Str) (claim : Option DomainClaim) (addresses : List HostAddress)
    → contains d (dependents owner claim addr addresses) ≡ true
    → (vouch_for owner d (without addr addresses)).healthy ≡ false
unfolding dependents contains sort_tags
dependents-unhealthy owner addr d claim addresses h =
    elim (Bool-cases (vouch_for owner d (without addr addresses)).healthy) [
      | inl e ↦
          let (_, v) = (vouch_for-healthy owner d (without addr addresses)).0 e in
          absurd (ground (arith, h, dependents_loop-none owner addr d [] addresses v))
      | inr e ↦ e
    ]
