-- ===== src/HostShare/Vouchers.antt =====
-- Who vouches for an address: only one of the same owner, held by its own proof.
use sitebin_io.Base.{
  ◌≡◌, ◌≢◌, refl, ◌↔◌, ◌⊎◌, inl, inr, Bool, true, false, Bool-cases, List, [], ◌∷◌, Option, none,
  some, Option-cases, arith, Str, str_eq, str_eq_iff, is_some,
}
use sitebin_io.Meta.{Time, DomainClaim}
use sitebin_io.HostShare.{
  HostAddress, Word, silent, holds, failing, word_of_claim, word_of, sooner, vouch_loop, vouch_for,
}

-- A claim that holds its address by its own proof, with no window running.
abbrev pub OwnProof : Option DomainClaim → Type 0
OwnProof none = Unit
OwnProof (some c) = (is_some c.verified_at ≡ true) × (c.via_host ≡ false) × (c.failing_since ≡ none)

-- Another address of this owner on the host that is held by its own proof.
pub record Voucher (owner addr : Str) (h : HostAddress) : Type 0 where
  pub other : h.addr ≢ addr
  pub same_owner : h.owner ≡ owner
  pub own_proof : OwnProof h.claim

abbrev pub AmongVouchers : Str → Str → List HostAddress → Type 0
AmongVouchers owner addr [] = ⊥
AmongVouchers owner addr (h ∷ more) = Voucher owner addr h ⊎ AmongVouchers owner addr more

word_of_claim-holds : (c : Option DomainClaim) → (word_of_claim c ≡ holds) ↔ OwnProof c
unfolding word_of_claim
word_of_claim-holds none = (λ h. tt, λ h. refl)
word_of_claim-holds (some c) = elim (Option-cases c.failing_since) [
  | inl e ↦ (λ h. ground (arith, e), λ (x, y, z). ground (arith, e))
  | inr (t, e) ↦ (λ h. ground (arith, e), λ (x, y, z). ground (arith, e))
]

word_of-holds :
    (owner addr : Str) (h : HostAddress) → (word_of owner addr h ≡ holds) ↔ Voucher owner addr h
unfolding word_of
word_of-holds owner addr h = (
  λ e. record {
    other = λ s. ground (arith, str_eq_iff h.addr addr);
    same_owner = (str_eq_iff h.owner owner).0 (ground arith);
    own_proof = (word_of_claim-holds h.claim).0 (ground arith);
  },
  λ v. ground (
    arith,
    v.other,
    v.same_owner,
    str_eq_iff h.addr addr,
    str_eq_iff h.owner owner,
    (word_of_claim-holds h.claim).1 v.own_proof,
  ),
)

Word-cases : (w : Word) → (w ≡ holds) ⊎ ((w ≡ silent) ⊎ ((t : Time) × (w ≡ failing t)))
Word-cases silent = inr (inl refl)
Word-cases holds = inl refl
Word-cases (failing t) = inr (inr (t, refl))

vouch_loop-healthy :
    (owner addr : Str) (since : Option Time) (addresses : List HostAddress)
    → ((vouch_loop owner addr since addresses).healthy ≡ true) ↔ AmongVouchers owner addr addresses
unfolding vouch_loop
vouch_loop-healthy owner addr since [] = (λ h. absurd (ground arith), λ v. absurd v)
vouch_loop-healthy owner addr since (h ∷ more) = elim (Word-cases (word_of owner addr h)) [
  | inl e ↦ (λ k. inl ((word_of-holds owner addr h).0 e), λ v. rw (e, vouch_loop) refl)
  | inr (inl e) ↦
      skip (vouch_loop-healthy owner addr since more) (rw (e, vouch_loop) refl) (not_holds e)
  | inr (inr (t, e)) ↦
      skip (vouch_loop-healthy owner addr (sooner t since) more) (rw (e, vouch_loop) refl)
        (not_failing t e)
]
  where
    not_holds : word_of owner addr h ≡ silent → word_of owner addr h ≢ holds
    not_holds e k = cc

    not_failing : (t : Time) → word_of owner addr h ≡ failing t → word_of owner addr h ≢ holds
    not_failing t e k = cc

    skip :
        {a b : Bool}
        → (b ≡ true) ↔ AmongVouchers owner addr more
        → a ≡ b
        → word_of owner addr h ≢ holds
        → (a ≡ true) ↔ (Voucher owner addr h ⊎ AmongVouchers owner addr more)
    skip i e n = (
      λ k. inr (i.0 (cc)),
      λ v. elim v [
        | inl x ↦ absurd (n ((word_of-holds owner addr h).1 x))
        | inr x ↦ (let y = i.1 x in cc)
      ],
    )

-- A host is healthy for an address exactly when the site has an owner and another address of the same
-- owner on the host is held by its own proof: one that is held through the host never vouches.
pub vouch_for-healthy :
    (owner addr : Str) (addresses : List HostAddress)
    → ((vouch_for owner addr addresses).healthy ≡ true)
      ↔ ((owner ≢ []) × AmongVouchers owner addr addresses)
unfolding vouch_for
vouch_for-healthy owner addr addresses = elim (Bool-cases (str_eq owner [])) [
  | inl e ↦ (λ h. absurd (ground (arith, e)), λ (n, v). absurd (n ((str_eq_iff owner []).0 e)))
  | inr e ↦ (
    λ h. (
      λ s. ground (arith, e, str_eq_iff owner []),
      (vouch_loop-healthy owner addr none addresses).0 (ground (arith, e)),
    ),
    λ (n, v). ground (arith, e, (vouch_loop-healthy owner addr none addresses).1 v),
  )
]
