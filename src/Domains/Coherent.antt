-- ===== src/Domains/Coherent.antt =====
-- The invariant of domainverify.go: the domain of a verified claim is attached, and no domain is
-- claimed twice. A pending claim may stand on a domain that is attached: `AddDomain` does not look.
use sitebin_io.Base.{
  ◌≡◌, ◌∙◌, ap, refl, sym, inl, inr, Bool, true, false, not, ◌&&◌, ◌||◌, Bool-cases, List, [], ◌∷◌,
  ◌++◌, arith, Str, str_eq, str_eq_iff, contains, keep_if, is_some, if◌then◌else◌,
}
use sitebin_io.Meta.{Meta, Time, DomainClaim}
use sitebin_io.Domains.{
  has_claim, change_claim, remove_name, pending_claim, prove_claim, demote_claim, stamp_claim,
  Check, proven, add_claim, attach_domain, detach_domain, drop_claim, stamp_check,
}

-- The domain of each verified claim is among `domains`, and each claim has its own domain.
abbrev pub AgreeWith : List Str → List DomainClaim → Type 0
AgreeWith domains [] = Unit
AgreeWith domains (c ∷ cs) =
    (is_some c.verified_at ≡ true → contains c.domain domains ≡ true)
    × (has_claim c.domain cs ≡ false)
    × AgreeWith domains cs

abbrev pub IsCoherent : Meta → Type 0
IsCoherent m = AgreeWith m.custom_domains m.domain_claims

contains-append :
    (d e : Str) (xs : List Str) → contains d (xs ++ e ∷ []) ≡ (contains d xs || str_eq e d)
unfolding contains
contains-append d e [] = ground arith
contains-append d e (x ∷ xs) = ground (arith, contains-append d e xs)

pub contains-remove_name :
    (d e : Str) (xs : List Str)
    → contains d (remove_name e xs) ≡ (contains d xs && not (str_eq d e))
unfolding contains remove_name
contains-remove_name d e [] = ground arith
contains-remove_name d e (x ∷ xs) =
    ground (arith, contains-remove_name d e xs, str_eq_iff x e, str_eq_iff x d, str_eq_iff d e)

has_claim-append :
    (d : Str) (c : DomainClaim) (cs : List DomainClaim)
    → has_claim d (cs ++ c ∷ []) ≡ (has_claim d cs || str_eq c.domain d)
unfolding has_claim
has_claim-append d c [] = ground arith
has_claim-append d c (b ∷ cs) = ground (arith, has_claim-append d c cs)

has_claim-change_claim :
    (d e : Str) (f : DomainClaim → DomainClaim) (cs : List DomainClaim)
    → ((c : DomainClaim) → (f c).domain ≡ c.domain)
    → has_claim d (change_claim e f cs) ≡ has_claim d cs
unfolding has_claim change_claim
has_claim-change_claim d e f [] keep = refl
has_claim-change_claim d e f (c ∷ cs) keep =
    ground (arith, keep c, has_claim-change_claim d e f cs keep)

-- A change of d among the domains does not concern the claims on other domains.
pub AgreeWith-away :
    (d : Str) (xs ys : List Str) (cs : List DomainClaim)
    → ((e : Str) → str_eq e d ≡ false → contains e ys ≡ contains e xs)
    → has_claim d cs ≡ false
    → AgreeWith xs cs
    → AgreeWith ys cs
unfolding has_claim
AgreeWith-away d xs ys [] same n h = tt
AgreeWith-away d xs ys (c ∷ cs) same n (v, u, rest) =
    (λ k. same c.domain (ground arith) ∙ v k, u, AgreeWith-away d xs ys cs same (ground arith) rest)

-- The claim on d is changed with d among the domains.
AgreeWith-change_claim :
    (d : Str) (f : DomainClaim → DomainClaim) (xs ys : List Str) (cs : List DomainClaim)
    → ((c : DomainClaim) → (f c).domain ≡ c.domain)
    → ((c : DomainClaim)
        → (is_some c.verified_at ≡ true → contains d xs ≡ true)
        → is_some (f c).verified_at ≡ true
        → contains d ys ≡ true)
    → ((e : Str) → str_eq e d ≡ false → contains e ys ≡ contains e xs)
    → AgreeWith xs cs
    → AgreeWith ys (change_claim d f cs)
unfolding change_claim
AgreeWith-change_claim d f xs ys [] keep new same h = tt
AgreeWith-change_claim d f xs ys (c ∷ cs) keep new same (v, u, rest) =
    elim (Bool-cases (str_eq c.domain d)) [
      | inl e ↦
          rw (e, change_claim)
            (let p : c.domain ≡ d = (str_eq_iff c.domain d).0 e in
              (
                λ k.
                    ap (λ x. contains x ys) (keep c ∙ p)
                    ∙ new c (λ j. ap (λ x. contains x xs) (sym p) ∙ v j) k,
                ap (λ x. has_claim x cs) (keep c) ∙ u,
                AgreeWith-away d xs ys cs same (ap (λ x. has_claim x cs) (sym p) ∙ u) rest,
              ))
      | inr n ↦
          rw (n, change_claim)
            (
              λ k. same c.domain n ∙ v k,
              has_claim-change_claim c.domain d f cs keep ∙ u,
              AgreeWith-change_claim d f xs ys cs keep new same rest,
            )
    ]

AgreeWith-append :
    (xs : List Str) (c : DomainClaim) (cs : List DomainClaim)
    → (is_some c.verified_at ≡ true → contains c.domain xs ≡ true)
    → has_claim c.domain cs ≡ false
    → AgreeWith xs cs
    → AgreeWith xs (cs ++ c ∷ [])
unfolding has_claim
AgreeWith-append xs c [] v n h = (v, refl, tt)
AgreeWith-append xs c (b ∷ cs) v n (w, u, rest) = (
  w,
  ground (
    arith,
    has_claim-append b.domain c cs,
    str_eq_iff c.domain b.domain,
    str_eq_iff b.domain c.domain,
  ),
  AgreeWith-append xs c cs v (ground arith) rest,
)

has_claim-keep_if :
    (d : Str) (p : DomainClaim → Bool) (cs : List DomainClaim)
    → has_claim d cs ≡ false
    → has_claim d (keep_if p cs) ≡ false
unfolding has_claim
has_claim-keep_if d p [] h = refl
has_claim-keep_if d p (c ∷ cs) h = ground (arith, has_claim-keep_if d p cs)

pub AgreeWith-keep_if :
    (xs : List Str) (p : DomainClaim → Bool) (cs : List DomainClaim)
    → AgreeWith xs cs
    → AgreeWith xs (keep_if p cs)
AgreeWith-keep_if xs p [] h = tt
AgreeWith-keep_if xs p (c ∷ cs) (v, u, rest) = elim (Bool-cases (p c)) [
  | inl e ↦ rw e (v, has_claim-keep_if c.domain p cs u, AgreeWith-keep_if xs p cs rest)
  | inr n ↦ rw n (AgreeWith-keep_if xs p cs rest)
]

contains_attached :
    (d : Str) (xs : List Str) (e : Str)
    → contains e (if contains d xs then xs else xs ++ d ∷ []) ≡ (contains e xs || str_eq d e)
contains_attached d xs e = ground (arith, contains-append e d xs, str_eq_iff d e)

pub add_claim-IsCoherent :
    (d token : Str) (now : Time) (m : Meta) → IsCoherent m → IsCoherent (add_claim d token now m)
unfolding add_claim
add_claim-IsCoherent d token now m h = elim (Bool-cases (has_claim d m.domain_claims)) [
  | inl e ↦ rw e h
  | inr e ↦ rw e (
      AgreeWith-append m.custom_domains (pending_claim d token now) m.domain_claims
        (λ k. ground arith) e h)
]

-- Attaching a domain keeps the invariant, with and without a claim on it.
pub attach_domain-IsCoherent :
    (d token : Str) (now : Time) (via_host : Bool) (m : Meta)
    → IsCoherent m
    → IsCoherent (attach_domain d token now via_host m)
unfolding attach_domain
attach_domain-IsCoherent d token now via_host m h =
    let ys = if contains d m.custom_domains then m.custom_domains else m.custom_domains ++ d ∷ [] in
    let here : contains d ys ≡ true =
      ground (arith, contains_attached d m.custom_domains d, str_eq_iff d d) in
    let same : (e : Str) → str_eq e d ≡ false → contains e ys ≡ contains e m.custom_domains =
      λ e ne.
        ground (arith, contains_attached d m.custom_domains e, str_eq_iff e d, str_eq_iff d e) in
    elim (Bool-cases (has_claim d m.domain_claims)) [
      | inl e ↦ rw e (
          AgreeWith-change_claim d (prove_claim now via_host) m.custom_domains ys m.domain_claims
            (λ c. refl) (λ c _ _. here) same h)
      | inr e ↦ rw e (
          AgreeWith-append ys (prove_claim now via_host (pending_claim d token now)) m.domain_claims
            (λ _. here) e (AgreeWith-away d m.custom_domains ys m.domain_claims same e h))
    ]

pub detach_domain-IsCoherent :
    (d : Str) (now : Time) (m : Meta) → IsCoherent m → IsCoherent (detach_domain d now m)
unfolding detach_domain
detach_domain-IsCoherent d now m h =
    AgreeWith-change_claim d (demote_claim now) m.custom_domains (remove_name d m.custom_domains)
      m.domain_claims (λ c. refl) (λ c _ k. ground arith)
      (λ e ne. ground (arith, contains-remove_name e d m.custom_domains)) h

pub drop_claim-IsCoherent : (d : Str) (m : Meta) → IsCoherent m → IsCoherent (drop_claim d m)
unfolding drop_claim
drop_claim-IsCoherent d m h = AgreeWith-keep_if m.custom_domains _ m.domain_claims h

stamp_claim-domain :
    (now : Time) (check : Check) (c : DomainClaim) → (stamp_claim now check c).domain ≡ c.domain
stamp_claim-domain now proven c = refl
stamp_claim-domain now _ c = refl

stamp_claim-verified :
    (now : Time) (check : Check) (c : DomainClaim)
    → (stamp_claim now check c).verified_at ≡ c.verified_at
stamp_claim-verified now proven c = refl
stamp_claim-verified now _ c = refl

-- The record of a check changes neither what is attached nor what is verified.
pub stamp_check-IsCoherent :
    (d : Str) (now : Time) (check : Check) (m : Meta)
    → IsCoherent m
    → IsCoherent (stamp_check d now check m)
unfolding stamp_check
stamp_check-IsCoherent d now check m h =
    AgreeWith-change_claim d (stamp_claim now check) m.custom_domains m.custom_domains
      m.domain_claims (stamp_claim-domain now check)
      (λ c v k. v (sym (ap is_some (stamp_claim-verified now check c)) ∙ k)) (λ e _. refl) h
