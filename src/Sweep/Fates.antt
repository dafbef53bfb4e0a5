-- ===== src/Sweep/Fates.antt =====
-- When the sweep takes a verified domain off a site.
use sitebin_io.Base.{
  ◌+◌, ◌≤◌, ◌≡◌, refl, ◌↔◌, inl, inr, Bool, true, false, Bool-cases, arith, Str, is_some,
}
use sitebin_io.Meta.{Time, DomainClaim}
use sitebin_io.HostShare.{earliest}
use sitebin_io.Sweep.{
  Answers, Lookup, unanswered, refused, proved, detach, fate, verified_fate, pending_fate,
  absent_fate, window_fate, fate_of_attach, fate_of_lookup, Attached, done, taken, broken, fresh,
  clock_or, revoke_after,
}

-- The answers under which a claim is detached.
pub record MustGo (now : Time) (a : Answers) (c : DomainClaim) : Type 0 where
  pub found : Str
  pub is_verified : is_some c.verified_at ≡ true
  pub due : fresh now c.checked_at ≡ false
  pub answered_no : a.lookup ≡ refused found
  pub nobody_vouches : a.vouch.healthy ≡ false
  pub window_over :
      clock_or now (earliest c.failing_since a.vouch.failing_since) + revoke_after ≤ now

fate_of_attach-detach : (b : Bool) (a : Attached) → ¬ (fate_of_attach b a ≡ detach)
fate_of_attach-detach b done h = cc
fate_of_attach-detach b taken h = cc
fate_of_attach-detach b broken h = cc

fate_of_lookup-detach : (a : Attached) (l : Lookup) → ¬ (fate_of_lookup a l ≡ detach)
fate_of_lookup-detach a (unanswered found) h = cc
fate_of_lookup-detach a (refused found) h = cc
fate_of_lookup-detach a proved h = fate_of_attach-detach false a h

pending_fate-detach :
    (now : Time) (a : Answers) (c : DomainClaim) → ¬ (pending_fate now a c ≡ detach)
unfolding pending_fate
pending_fate-detach now a c h =
    ground (arith, fate_of_attach-detach true a.attached, fate_of_lookup-detach a.attached a.lookup)

verified-MustGo :
    (now : Time) (a : Answers) (c : DomainClaim) (l : Lookup)
    → is_some c.verified_at ≡ true
    → a.lookup ≡ l
    → verified_fate now a.vouch l c ≡ detach
    → MustGo now a c
unfolding verified_fate absent_fate window_fate
verified-MustGo now a c (unanswered found) v e h = absurd (ground arith)
verified-MustGo now a c proved v e h = absurd (ground arith)
verified-MustGo now a c (refused found) v e h = record {
  found = found;
  is_verified = v;
  due = ground arith;
  answered_no = e;
  nobody_vouches = ground arith;
  window_over = ground arith;
}

-- The sweep detaches a domain exactly when its claim is verified and due for a check, the lookup gave a
-- definitive no (never for a lookup that failed), no other address holds the host, and the window,
-- counted from the earliest sign that the proof is gone, is over.
pub fate-MustGo :
    (now : Time) (a : Answers) (c : DomainClaim) → (fate now a c ≡ detach) ↔ MustGo now a c
unfolding fate
fate-MustGo now a c = (
  λ h. only h,
  λ g. ground (arith, g.is_verified, g.due, g.answered_no, g.nobody_vouches, g.window_over),
)
  where
    only : fate now a c ≡ detach → MustGo now a c
    only h = elim (Bool-cases (is_some c.verified_at)) [
      | inl v ↦ verified-MustGo now a c a.lookup v refl (ground (arith, v))
      | inr v ↦ absurd (pending_fate-detach now a c (ground (arith, v)))
    ]
