-- ===== src/Tests/Counts.antt =====
-- Funnels on small days.
use sitebin_io.Base.{◌≡◌, ◌↔◌, ℕ, ◌≤◌, refl, List, [], ◌∷◌, take, arith}
use sitebin_io.Funnel.{merge, reached, add_visitors, funnel_results}
use sitebin_io.Funnel.Chain.{Chain, reached_iff}

abbrev times : List (List ℕ)
times = (1 ∷ 50 ∷ []) ∷ (20 ∷ 55 ∷ []) ∷ (58 ∷ []) ∷ []

-- The chain 50, 55, 58 goes on where the one from 1 ends.
reaches_all : reached 10 times ≡ 3
unfolding reached sitebin_io.Funnel.advance
reaches_all = refl

reached_iff_example : (3 ≤ reached 10 times) ↔ Chain 10 (take 3 times)
reached_iff_example =
    reached_iff 10 2 times
      (((omega arith, tt), (tt, tt)), (((omega arith, tt), (tt, tt)), ((tt, tt), tt))) (omega arith)
