-- ===== src/Funnel.antt =====
-- internal/analytics/funnel.go: how far one visitor gets in a funnel on one day, and the counts of a
-- funnel. A time is in milliseconds and in the order of the day's records; shares are left out, since
-- they are floating-point quotients of the counts.
pub mod Merge
pub mod Chain
pub mod Counts
use sitebin_io.Base.{
  ℕ, zero, suc, ◌+◌, ◌-◌, ◌*◌, Bool, true, false, not, ◌&&◌, ◌||◌, List, [], ◌∷◌, ◌++◌, Option,
  none, some, if◌then◌else◌, ltb, leb, map,
}

-- `for j < len(prev) && prev[j] < t { j++ }`: the time before the pointer, and those from it on.
unfoldable pub advance : Option ℕ → List ℕ → ℕ → Option ℕ × List ℕ
advance last [] t = (last, [])
advance last (p ∷ ps) t = let on = advance (some p) ps t in if ltb p t then on else (last, p ∷ ps)

unfoldable pub within : ℕ → Option ℕ → ℕ → Bool
within window none t = false
within window (some p) t = leb (t - p) window

-- One pass over a step's times: those after a reachable time of the step before, by at most the
-- window.
unfoldable pub merge : ℕ → Option ℕ → List ℕ → List ℕ → List ℕ
unfolding within
merge window last rest [] = []
merge window last rest (t ∷ ts) =
    let (last', rest') = advance last rest t in
    let later = merge window last' rest' ts in if within window last' t then t ∷ later else later

-- The early return where no time of a step is reachable.
abbrev pub unless_empty : List ℕ → ℕ → ℕ → ℕ
unless_empty [] k further = k
unless_empty (t ∷ ts) k further = further

unfoldable pub reached_from : ℕ → ℕ → List ℕ → List (List ℕ) → ℕ
unfolding merge
reached_from window k prev [] = k
reached_from window k prev (cur ∷ more) =
    let now = merge window none prev cur in
    let further = reached_from window (k + 1) now more in unless_empty now k further

-- `reached`: the number of steps, from the matching times of each step.
unfoldable pub reached : ℕ → List (List ℕ) → ℕ
unfolding reached_from
reached window [] = 0
reached window ([] ∷ more) = 0
reached window ((t ∷ ts) ∷ more) = reached_from window 1 (t ∷ ts) more

-- `for k := range a.reached() { a.visitors[k]++ }`.
unfoldable pub count_steps : ℕ → List ℕ → List ℕ
count_steps n [] = []
count_steps zero (v ∷ vs) = v ∷ vs
count_steps (suc n) (v ∷ vs) = (v + 1) ∷ count_steps n vs

-- `add`, over the visitor-days of a day: the times per step of each.
unfoldable pub add_visitors : ℕ → List (List (List ℕ)) → List ℕ → List ℕ
unfolding reached count_steps
add_visitors window [] visitors = visitors
add_visitors window (times ∷ more) visitors =
    add_visitors window more (count_steps (reached window times) visitors)

pub record StepResult : Type 0 where
  pub visitors : ℕ
  pub drop_off : ℕ

-- `result`: the loop, from the step before. The difference is not negative for the counts of `add`.
unfoldable pub results_from : ℕ → List ℕ → List StepResult
results_from before [] = []
results_from before (n ∷ ns) = record { visitors = n; drop_off = before - n } ∷ results_from n ns

unfoldable pub funnel_results : List ℕ → List StepResult
unfolding results_from
funnel_results [] = []
funnel_results (n ∷ ns) = record { visitors = n; drop_off = 0 } ∷ results_from n ns
