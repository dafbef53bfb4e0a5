-- ===== src/Funnel/Counts.antt =====
-- The counts of a funnel fall from step to step, so that each drop-off is a true difference.
use sitebin_io.Base.{ℕ, zero, suc, ◌+◌, ◌≤◌, ◌≡◌, refl, List, [], ◌∷◌, arith}
use sitebin_io.Funnel.{reached, count_steps, add_visitors, StepResult, results_from, funnel_results}

abbrev pub Falling : ℕ → List ℕ → Type 0
Falling b [] = Unit
Falling b (v ∷ vs) = (v ≤ b) × Falling v vs

abbrev pub IsFalling : List ℕ → Type 0
IsFalling [] = Unit
IsFalling (v ∷ vs) = Falling v vs

Falling-more : (b : ℕ) (vs : List ℕ) → Falling b vs → Falling (b + 1) vs
Falling-more b [] h = tt
Falling-more b (v ∷ vs) (le, h) = (omega arith, h)

count_steps-Falling : (n b : ℕ) (vs : List ℕ) → Falling b vs → Falling (b + 1) (count_steps n vs)
unfolding count_steps
count_steps-Falling n b [] h = tt
count_steps-Falling zero b (v ∷ vs) (le, h) = (omega arith, h)
count_steps-Falling (suc n) b (v ∷ vs) (le, h) = (omega arith, count_steps-Falling n v vs h)

count_steps-IsFalling : (n : ℕ) (vs : List ℕ) → IsFalling vs → IsFalling (count_steps n vs)
unfolding count_steps
count_steps-IsFalling n [] h = tt
count_steps-IsFalling zero (v ∷ vs) h = h
count_steps-IsFalling (suc n) (v ∷ vs) h = count_steps-Falling n v vs h

add_visitors-IsFalling :
    (window : ℕ) (days : List (List (List ℕ))) (vs : List ℕ)
    → IsFalling vs
    → IsFalling (add_visitors window days vs)
unfolding add_visitors
add_visitors-IsFalling window [] vs h = h
add_visitors-IsFalling window (times ∷ more) vs h =
    add_visitors-IsFalling window more _ (count_steps-IsFalling (reached window times) vs h)

-- Each result's drop-off and visitors make up the visitors of the step before.
abbrev pub AddsUp : ℕ → List StepResult → Type 0
AddsUp before [] = Unit
AddsUp before (r ∷ rs) = (r.visitors + r.drop_off ≡ before) × AddsUp r.visitors rs

abbrev pub StepsAddUp : List StepResult → Type 0
StepsAddUp [] = Unit
StepsAddUp (r ∷ rs) = (r.drop_off ≡ 0) × AddsUp r.visitors rs

results_from-AddsUp : (b : ℕ) (vs : List ℕ) → Falling b vs → AddsUp b (results_from b vs)
unfolding results_from
results_from-AddsUp b [] h = tt
results_from-AddsUp b (v ∷ vs) (le, h) = (omega arith, results_from-AddsUp v vs h)

funnel_results-StepsAddUp : (vs : List ℕ) → IsFalling vs → StepsAddUp (funnel_results vs)
unfolding funnel_results
funnel_results-StepsAddUp [] h = tt
funnel_results-StepsAddUp (v ∷ vs) h = (refl, results_from-AddsUp v vs h)

-- Whatever days were counted onto counts that fall from step to step, such as the zeros that a funnel
-- starts with, the results add up: a step's visitors and drop-off are the visitors of the step
-- before, and the first step has no drop-off.
funnel_results_add_up :
    (window : ℕ) (days : List (List (List ℕ))) (vs : List ℕ)
    → IsFalling vs
    → StepsAddUp (funnel_results (add_visitors window days vs))
funnel_results_add_up window days vs h =
    funnel_results-StepsAddUp _ (add_visitors-IsFalling window days vs h)
