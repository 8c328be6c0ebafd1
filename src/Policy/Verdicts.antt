-- ===== src/Policy/Verdicts.antt =====
-- The order of verdicts and `aggregate_verdict`.
use git_slop.Base.{
  ◌≤◌, ◌≡◌, refl, ◌⊎◌, Bool, true, false, any, if◌then◌else◌, inl, inr, some, List, [], ◌∷◌, arith,
  leb, All, Bool-cases, ap, sym, subst, ◌∙◌,
}
use git_slop.Policy.Model.{Verdict, rank, max_by_rank, or_abstain, aggregate_verdict}

-- The verdict is one of the list.
abbrev pub IsOneOf : Verdict → List Verdict → Type 0
IsOneOf v [] = ⊥
IsOneOf v (w ∷ ws) = (w ≡ v) ⊎ IsOneOf v ws

before_or_here :
    {best v w : Verdict} (ws : List Verdict)
    → (best ≡ v) ⊎ IsOneOf v ws
    → (best ≡ v) ⊎ IsOneOf v (w ∷ ws)
before_or_here ws (inl here) = inl here
before_or_here ws (inr later) = inr (inr later)

max_by_rank-max :
    (best : Verdict) (vs : List Verdict)
    → (v : Verdict) × (max_by_rank (some best) vs ≡ some v)
      × ((best ≡ v) ⊎ IsOneOf v vs)
      × (rank best ≤ rank v)
      × All (λ w. rank w ≤ rank v) vs
unfolding max_by_rank
max_by_rank-max best [] = (best, refl, inl refl, omega arith, tt)
max_by_rank-max best (w ∷ ws) = elim (Bool-cases (leb (rank best) (rank w))) [
  | inl up ↦
      let (v, e, from, le, all) = max_by_rank-max w ws in
      (v, rw up e, inr from, ground arith, (le, all))
  | inr down ↦
      let (v, e, from, le, all) = max_by_rank-max best ws in
      (v, rw down e, before_or_here ws from, le, (ground arith, all))
]

-- The aggregate of a list that is not empty is one of its verdicts, and none of them has a higher
-- rank; of the empty list it is to abstain.
pub aggregate_verdict-strictest :
    (v : Verdict) (vs : List Verdict)
    → IsOneOf (aggregate_verdict (v ∷ vs)) (v ∷ vs)
      × All (λ w. rank w ≤ rank (aggregate_verdict (v ∷ vs))) (v ∷ vs)
      × (aggregate_verdict [] ≡ Verdict.abstain)
unfolding aggregate_verdict
aggregate_verdict-strictest v vs =
    let (best, e, from, le, all) = max_by_rank-max v vs in
    let is_best = ap or_abstain e in
    (
      subst (λ b. IsOneOf b (v ∷ vs)) (sym is_best) from,
      subst (λ b. All (λ w. rank w ≤ rank b) (v ∷ vs)) (sym is_best) (le, all),
      refl,
    )

abbrev pub rejects : Verdict → Bool
rejects Verdict.reject = true
rejects _ = false

abbrev pub revises : Verdict → Bool
revises Verdict.revise = true
revises _ = false

abbrev pub abstains : Verdict → Bool
abstains Verdict.abstain = true
abstains _ = false

-- The documented order, strictest first: reject, revise, abstain, approve.
abbrev pub documented_verdict : List Verdict → Verdict
documented_verdict [] = Verdict.abstain
documented_verdict (v ∷ vs) =
    if any rejects (v ∷ vs)
    then Verdict.reject
    else if any revises (v ∷ vs)
    then Verdict.revise
    else if any abstains (v ∷ vs)
    then Verdict.abstain
    else Verdict.approve

documented_of_two :
    (v w : Verdict) (vs : List Verdict)
    → documented_verdict (v ∷ w ∷ vs)
      ≡ documented_verdict ((if leb (rank v) (rank w) then w else v) ∷ vs)
unfolding rank
documented_of_two Verdict.approve w vs = ground arith
documented_of_two Verdict.abstain w vs = ground arith
documented_of_two Verdict.revise w vs = ground arith
documented_of_two Verdict.reject w vs = ground arith

max_by_rank_lem :
    (v : Verdict) (vs : List Verdict)
    → or_abstain (max_by_rank (some v) vs) ≡ documented_verdict (v ∷ vs)
unfolding max_by_rank
max_by_rank_lem Verdict.approve [] = refl
max_by_rank_lem Verdict.abstain [] = refl
max_by_rank_lem Verdict.revise [] = refl
max_by_rank_lem Verdict.reject [] = refl
max_by_rank_lem v (w ∷ vs) =
    max_by_rank_lem (if leb (rank v) (rank w) then w else v) vs ∙ sym (documented_of_two v w vs)

-- The aggregate of any verdicts is to reject if one of them rejects, else to revise if one of them
-- revises, else to abstain if one of them abstains or there is none, else to approve.
pub aggregate_verdict-documented_verdict :
    (vs : List Verdict) → aggregate_verdict vs ≡ documented_verdict vs
unfolding aggregate_verdict
aggregate_verdict-documented_verdict [] = refl
aggregate_verdict-documented_verdict (v ∷ vs) = max_by_rank_lem v vs
