-- ===== src/Context/Rounds.antt =====
-- The rounds of the loop of `fit_token_budget`: what each keeps, and what holds at the end.
use git_slop.Base.{
  ℕ, zero, suc, ◌≡◌, refl, inl, inr, Bool, true, false, Option, none, some, List, [], ◌∷◌, leb,
  Bool-cases, Text, Result, ok, err, saturating_add, saturating_sub,
}
use git_slop.Context.Input.{Candidate, Excerpt, Input, refresh_truncation_summary}
use git_slop.Context.Compact.{
  compact_candidates, compact_input, compact_with, compact_single_candidate_details,
}
use git_slop.Context.Budget.{
  FitError, over_budget, unable_to_fit, Turn, again, stop, Shrunk, pop_last, shrink_last,
  provisional, after_shrink, after_pop, compact_or_fail, without_excerpts, drop_or_compact,
  cut_down, turn, fit_loop,
}

abbrev pub Ended : (Input → Type 0) → (FitError → Type 0) → Result FitError Input → Type 0
Ended R F (ok out) = R out
Ended R F (err e) = F e

abbrev pub Turned : (Bool → Input → Type 0) → (Input → Type 0) → (FitError → Type 0) → Turn → Type 0
Turned I R F (again compacted input) = I compacted input
Turned I R F (stop r) = Ended R F r

abbrev pub after : (Bool → Input → Result FitError Input) → Turn → Result FitError Input
after f (again compacted input) = f compacted input
after f (stop r) = r

-- What each turn keeps holds when the loop ends, or when its rounds are used up.
module _ (sha256 : Text → Text) (encode : Input → ℕ) (I : ℕ → Bool → Input → Type 0)
    (R : Input → Type 0) (F : FitError → Type 0) (maximum : ℕ)
    (used_up : (compacted : Bool) (input : Input) → I zero compacted input → F unable_to_fit)
    (step : (n : ℕ) (compacted : Bool) (input : Input)
      → I (suc n) compacted input
      → Turned (I n) R F (turn sha256 encode maximum compacted input)) where
  turned :
      (n : ℕ) (t : Turn) (f : Bool → Input → Result FitError Input)
      → ((compacted : Bool) (input : Input) → I n compacted input → Ended R F (f compacted input))
      → Turned (I n) R F t
      → Ended R F (after f t)
  turned n (again compacted input) f rest h = rest compacted input h
  turned n (stop r) f rest h = h

  pub fit_loop_rule :
      (n : ℕ) (compacted : Bool) (input : Input)
      → I n compacted input
      → Ended R F (fit_loop sha256 encode n maximum compacted input)
  unfolding fit_loop
  fit_loop_rule zero compacted input h = used_up compacted input h
  fit_loop_rule (suc n) compacted input h =
      turned n (turn sha256 encode maximum compacted input) (fit_loop sha256 encode n maximum)
        (λ c i. fit_loop_rule n c i) (step n compacted input h)

-- The five ends of a turn.
module _ (sha256 : Text → Text) (encode : Input → ℕ) (P : Bool → Input → Type 0)
    (R : Input → Type 0) (F : FitError → Type 0) (maximum : ℕ) (compacted : Bool) (input : Input)
    (fits : leb (saturating_add (encode (provisional sha256 encode input)) 16) maximum ≡ true
      → R (refresh_truncation_summary input))
    (shrunk : (excess : ℕ) (s : Shrunk)
      → shrink_last sha256 encode excess input.excerpts ≡ some s
      → P compacted (after_shrink sha256 encode s input))
    (popped : (e : Excerpt) (es : List Excerpt)
      → input.excerpts ≡ e ∷ es
      → P compacted (after_pop sha256 encode (pop_last e es) input))
    (details : (cs : List Candidate)
      → input.excerpts ≡ []
      → compacted ≡ false
      → P true (compact_input input cs))
    (over : (tokens : ℕ) → F (over_budget tokens)) where
  compact_Turned :
      (tokens : ℕ) (o : Option (List Candidate))
      → input.excerpts ≡ []
      → compacted ≡ false
      → Turned P R F (compact_or_fail sha256 encode tokens (compact_with input o))
  compact_Turned tokens none empty first = over (saturating_add tokens 16)
  compact_Turned tokens (some cs) empty first = details cs empty first

  without_Turned :
      (tokens : ℕ) (c : Bool)
      → compacted ≡ c
      → input.excerpts ≡ []
      → Turned P R F (without_excerpts sha256 encode tokens c input)
  unfolding without_excerpts compact_single_candidate_details
  without_Turned tokens true own empty = over (saturating_add tokens 16)
  without_Turned tokens false own empty =
      compact_Turned tokens (compact_candidates input.candidates) empty own

  drop_Turned :
      (tokens : ℕ) (es : List Excerpt)
      → input.excerpts ≡ es
      → Turned P R F (drop_or_compact sha256 encode tokens compacted es input)
  unfolding drop_or_compact
  drop_Turned tokens [] own = without_Turned tokens compacted refl own
  drop_Turned tokens (e ∷ es) own = popped e es own

  cut_Turned :
      (tokens excess : ℕ) (o : Option Shrunk)
      → shrink_last sha256 encode excess input.excerpts ≡ o
      → Turned P R F (cut_down sha256 encode tokens compacted input o)
  unfolding cut_down
  cut_Turned tokens excess (some s) own = shrunk excess s own
  cut_Turned tokens excess none own = drop_Turned tokens input.excerpts refl

  pub turn_rule : Turned P R F (turn sha256 encode maximum compacted input)
  unfolding turn
  turn_rule =
      let tokens = encode (provisional sha256 encode input) in
      elim (Bool-cases (leb (saturating_add tokens 16) maximum)) [
        | inl small ↦ rw small (fits small)
        | inr large ↦ rw large (
            cut_Turned tokens (saturating_sub tokens maximum)
              (shrink_last sha256 encode (saturating_sub tokens maximum) input.excerpts) refl)
      ]
