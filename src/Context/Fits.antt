-- ===== src/Context/Fits.antt =====
-- What `fit_token_budget` returns is within the budget, and that its rounds are enough.
use git_slop.Base.{
  ℕ, suc, ◌+◌, ◌-◌, ◌/◌, ◌≤◌, ◌<◌, ◌≡◌, refl, sym, subst, ap, inl, inr, Bool, true, false, Option,
  none, some, List, [], ◌∷◌, map, arith, ltb, Bool-cases, Text, saturating_add, utf8_width,
  byte_length,
}
use git_slop.Context.Input.{
  Excerpt, Input, truncate_utf8, id_of, push_missing_evidence, refresh_excerpt_index,
  refresh_truncation_summary,
}
use git_slop.Context.Budget.{
  FitError, unable_to_fit, Shrunk, reduced_target, pop_last, refresh_excerpt, shrink_here,
  shrink_last, provisional, turn, fit_token_budget,
}
use git_slop.Context.Rounds.{Ended, Turned, fit_loop_rule, turn_rule}
use native.Mathlib.Decide.{dec_lt}

byte_length-truncate_utf8 : (s : Text) (m : ℕ) → byte_length (truncate_utf8 s m) ≤ m
unfolding byte_length truncate_utf8
byte_length-truncate_utf8 [] m = omega arith
byte_length-truncate_utf8 (c ∷ s) m = ground (arith, byte_length-truncate_utf8 s (m - utf8_width c))

-- How often an excerpt can be cut down or dropped: each cut takes 256 bytes or ends at 512.
abbrev pub rounds_of : Excerpt → ℕ
rounds_of e = (e.returned_bytes - 257) / 256 + 1

unfoldable pub rounds : List Excerpt → ℕ
rounds [] = 0
rounds (e ∷ es) = rounds_of e + rounds es

-- One more round may go to the details of the candidates.
abbrev left : Bool → ℕ
left true = 0
left false = 1

-- The summary and the index are those of the excerpts that are there.
pub record IsCurrent (input : Input) : Type 0 where
  pub summarized : refresh_truncation_summary input ≡ input
  pub indexed : input.excerpt_index ≡ map id_of input.excerpts

rounds-pop_last : (e : Excerpt) (es : List Excerpt) → rounds ((pop_last e es).0) < rounds (e ∷ es)
unfolding rounds pop_last
rounds-pop_last e [] = omega arith
rounds-pop_last e (f ∷ es) = omega (arith, rounds-pop_last f es)

module _ (sha256 : Text → Text) (encode : Input → ℕ) where
  cut_lem :
      (excess : ℕ) (e : Excerpt)
      → ltb 512 e.returned_bytes ≡ true
      → rounds_of (refresh_excerpt sha256 encode (reduced_target excess e.returned_bytes) e)
        < rounds_of e
  unfolding refresh_excerpt
  cut_lem excess e h =
      ground (arith, byte_length-truncate_utf8 e.text (reduced_target excess e.returned_bytes))

  abbrev Fewer : ℕ → Option Shrunk → Type 0
  Fewer n none = Unit
  Fewer n (some s) = rounds s.excerpts < n

  rounds-shrink_here :
      (excess : ℕ) (e : Excerpt) (es : List Excerpt)
      → Fewer (rounds (e ∷ es)) (shrink_here sha256 encode excess e es)
  unfolding rounds
  rounds-shrink_here excess e es = elim (Bool-cases (ltb 512 e.returned_bytes)) [
    | inl large ↦ rw large (omega (arith, cut_lem excess e large))
    | inr small ↦ rw small tt
  ]

  rounds-shrink_last :
      (excess : ℕ) (es : List Excerpt) → Fewer (rounds es) (shrink_last sha256 encode excess es)
  unfolding rounds shrink_last
  rounds-shrink_last excess [] = tt
  rounds-shrink_last excess (e ∷ es) =
      go (shrink_last sha256 encode excess es) (rounds-shrink_last excess es)
    where
      go :
          (o : Option Shrunk)
          → Fewer (rounds es) o
          → Fewer (rounds (e ∷ es)) (elim o [
            | some s ↦ some (record s { excerpts = e ∷ s.excerpts })
            | none ↦ shrink_here sha256 encode excess e es
          ])
      go (some s) h = omega arith
      go none h = rounds-shrink_here excess e es

  abbrev pub Fits : ℕ → Input → Type 0
  Fits maximum out =
      IsCurrent out × (saturating_add (encode (provisional sha256 encode out)) 16 ≤ maximum)

  abbrev pub Many : Input → FitError → Type 0
  Many input e = e ≡ unable_to_fit → 255 ≤ rounds input.excerpts

  abbrev Loop : Input → ℕ → Bool → Input → Type 0
  Loop input n compacted i =
      IsCurrent i × (rounds input.excerpts < 255 → rounds i.excerpts + left compacted < n)

  turn-Loop :
      (input : Input) (maximum n : ℕ) (compacted : Bool) (i : Input)
      → Loop input (suc n) compacted i
      → Turned (Loop input n) (Fits maximum) (Many input) (turn sha256 encode maximum compacted i)
  unfolding rounds push_missing_evidence refresh_truncation_summary refresh_excerpt_index
  turn-Loop input maximum n compacted i (current, fewer) =
      turn_rule sha256 encode (Loop input n) (Fits maximum) (Many input) maximum compacted i
        (λ small. subst (Fits maximum) (sym current.summarized) (current, ground arith))
        (λ excess s own. (
          record { summarized = refl; indexed = refl },
          λ few.
              let shrunk =
                subst (Fewer (rounds i.excerpts)) own (rounds-shrink_last excess i.excerpts) in
              omega (arith, fewer few),
        ))
        (λ e es own. (
          record { summarized = refl; indexed = refl },
          λ few. omega (arith, fewer few, rounds-pop_last e es, ap rounds own),
        ))
        (λ cs empty first. (
          record { summarized = refl; indexed = current.indexed },
          λ few. let some_left = rw first at (fewer few) in omega arith,
        ))
        (λ tokens e. cc)

  -- Where the input comes with its summary and its index, an input that is returned has them too,
  -- and its draft, in which the count of tokens is 0 and the digest is 64 zeros, is within the budget
  -- with 16 tokens to spare; it is the returned input that was measured. Where the excerpts take fewer than 255 rounds, counting one for each and one more for every 256 bytes
  -- that an excerpt has above 256, the rounds of the loop are enough.
  pub fit_token_budget-Fits :
      (maximum : ℕ) (input : Input)
      → IsCurrent input
      → Ended (Fits maximum) (Many input) (fit_token_budget sha256 encode maximum input)
  unfolding fit_token_budget
  fit_token_budget-Fits maximum input current =
      fit_loop_rule sha256 encode (Loop input) (Fits maximum) (Many input) maximum
        (λ c i (_, fewer) e. elim (dec_lt (rounds input.excerpts) 255) [
          | yes few ↦ absurd (omega (arith, fewer few))
          | no many ↦ omega arith
        ])
        (turn-Loop input maximum) 256 false input (current, λ few. omega arith)
