-- ===== src/Context/Budget.antt =====
-- src/advice/context/budget.rs: the input of the model is cut down until it fits its token budget.
-- The tokenizer over the printed input, and the digest, are arguments.
use git_slop.Base.{
  ℕ, zero, suc, max, Bool, true, false, Option, none, some, List, [], ◌∷◌, ◌++◌, ltb, leb,
  if◌then◌else◌, length, take, replicate, Text, codes, Result, ok, err, saturating_add,
  saturating_mul, saturating_sub, decimal, lines, byte_length,
}
use git_slop.Context.Input.{
  Excerpt, Input, budget_reason, truncate_utf8, push_missing_evidence, refresh_excerpt_index,
  refresh_truncation_summary,
}
use git_slop.Context.Compact.{compact_single_candidate_details}

pub data FitError : Type 0 where
  over_budget : ℕ → FitError
  unable_to_fit : FitError

-- What a round of the loop does: it goes on, or the loop ends.
pub data Turn : Type 0 where
  again : Bool → Input → Turn
  stop : Result FitError Input → Turn

-- The last excerpt of more than 512 bytes, cut down, with its bytes before and after.
pub record Shrunk : Type 0 where
  pub excerpts : List Excerpt
  pub previous : ℕ
  pub current : ℕ

abbrev pub reduced_target : ℕ → ℕ → ℕ
reduced_target excess previous =
    max (saturating_sub previous (max (saturating_mul excess 4) 256)) 512

unfoldable pub pop_last : Excerpt → List Excerpt → List Excerpt × Excerpt
pop_last e [] = ([], e)
pop_last e (f ∷ es) = let (front, back) = pop_last f es in (e ∷ front, back)

module _ (sha256 : Text → Text) (encode : Input → ℕ) where
  unfoldable pub refresh_excerpt : ℕ → Excerpt → Excerpt
  unfolding truncate_utf8
  refresh_excerpt maximum e =
      let returned = truncate_utf8 e.text maximum in
      record e {
        id =
            codes "excerpt-"
            ++ take 16
                (sha256 (e.path ++ 0 ∷ e.content_sha256 ++ 0 ∷ decimal (byte_length returned)));
        line_end = max (length (lines returned)) 1;
        excerpt_sha256 = sha256 returned;
        returned_bytes = byte_length returned;
        truncated = true;
        truncation_reason = some budget_reason;
        text = returned;
      }

  abbrev pub shrink_here : ℕ → Excerpt → List Excerpt → Option Shrunk
  shrink_here excess e es =
      let cut = refresh_excerpt (reduced_target excess e.returned_bytes) e in
      if ltb 512 e.returned_bytes
      then some (record {
        excerpts = cut ∷ es;
        previous = e.returned_bytes;
        current = cut.returned_bytes;
      })
      else none

  -- `iter_mut().rev().find(..)`: the later excerpts come first.
  unfoldable pub shrink_last : ℕ → List Excerpt → Option Shrunk
  unfolding refresh_excerpt
  shrink_last excess [] = none
  shrink_last excess (e ∷ es) = elim (shrink_last excess es) [
    | some s ↦ some (record s { excerpts = e ∷ s.excerpts })
    | none ↦ shrink_here excess e es
  ]

  abbrev pub provisional : Input → Input
  provisional input = record input {
    estimated_context_tokens = 0;
    context_digest = some (replicate 64 b'0');
  }

  abbrev pub after_shrink : Shrunk → Input → Input
  after_shrink s input = refresh_truncation_summary (
      refresh_excerpt_index (record input {
        excerpts = s.excerpts;
        remaining_bytes =
            saturating_add input.remaining_bytes (saturating_sub s.previous s.current);
      }))

  abbrev pub after_pop : List Excerpt × Excerpt → Input → Input
  after_pop (front, removed) input = refresh_truncation_summary (
      refresh_excerpt_index
        (push_missing_evidence removed.path budget_reason (record input { excerpts = front })))

  abbrev pub compact_or_fail : ℕ → Option Input → Turn
  compact_or_fail tokens none = stop (err (over_budget (saturating_add tokens 16)))
  compact_or_fail tokens (some input) = again true input

  unfoldable pub without_excerpts : ℕ → Bool → Input → Turn
  unfolding compact_single_candidate_details
  without_excerpts tokens true input = stop (err (over_budget (saturating_add tokens 16)))
  without_excerpts tokens false input =
      compact_or_fail tokens (compact_single_candidate_details input)

  unfoldable pub drop_or_compact : ℕ → Bool → List Excerpt → Input → Turn
  unfolding without_excerpts pop_last push_missing_evidence refresh_excerpt_index
      refresh_truncation_summary
  drop_or_compact tokens compacted [] input = without_excerpts tokens compacted input
  drop_or_compact tokens compacted (e ∷ es) input =
      again compacted (after_pop (pop_last e es) input)

  unfoldable pub cut_down : ℕ → Bool → Input → Option Shrunk → Turn
  unfolding drop_or_compact refresh_excerpt_index refresh_truncation_summary
  cut_down tokens compacted input (some s) = again compacted (after_shrink s input)
  cut_down tokens compacted input none = drop_or_compact tokens compacted input.excerpts input

  unfoldable pub turn : ℕ → Bool → Input → Turn
  unfolding shrink_last cut_down refresh_truncation_summary
  turn maximum compacted input =
      let tokens = encode (provisional input) in
      if leb (saturating_add tokens 16) maximum
      then stop (ok (refresh_truncation_summary input))
      else cut_down tokens compacted input
          (shrink_last (saturating_sub tokens maximum) input.excerpts)

  unfoldable pub fit_loop : ℕ → ℕ → Bool → Input → Result FitError Input
  unfolding turn
  fit_loop zero maximum compacted input = err unable_to_fit
  fit_loop (suc rounds) maximum compacted input = elim (turn maximum compacted input) [
    | again compacted' input' ↦ fit_loop rounds maximum compacted' input'
    | stop r ↦ r
  ]

  -- At most 256 rounds.
  unfoldable pub fit_token_budget : ℕ → Input → Result FitError Input
  unfolding fit_loop
  fit_token_budget maximum input = fit_loop 256 maximum false input
