-- ===== src/Examples/Context.antt =====
-- Two excerpts, of which the second is cut down, and then dropped for a smaller budget.
use git_slop.Base.{
  ℕ, ◌+◌, ◌/◌, ◌≡◌, refl, false, none, List, [], ◌∷◌, Text, codes, replicate, Result, ok, err,
  lines, byte_length, text_eq, text_lt, insert_key, strip_return, saturating_add, saturating_mul,
}
use git_slop.Context.Input.{
  Excerpt, Missing, Input, Truncation, refresh_truncation_summary, truncate_utf8,
}
use git_slop.Context.Budget.{FitError, fit_token_budget, pop_last}
use git_slop.Context.Rounds.{Ended}
use git_slop.Context.Fits.{IsCurrent, Fits, Many, fit_token_budget-Fits}
use git_slop.Context.Traced.{Traced, fit_token_budget-Traced}

abbrev sha256 : Text → Text
sha256 t = replicate 64 b'e'

abbrev bytes_of : List Excerpt → ℕ
bytes_of [] = 0
bytes_of (e ∷ es) = e.returned_bytes + bytes_of es

-- A token for every four bytes of the excerpts, and a hundred for the rest.
abbrev encode : Input → ℕ
encode input = bytes_of input.excerpts / 4 + 100

abbrev excerpt_of : Text → ℕ → Excerpt
excerpt_of path size = record {
  id = path;
  path = path;
  line_end = 1;
  content_sha256 = replicate 64 b'c';
  excerpt_sha256 = replicate 64 b'c';
  original_bytes = size;
  returned_bytes = size;
  truncated = false;
  truncation_reason = none;
  text = replicate size b'x';
}

abbrev nothing_cut : Truncation
nothing_cut = record {
  occurred = false;
  reasons = [];
  excerpt_count = 0;
  omitted_count = 0;
  candidate_details_compacted = false;
  excerpts = [];
  omissions = [];
}

abbrev input : Input
input = record {
  candidates = [];
  excerpts = excerpt_of (codes "a") 400 ∷ excerpt_of (codes "b") 800 ∷ [];
  excerpt_index = codes "a" ∷ codes "b" ∷ [];
  missing_evidence = [];
  remaining_bytes = 1000;
  limits_truncated = false;
  truncation = nothing_cut;
  estimated_context_tokens = 0;
  context_digest = none;
}

abbrev left_of : Result FitError Input → List ℕ × List Missing × ℕ
left_of (err e) = ([], [], 0)
left_of (ok out) = (sizes out.excerpts, out.missing_evidence, out.remaining_bytes)
  where
    sizes : List Excerpt → List ℕ
    sizes [] = []
    sizes (e ∷ es) = e.returned_bytes ∷ sizes es

second_is_cut : left_of (fit_token_budget sha256 encode 365 input) ≡ (400 ∷ 544 ∷ [], [], 1256)
unfolding fit_token_budget truncate_utf8 lines strip_return byte_length text_eq text_lt insert_key
    pop_last saturating_add saturating_mul
second_is_cut = refl

second_is_dropped :
    left_of (fit_token_budget sha256 encode 300 input)
    ≡ (400 ∷ [], record { path = codes "b"; reason = codes "context_token_budget" } ∷ [], 1288)
unfolding fit_token_budget truncate_utf8 lines strip_return byte_length text_eq text_lt insert_key
    pop_last saturating_add saturating_mul
second_is_dropped = refl

input-IsCurrent : IsCurrent input
unfolding refresh_truncation_summary
input-IsCurrent = record { summarized = refl; indexed = refl }

fit_token_budget-Fits_example :
    Ended
      (Fits sha256 encode 300)
      (Many sha256 encode input)
      (fit_token_budget sha256 encode 300 input)
fit_token_budget-Fits_example = fit_token_budget-Fits sha256 encode 300 input input-IsCurrent

fit_token_budget-Traced_example :
    Ended (Traced sha256 encode input) (λ e. Unit) (fit_token_budget sha256 encode 300 input)
fit_token_budget-Traced_example = fit_token_budget-Traced sha256 encode 300 input
