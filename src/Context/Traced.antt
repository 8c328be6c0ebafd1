-- ===== src/Context/Traced.antt =====
-- No evidence goes silently: what `fit_token_budget` cuts is marked, and what it drops is listed.
use mathlib.Core.List.{append_assoc}
use git_slop.Base.{
  ℕ, ◌-◌, ◌≡◌, ◌⊎◌, refl, sym, subst, ap, ◌∙◌, inl, inr, Bool, true, false, Option, none, some,
  List, [], ◌∷◌, ◌++◌, ltb, leb, any, any-append, Bool-cases, Text, text_eq_refl, codes, utf8_width,
  byte_length,
}
use git_slop.Context.Input.{
  Excerpt, Missing, Input, budget_reason, truncate_utf8, same_missing, add_missing,
  push_missing_evidence, refresh_excerpt_index, refresh_truncation_summary,
}
use git_slop.Context.Budget.{
  Shrunk, reduced_target, pop_last, refresh_excerpt, shrink_here, shrink_last, after_shrink,
  after_pop, turn, fit_token_budget,
}
use git_slop.Context.Rounds.{Ended, Turned, fit_loop_rule, turn_rule}

-- An excerpt that was cut: a beginning of the text, marked as such.
pub record IsCutOf (o e : Excerpt) : Type 0 where
  pub path : e.path ≡ o.path
  pub content : e.content_sha256 ≡ o.content_sha256
  pub original : e.original_bytes ≡ o.original_bytes
  pub marked : e.truncated ≡ true
  pub reason : e.truncation_reason ≡ some budget_reason
  pub counted : e.returned_bytes ≡ byte_length e.text
  pub rest : Text
  pub beginning : o.text ≡ e.text ++ rest

abbrev pub Kept : Excerpt → Excerpt → Type 0
Kept o e = (e ≡ o) ⊎ IsCutOf o e

abbrev pub is_listed : Text → List Missing → Bool
is_listed path missing = any (same_missing path budget_reason) missing

-- The excerpts are those of the original in order, kept or cut, and behind them all are listed.
abbrev pub Covers : List Excerpt → List Excerpt → List Missing → Type 0
Covers [] [] missing = Unit
Covers [] (e ∷ es) missing = ⊥
Covers (o ∷ os) [] missing = (is_listed o.path missing ≡ true) × Covers os [] missing
Covers (o ∷ os) (e ∷ es) missing = Kept o e × Covers os es missing

Kept-path : (o e : Excerpt) → Kept o e → e.path ≡ o.path
Kept-path o e (inl same) = ap (λ (x : Excerpt). x.path) same
Kept-path o e (inr cut) = cut.path

truncate_utf8-beginning : (s : Text) (m : ℕ) → (rest : Text) × (s ≡ truncate_utf8 s m ++ rest)
unfolding truncate_utf8
truncate_utf8-beginning [] m = ([], refl)
truncate_utf8-beginning (c ∷ s) m =
    let (rest, e) = truncate_utf8-beginning s (m - utf8_width c) in
    elim (Bool-cases (leb (utf8_width c) m)) [
      | inl fits ↦ rw fits (rest, ap (λ t. c ∷ t) e)
      | inr cut ↦ rw cut (c ∷ s, refl)
    ]

Covers-refl : (os : List Excerpt) (missing : List Missing) → Covers os os missing
Covers-refl [] missing = tt
Covers-refl (o ∷ os) missing = (inl refl, Covers-refl os missing)

Covers-more :
    (os es : List Excerpt) (old new : List Missing)
    → ((path : Text) → is_listed path old ≡ true → is_listed path new ≡ true)
    → Covers os es old
    → Covers os es new
Covers-more [] [] old new more h = tt
Covers-more [] (e ∷ es) old new more h = h
Covers-more (o ∷ os) [] old new more (listed, h) =
    (more o.path listed, Covers-more os [] old new more h)
Covers-more (o ∷ os) (e ∷ es) old new more (kept, h) = (kept, Covers-more os es old new more h)

any-add_missing :
    (p : Missing → Bool) (path reason : Text) (missing : List Missing)
    → any p missing ≡ true
    → any p (add_missing path reason missing) ≡ true
unfolding add_missing
any-add_missing p path reason missing h =
    elim (Bool-cases (any (same_missing path reason) missing)) [
      | inl had ↦ rw had h
      | inr new ↦
          rw new (any-append p missing (record { path = path; reason = reason } ∷ []) ∙ rw h refl)
    ]

-- What is listed is there afterwards.
add_missing_lem :
    (path : Text) (missing : List Missing)
    → is_listed path (add_missing path budget_reason missing) ≡ true
unfolding add_missing
add_missing_lem path missing = elim (Bool-cases (is_listed path missing)) [
  | inl had ↦ rw had had
  | inr new ↦ rw new (
      any-append (same_missing path budget_reason) missing
        (record { path = path; reason = budget_reason } ∷ [])
      ∙ rw (new, text_eq_refl path, text_eq_refl budget_reason) refl)
]

Covers-pop_last :
    (os : List Excerpt) (e : Excerpt) (es : List Excerpt) (missing : List Missing)
    → Covers os (e ∷ es) missing
    → let (front, back) = pop_last e es in
      Covers os front (add_missing back.path budget_reason missing)
unfolding pop_last
Covers-pop_last [] e es missing h = absurd h
Covers-pop_last (o ∷ os) e [] missing (kept, h) = (
  subst (λ p. is_listed p (add_missing e.path budget_reason missing) ≡ true) (Kept-path o e kept)
      (add_missing_lem e.path missing),
  Covers-more os [] missing (add_missing e.path budget_reason missing)
      (λ path. any-add_missing (same_missing path budget_reason) e.path budget_reason missing) h,
)
Covers-pop_last (o ∷ os) e (f ∷ es) missing (kept, h) = (kept, Covers-pop_last os f es missing h)

module _ (sha256 : Text → Text) (encode : Input → ℕ) where
  refresh_excerpt-Kept :
      (o e : Excerpt) (m : ℕ) → Kept o e → Kept o (refresh_excerpt sha256 encode m e)
  unfolding refresh_excerpt
  refresh_excerpt-Kept o e m (inl same) =
      let (rest, parts) = truncate_utf8-beginning e.text m in
      inr (record {
        path = ap (λ (x : Excerpt). x.path) same;
        content = ap (λ (x : Excerpt). x.content_sha256) same;
        original = ap (λ (x : Excerpt). x.original_bytes) same;
        marked = refl;
        reason = refl;
        counted = refl;
        rest = rest;
        beginning = sym (ap (λ (x : Excerpt). x.text) same) ∙ parts;
      })
  refresh_excerpt-Kept o e m (inr cut) =
      let (rest, parts) = truncate_utf8-beginning e.text m in
      inr (record {
        path = cut.path;
        content = cut.content;
        original = cut.original;
        marked = refl;
        reason = refl;
        counted = refl;
        rest = rest ++ cut.rest;
        beginning =
            cut.beginning
            ∙ ap (λ t. t ++ cut.rest) parts
            ∙ append_assoc (truncate_utf8 e.text m) rest cut.rest;
      })

  abbrev Shorter : List Excerpt → List Missing → Option Shrunk → Type 0
  Shorter os missing none = Unit
  Shorter os missing (some s) = Covers os s.excerpts missing

  Covers-shrink_here :
      (excess : ℕ) (o e : Excerpt) (os es : List Excerpt) (missing : List Missing)
      → Kept o e
      → Covers os es missing
      → Shorter (o ∷ os) missing (shrink_here sha256 encode excess e es)
  Covers-shrink_here excess o e os es missing kept h =
      elim (Bool-cases (ltb 512 e.returned_bytes)) [
        | inl large ↦
            rw large (refresh_excerpt-Kept o e (reduced_target excess e.returned_bytes) kept, h)
        | inr small ↦ rw small tt
      ]

  Covers-shrink_last :
      (excess : ℕ) (os es : List Excerpt) (missing : List Missing)
      → Covers os es missing
      → Shorter os missing (shrink_last sha256 encode excess es)
  unfolding shrink_last
  Covers-shrink_last excess os [] missing h = tt
  Covers-shrink_last excess [] (e ∷ es) missing h = absurd h
  Covers-shrink_last excess (o ∷ os) (e ∷ es) missing (kept, h) =
      go (shrink_last sha256 encode excess es) (Covers-shrink_last excess os es missing h)
    where
      go :
          (s : Option Shrunk)
          → Shorter os missing s
          → Shorter (o ∷ os) missing (elim s [
            | some s' ↦ some (record s' { excerpts = e ∷ s'.excerpts })
            | none ↦ shrink_here sha256 encode excess e es
          ])
      go (some s') covered = (kept, covered)
      go none covered = Covers-shrink_here excess o e os es missing kept h

  -- The candidates have their details, or the input is marked as compacted and lists that the
  -- candidates' context is missing.
  abbrev pub Detailed : Input → Input → Type 0
  Detailed input out =
      (out.candidates ≡ input.candidates)
      ⊎ ((out.truncation.candidate_details_compacted ≡ true)
          × (is_listed (codes "candidate-context") out.missing_evidence ≡ true))

  Detailed-kept :
      (input i out : Input)
      → out.candidates ≡ i.candidates
      → out.truncation.candidate_details_compacted ≡ i.truncation.candidate_details_compacted
      → ((p : Missing → Bool) → any p i.missing_evidence ≡ true → any p out.missing_evidence ≡ true)
      → Detailed input i
      → Detailed input out
  Detailed-kept input i out same flag more (inl kept) = inl (same ∙ kept)
  Detailed-kept input i out same flag more (inr (marked, listed)) =
      inr (flag ∙ marked, more (same_missing (codes "candidate-context") budget_reason) listed)

  -- The excerpts are covered, what was missing before is still listed, and so are details.
  abbrev pub Traced : Input → Input → Type 0
  Traced input out =
      Covers input.excerpts out.excerpts out.missing_evidence
      × ((p : Missing → Bool)
          → any p input.missing_evidence ≡ true
          → any p out.missing_evidence ≡ true)
      × Detailed input out

  turn-Traced :
      (input : Input) (maximum : ℕ) (compacted : Bool) (i : Input)
      → Traced input i
      → Turned
          (λ c. Traced input)
          (Traced input)
          (λ e. Unit)
          (turn sha256 encode maximum compacted i)
  unfolding push_missing_evidence refresh_truncation_summary refresh_excerpt_index
  turn-Traced input maximum compacted i (covered, more, detailed) =
      turn_rule sha256 encode (λ c. Traced input) (Traced input) (λ e. Unit) maximum compacted i
        (λ small. (covered, more, detailed))
        (λ excess s own. (
          subst (Shorter input.excerpts i.missing_evidence) own
              (Covers-shrink_last excess input.excerpts i.excerpts i.missing_evidence covered),
          more,
          Detailed-kept input i (after_shrink sha256 encode s i) refl refl (λ p h. h) detailed,
        ))
        (λ e es own. (
          Covers-pop_last input.excerpts e es i.missing_evidence
              (subst (λ l. Covers input.excerpts l i.missing_evidence) own covered),
          (λ p h.
              any-add_missing p ((pop_last e es).1.path) budget_reason i.missing_evidence
                (more p h)),
          Detailed-kept input i (after_pop sha256 encode (pop_last e es) i) refl refl
              (λ p h. any-add_missing p ((pop_last e es).1.path) budget_reason i.missing_evidence h)
              detailed,
        ))
        (λ cs empty first. (
          Covers-more input.excerpts i.excerpts i.missing_evidence _
              (λ path.
                any-add_missing (same_missing path budget_reason) (codes "candidate-context")
                  budget_reason i.missing_evidence)
              covered,
          (λ p h.
              any-add_missing p (codes "candidate-context") budget_reason i.missing_evidence
                (more p h)),
          inr (refl, add_missing_lem (codes "candidate-context") i.missing_evidence),
        ))
        (λ tokens. tt)

  -- An input that is returned has excerpts of the given one, in order from the first: each is the
  -- given excerpt, or a beginning of its text that is marked as cut for the budget, with its bytes
  -- counted, of the same path and content. Every other excerpt's path is listed as missing for the
  -- budget, and what was listed before still is. The candidates are the given ones, or the input is
  -- marked as compacted and lists their context as missing for the budget.
  pub fit_token_budget-Traced :
      (maximum : ℕ) (input : Input)
      → Ended (Traced input) (λ e. Unit) (fit_token_budget sha256 encode maximum input)
  unfolding fit_token_budget
  fit_token_budget-Traced maximum input =
      fit_loop_rule sha256 encode (λ n c. Traced input) (Traced input) (λ e. Unit) maximum
        (λ c i h. tt) (λ n. turn-Traced input maximum) 256 false input
        (Covers-refl input.excerpts input.missing_evidence, λ p h. h, inl refl)
