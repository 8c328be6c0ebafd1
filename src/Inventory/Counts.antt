-- ===== src/Inventory/Counts.antt =====
-- What the counts of a text say of it.
use git_slop.Base.{
  ℕ, ◌+◌, ◌≡◌, inl, inr, refl, Bool, true, false, not, List, [], ◌∷◌, arith, if◌then◌else◌, length,
  subst, sym, ap, ◌∙◌, Bool-cases, Text, is_empty, trim, lines,
}
use git_slop.Inventory.Lines.{
  Tally, is_line_comment, opens_block, closes_block, tally_blank, tally_comment, tally_code,
  tally_lines, LineCounts, no_lines, line_counts,
}
use git_slop.Inventory.Layout.{
  Layout, Lies, After, tests, tallies_blank, tallies_comment, tallies_code, full_inside,
  full_outside,
}

module _ (language : Text) where
  abbrev Rest : List Text → Type 0
  Rest rest =
      (u : Tally) (inside : Bool) → u.in_block_comment ≡ inside → After language inside rest u

  steps_inside :
      (line : Text) (rest : List Text) (t : Tally)
      → is_empty (trim line) ≡ false
      → t.in_block_comment ≡ true
      → Rest rest
      → After language true (line ∷ rest) t
  steps_inside line rest t full inside more =
      let same = full_inside language (trim line) t full inside in
      elim (Bool-cases (closes_block (trim line))) [
        | inl closes ↦
            tallies_comment language true false line rest t
              (same ∙ ap (λ b. tally_comment (not b) t) closes)
              (λ c m b l. Layout.block_end line full closes l)
              (more (tally_comment false t) false refl)
        | inr stays ↦
            tallies_comment language true true line rest t
              (same ∙ ap (λ b. tally_comment (not b) t) stays)
              (λ c m b l. Layout.block_body line full stays l)
              (more (tally_comment true t) true refl)
      ]

  steps_opening :
      (line : Text) (rest : List Text) (t : Tally)
      → is_empty (trim line) ≡ false
      → is_line_comment language (trim line) ≡ false
      → opens_block (trim line) ≡ true
      → tests language (trim line) t ≡ tally_comment (not (closes_block (trim line))) t
      → Rest rest
      → After language false (line ∷ rest) t
  steps_opening line rest t full no_comment opens same more =
      elim (Bool-cases (closes_block (trim line))) [
        | inl closes ↦
            tallies_comment language false false line rest t
              (same ∙ ap (λ b. tally_comment (not b) t) closes)
              (λ c m b l. Layout.block_line line full no_comment opens closes l)
              (more (tally_comment false t) false refl)
        | inr stays ↦
            tallies_comment language false true line rest t
              (same ∙ ap (λ b. tally_comment (not b) t) stays)
              (λ c m b l. Layout.block_start line full no_comment opens stays l)
              (more (tally_comment true t) true refl)
      ]

  steps_outside :
      (line : Text) (rest : List Text) (t : Tally)
      → is_empty (trim line) ≡ false
      → t.in_block_comment ≡ false
      → Rest rest
      → After language false (line ∷ rest) t
  steps_outside line rest t full outside more =
      let same = full_outside language (trim line) t full outside in
      let opening =
        if opens_block (trim line)
        then tally_comment (not (closes_block (trim line))) t
        else tally_code t in
      elim (Bool-cases (is_line_comment language (trim line))) [
        | inl comment ↦
            tallies_comment language false false line rest t
              (same ∙ ap (λ b. if b then tally_comment false t else opening) comment)
              (λ c m b l. Layout.comment_line line full comment l)
              (more (tally_comment false t) false refl)
        | inr no_comment ↦
            let same' = same ∙ ap (λ b. if b then tally_comment false t else opening) no_comment in
            elim (Bool-cases (opens_block (trim line))) [
              | inl opens ↦
                  steps_opening line rest t full no_comment opens
                    (same'
                      ∙ ap
                          (λ b.
                            if b
                            then tally_comment (not (closes_block (trim line))) t
                            else tally_code t)
                          opens)
                    more
              | inr no_block ↦
                  tallies_code language line rest t full no_comment no_block
                    (same'
                      ∙ ap
                          (λ b.
                            if b
                            then tally_comment (not (closes_block (trim line))) t
                            else tally_code t)
                          no_block)
                    (more (tally_code t) false outside)
            ]
      ]

  steps_line :
      (line : Text) (rest : List Text) (t : Tally) (inside : Bool)
      → t.in_block_comment ≡ inside
      → is_empty (trim line) ≡ false
      → Rest rest
      → After language inside (line ∷ rest) t
  steps_line line rest t true e full more = steps_inside line rest t full e more
  steps_line line rest t false e full more = steps_outside line rest t full e more

  tally_lines-Lies :
      (text : List Text) (t : Tally) (inside : Bool)
      → t.in_block_comment ≡ inside
      → Lies language inside text t (tally_lines language text t)
  unfolding tally_lines
  tally_lines-Lies [] t inside e = record {
    code = 0;
    comments = 0;
    blank = 0;
    layout = Layout.no_more;
    codes = omega arith;
    comments_all = omega arith;
    blanks = omega arith;
  }
  tally_lines-Lies (line ∷ rest) t inside e = elim (Bool-cases (is_empty (trim line))) [
    | inl empty ↦
        tallies_blank language inside line rest t empty
          (tally_lines-Lies rest (tally_blank t) inside e)
    | inr full ↦ steps_line line rest t inside e full (tally_lines-Lies rest)
  ]

-- How many lines are empty when trimmed.
unfoldable pub blank_lines : List Text → ℕ
blank_lines [] = 0
blank_lines (line ∷ rest) = (if is_empty (trim line) then 1 else 0) + blank_lines rest

Layout-sum :
    {language : Text} {inside : Bool} {text : List Text} {code comments blank : ℕ}
    → Layout language inside text code comments blank
    → code + comments + blank ≡ length text
Layout-sum Layout.no_more = omega arith
Layout-sum (Layout.blank_line line e more) = omega (arith, Layout-sum more)
Layout-sum (Layout.code_line line e f g more) = omega (arith, Layout-sum more)
Layout-sum (Layout.comment_line line e f more) = omega (arith, Layout-sum more)
Layout-sum (Layout.block_line line e f g h more) = omega (arith, Layout-sum more)
Layout-sum (Layout.block_start line e f g h more) = omega (arith, Layout-sum more)
Layout-sum (Layout.block_body line e f more) = omega (arith, Layout-sum more)
Layout-sum (Layout.block_end line e f more) = omega (arith, Layout-sum more)

Layout-blank_lines :
    {language : Text} {inside : Bool} {text : List Text} {code comments blank : ℕ}
    → Layout language inside text code comments blank
    → blank ≡ blank_lines text
unfolding blank_lines
Layout-blank_lines Layout.no_more = refl
Layout-blank_lines (Layout.blank_line line e more) = rw e (omega (arith, Layout-blank_lines more))
Layout-blank_lines (Layout.code_line line e f g more) =
    rw e (omega (arith, Layout-blank_lines more))
Layout-blank_lines (Layout.comment_line line e f more) =
    rw e (omega (arith, Layout-blank_lines more))
Layout-blank_lines (Layout.block_line line e f g h more) =
    rw e (omega (arith, Layout-blank_lines more))
Layout-blank_lines (Layout.block_start line e f g h more) =
    rw e (omega (arith, Layout-blank_lines more))
Layout-blank_lines (Layout.block_body line e f more) = rw e (omega (arith, Layout-blank_lines more))
Layout-blank_lines (Layout.block_end line e f more) = rw e (omega (arith, Layout-blank_lines more))

-- What the counts of a text say of it.
pub record IsCounted (language text : Text) (counts : LineCounts) : Type 0 where
  pub each_line : counts.total ≡ length (lines text)
  pub once : counts.code + counts.comments + counts.blank ≡ counts.total
  pub blank : counts.blank ≡ blank_lines (lines text)
  pub layout : Layout language false (lines text) counts.code counts.comments counts.blank

laid_out_text :
    (language text : Text) (counts : LineCounts)
    → counts.total ≡ length (lines text)
    → Layout language false (lines text) counts.code counts.comments counts.blank
    → IsCounted language text counts
laid_out_text language text counts each layout = record {
  each_line = each;
  once = Layout-sum layout ∙ sym each;
  blank = Layout-blank_lines layout;
  layout = layout;
}

-- Counting from nothing gives the counts of the layout.
counts_as_laid_out :
    (language : Text) (text : List Text) (out : Tally)
    → Lies language false text no_lines out
    → Layout language false text out.code out.comments out.blank
counts_as_laid_out language text out lies =
    let code : lies.code ≡ out.code = omega (arith, lies.codes) in
    let comments : lies.comments ≡ out.comments = omega (arith, lies.comments_all) in
    let blank : lies.blank ≡ out.blank = omega (arith, lies.blanks) in
    subst (λ n. Layout language false text n out.comments out.blank) code
      (subst (λ n. Layout language false text lies.code n out.blank) comments
        (subst (λ n. Layout language false text lies.code lies.comments n) blank lies.layout))

-- For every text and language, every line is counted once, as code, comment or blank, and the counts
-- are those of a layout of the lines: the blank ones are empty when trimmed, in a block comment or
-- not; from a line that begins a block comment, and does not end it, every line up to the one that
-- ends it is a comment unless it is blank; outside, a line that begins a comment is one, and any
-- other is code.
pub line_counts-IsCounted :
    (text language : Text) → IsCounted language text (line_counts text language)
unfolding line_counts lines
line_counts-IsCounted [] language =
    laid_out_text language [] (line_counts [] language) refl Layout.no_more
line_counts-IsCounted (c ∷ text) language =
    let lies = tally_lines-Lies language (lines (c ∷ text)) no_lines false refl in
    laid_out_text language (c ∷ text) (line_counts (c ∷ text) language) refl
      (counts_as_laid_out language (lines (c ∷ text)) _ lies)
