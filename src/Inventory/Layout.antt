-- ===== src/Inventory/Layout.antt =====
-- How the lines of a text lie: blank lines, code, comments and blocks of comments.
use git_slop.Base.{
  ℕ, suc, ◌+◌, ◌≡◌, Bool, true, false, not, List, [], ◌∷◌, arith, if◌then◌else◌, subst, sym, ap,
  ◌∙◌, Text, is_empty, trim,
}
use git_slop.Inventory.Lines.{
  Tally, is_line_comment, opens_block, closes_block, tally_by, tally_blank, tally_comment,
  tally_code, tally_line, tally_lines,
}

-- The lines of a text, from inside a block comment or not, with how many of them are code, comments
-- and blank. A block comment that does not end in its own line goes to a line with its end, or to
-- the end of the text; in it, every line that is not blank is a comment.
pub data Layout (language : Text) : Bool → List Text → ℕ → ℕ → ℕ → Type 0 where
  no_more : {inside : Bool} → Layout language inside [] 0 0 0
  blank_line :
      {inside : Bool} {rest : List Text} {code comments blank : ℕ} (line : Text)
      → is_empty (trim line) ≡ true
      → Layout language inside rest code comments blank
      → Layout language inside (line ∷ rest) code comments (suc blank)
  code_line :
      {rest : List Text} {code comments blank : ℕ} (line : Text)
      → is_empty (trim line) ≡ false
      → is_line_comment language (trim line) ≡ false
      → opens_block (trim line) ≡ false
      → Layout language false rest code comments blank
      → Layout language false (line ∷ rest) (suc code) comments blank
  comment_line :
      {rest : List Text} {code comments blank : ℕ} (line : Text)
      → is_empty (trim line) ≡ false
      → is_line_comment language (trim line) ≡ true
      → Layout language false rest code comments blank
      → Layout language false (line ∷ rest) code (suc comments) blank
  block_line :
      {rest : List Text} {code comments blank : ℕ} (line : Text)
      → is_empty (trim line) ≡ false
      → is_line_comment language (trim line) ≡ false
      → opens_block (trim line) ≡ true
      → closes_block (trim line) ≡ true
      → Layout language false rest code comments blank
      → Layout language false (line ∷ rest) code (suc comments) blank
  block_start :
      {rest : List Text} {code comments blank : ℕ} (line : Text)
      → is_empty (trim line) ≡ false
      → is_line_comment language (trim line) ≡ false
      → opens_block (trim line) ≡ true
      → closes_block (trim line) ≡ false
      → Layout language true rest code comments blank
      → Layout language false (line ∷ rest) code (suc comments) blank
  block_body :
      {rest : List Text} {code comments blank : ℕ} (line : Text)
      → is_empty (trim line) ≡ false
      → closes_block (trim line) ≡ false
      → Layout language true rest code comments blank
      → Layout language true (line ∷ rest) code (suc comments) blank
  block_end :
      {rest : List Text} {code comments blank : ℕ} (line : Text)
      → is_empty (trim line) ≡ false
      → closes_block (trim line) ≡ true
      → Layout language false rest code comments blank
      → Layout language true (line ∷ rest) code (suc comments) blank

-- The lines lie so that the tally grows by what they are.
pub record Lies (language : Text) (inside : Bool) (text : List Text) (t out : Tally) : Type 0 where
  pub code : ℕ
  pub comments : ℕ
  pub blank : ℕ
  pub layout : Layout language inside text code comments blank
  pub codes : out.code ≡ t.code + code
  pub comments_all : out.comments ≡ t.comments + comments
  pub blanks : out.blank ≡ t.blank + blank

-- What the branches are, inside a block comment and outside.
tally_by_inside :
    (closes line_comment opens : Bool) (t : Tally)
    → t.in_block_comment ≡ true
    → tally_by false closes line_comment opens t ≡ tally_comment (not closes) t
unfolding tally_by
tally_by_inside closes line_comment opens t inside =
    ap
      (λ b.
        if b
        then tally_comment (not closes) t
        else if line_comment
        then tally_comment false t
        else if opens
        then tally_comment (not closes) t
        else tally_code t)
      inside

tally_by_outside :
    (closes line_comment opens : Bool) (t : Tally)
    → t.in_block_comment ≡ false
    → tally_by false closes line_comment opens t ≡ (
        if line_comment
        then tally_comment false t
        else if opens
        then tally_comment (not closes) t
        else tally_code t)
unfolding tally_by
tally_by_outside closes line_comment opens t outside =
    ap
      (λ b.
        if b
        then tally_comment (not closes) t
        else if line_comment
        then tally_comment false t
        else if opens
        then tally_comment (not closes) t
        else tally_code t)
      outside

module _ (language : Text) where
  abbrev pub After : Bool → List Text → Tally → Type 0
  After inside text t = Lies language inside text t (tally_lines language text t)

  -- A line that is tallied as another tally says.
  tallied :
      (line : Text) (rest : List Text) (t u : Tally)
      → tally_by
          (is_empty (trim line))
          (closes_block (trim line))
          (is_line_comment language (trim line))
          (opens_block (trim line))
          t
        ≡ u
      → tally_lines language (line ∷ rest) t ≡ tally_lines language rest u
  unfolding tally_lines tally_line
  tallied line rest t u same = ap (tally_lines language rest) same

  abbrev pub tests : Text → Tally → Tally
  tests trimmed t =
      tally_by (is_empty trimmed) (closes_block trimmed) (is_line_comment language trimmed)
        (opens_block trimmed) t

  pub tallies_blank :
      (inside : Bool) (line : Text) (rest : List Text) (t : Tally)
      → is_empty (trim line) ≡ true
      → After inside rest (tally_blank t)
      → After inside (line ∷ rest) t
  unfolding tally_by
  tallies_blank inside line rest t empty more =
      subst (Lies language inside (line ∷ rest) t)
        (sym (
          tallied line rest t (tally_blank t) (
            ap
              (λ b.
                tally_by b (closes_block (trim line)) (is_line_comment language (trim line))
                  (opens_block (trim line)) t)
              empty)))
        (record {
          code = more.code;
          comments = more.comments;
          blank = suc more.blank;
          layout = Layout.blank_line line empty more.layout;
          codes = more.codes;
          comments_all = more.comments_all;
          blanks = omega (arith, more.blanks);
        })

  pub tallies_comment :
      (inside next : Bool) (line : Text) (rest : List Text) (t : Tally)
      → tests (trim line) t ≡ tally_comment next t
      → ((code comments blank : ℕ)
          → Layout language next rest code comments blank
          → Layout language inside (line ∷ rest) code (suc comments) blank)
      → After next rest (tally_comment next t)
      → After inside (line ∷ rest) t
  tallies_comment inside next line rest t same lies more =
      subst (Lies language inside (line ∷ rest) t)
        (sym (tallied line rest t (tally_comment next t) same))
        (record {
          code = more.code;
          comments = suc more.comments;
          blank = more.blank;
          layout = lies more.code more.comments more.blank more.layout;
          codes = more.codes;
          comments_all = omega (arith, more.comments_all);
          blanks = more.blanks;
        })

  pub tallies_code :
      (line : Text) (rest : List Text) (t : Tally)
      → is_empty (trim line) ≡ false
      → is_line_comment language (trim line) ≡ false
      → opens_block (trim line) ≡ false
      → tests (trim line) t ≡ tally_code t
      → After false rest (tally_code t)
      → After false (line ∷ rest) t
  tallies_code line rest t full no_comment no_block same more =
      subst (Lies language false (line ∷ rest) t) (sym (tallied line rest t (tally_code t) same))
        (record {
          code = suc more.code;
          comments = more.comments;
          blank = more.blank;
          layout = Layout.code_line line full no_comment no_block more.layout;
          codes = omega (arith, more.codes);
          comments_all = more.comments_all;
          blanks = more.blanks;
        })

  pub full_inside :
      (trimmed : Text) (t : Tally)
      → is_empty trimmed ≡ false
      → t.in_block_comment ≡ true
      → tests trimmed t ≡ tally_comment (not (closes_block trimmed)) t
  full_inside trimmed t full inside =
      ap
        (λ b.
          tally_by b (closes_block trimmed) (is_line_comment language trimmed) (opens_block trimmed)
            t)
        full
      ∙ tally_by_inside (closes_block trimmed) (is_line_comment language trimmed)
          (opens_block trimmed) t inside

  pub full_outside :
      (trimmed : Text) (t : Tally)
      → is_empty trimmed ≡ false
      → t.in_block_comment ≡ false
      → tests trimmed t ≡ (
          if is_line_comment language trimmed
          then tally_comment false t
          else if opens_block trimmed
          then tally_comment (not (closes_block trimmed)) t
          else tally_code t)
  full_outside trimmed t full outside =
      ap
        (λ b.
          tally_by b (closes_block trimmed) (is_line_comment language trimmed) (opens_block trimmed)
            t)
        full
      ∙ tally_by_outside (closes_block trimmed) (is_line_comment language trimmed)
          (opens_block trimmed) t outside
