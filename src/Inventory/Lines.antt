-- ===== src/Inventory/Lines.antt =====
-- src/inventory.rs: `line_counts`.
use git_slop.Base.{
  ℕ, ◌+◌, Bool, false, not, ◌||◌, List, [], ◌∷◌, if◌then◌else◌, length, Text, codes, text_eq,
  starts_with, contains, is_empty, trim, lines,
}

-- The counters of the loop.
pub record Tally : Type 0 where
  pub blank : ℕ
  pub comments : ℕ
  pub code : ℕ
  pub in_block_comment : Bool

unfoldable pub is_line_comment : Text → Text → Bool
unfolding text_eq starts_with
is_line_comment language trimmed =
    if text_eq language (codes "Python")
      || (text_eq language (codes "Ruby")
          || (text_eq language (codes "Shell")
              || (text_eq language (codes "YAML") || text_eq language (codes "TOML"))))
    then starts_with trimmed (codes "#")
    else if text_eq language (codes "Markdown")
    then starts_with trimmed (codes "<!--")
    else starts_with trimmed (codes "//")

abbrev pub opens_block : Text → Bool
opens_block trimmed = starts_with trimmed (codes "/*")

abbrev pub closes_block : Text → Bool
closes_block trimmed = contains trimmed (codes "*/")

abbrev pub tally_blank : Tally → Tally
tally_blank t = record t { blank = t.blank + 1 }

abbrev pub tally_comment : Bool → Tally → Tally
tally_comment still_open t = record t { comments = t.comments + 1; in_block_comment = still_open }

abbrev pub tally_code : Tally → Tally
tally_code t = record t { code = t.code + 1 }

-- The branches on a line, of which the tests of the trimmed line are given.
unfoldable pub tally_by : Bool → Bool → Bool → Bool → Tally → Tally
tally_by empty closes line_comment opens t =
    if empty
    then tally_blank t
    else if t.in_block_comment
    then tally_comment (not closes) t
    else if line_comment
    then tally_comment false t
    else if opens
    then tally_comment (not closes) t
    else tally_code t

unfoldable pub tally_line : Text → Text → Tally → Tally
unfolding tally_by is_line_comment
tally_line language trimmed t =
    tally_by (is_empty trimmed) (closes_block trimmed) (is_line_comment language trimmed)
      (opens_block trimmed) t

unfoldable pub tally_lines : Text → List Text → Tally → Tally
unfolding tally_line trim
tally_lines language [] t = t
tally_lines language (line ∷ rest) t = tally_lines language rest (tally_line language (trim line) t)

pub record LineCounts : Type 0 where
  pub total : ℕ
  pub code : ℕ
  pub comments : ℕ
  pub blank : ℕ

abbrev pub no_lines : Tally
no_lines = record { blank = 0; comments = 0; code = 0; in_block_comment = false }

-- A text that is empty has no lines, and no counts.
unfoldable pub line_counts : Text → Text → LineCounts
unfolding lines tally_lines
line_counts text language =
    let t = tally_lines language (lines text) no_lines in
    if is_empty text then record { total = 0; code = 0; comments = 0; blank = 0 } else record {
      total = length (lines text);
      code = t.code;
      comments = t.comments;
      blank = t.blank;
    }
