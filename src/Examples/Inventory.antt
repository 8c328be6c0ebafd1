-- ===== src/Examples/Inventory.antt =====
-- A small Rust file with a block comment, in which a line looks like code.
use git_slop.Base.{
  ◌≡◌, refl, [], ◌∷◌, ◌++◌, Text, codes, text_eq, starts_with, contains, trim, lines, strip_return,
}
use git_slop.Inventory.Lines.{line_counts, is_line_comment, tally_line, tally_lines}
use git_slop.Inventory.Counts.{IsCounted, line_counts-IsCounted}

abbrev newline : Text
newline = 10 ∷ []

abbrev text : Text
text =
    codes "// head"
    ++ newline
    ++ newline
    ++ codes "/* a"
    ++ newline
    ++ codes "fn b() {}"
    ++ newline
    ++ codes "*/ fn c() {}"
    ++ newline
    ++ codes "fn d() {}"
    ++ newline

line_counts-IsCounted_example : IsCounted (codes "Rust") text (line_counts text (codes "Rust"))
line_counts-IsCounted_example = line_counts-IsCounted text (codes "Rust")

six_lines :
    line_counts text (codes "Rust") ≡ record { total = 6; code = 1; comments = 4; blank = 1 }
unfolding line_counts lines strip_return tally_lines tally_line is_line_comment text_eq starts_with
    contains trim
six_lines = refl
