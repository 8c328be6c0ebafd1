-- ===== src/History/Samples.antt =====
-- The parsers at the inputs of the source's tests.
use git_slop.Base.{
  ◌≡◌, refl, some, [], ◌∷◌, ◌++◌, Text, codes, pos, split, trim, split_whitespace, parse_i64,
  text_eq, parse_u64,
}
use git_slop.History.{StatusChange}
use git_slop.History.Parsing.{read_header, is_extended, normalized_path, trim_newlines, author_key}
use git_slop.History.Status.{parse_status_log}
use git_slop.History.Numstat.{
  parse_numstat_log, stat_parts, numstat_entry, has_path, add_entry, pushed_path, path_or_empty,
}

abbrev joined : Text → Text → Text
joined a b = a ++ (0 ∷ b)

abbrev status_sample : Text
status_sample = joined (codes "commit") (
    joined (codes "abc123") (
      joined (codes "10000000") (
        joined (codes "Example Dev") (
          joined (codes "dev@example.com") (
            joined (codes "R100")
              (joined (codes "src/old.py") (joined (codes "src/new.py") [])))))))

status_sample_read :
    parse_status_log status_sample
    ≡ some (
        record {
          commit = codes "abc123";
          timestamp = pos 10000000;
          author = codes "Example Dev <dev@example.com>";
          parents = [];
          subject = [];
          changes = StatusChange.rename (codes "src/old.py") (codes "src/new.py") ∷ [];
        }
        ∷ [])
unfolding parse_status_log read_header is_extended normalized_path trim_newlines author_key split
    trim split_whitespace parse_i64 text_eq
status_sample_read = refl

abbrev numstat_sample : Text
numstat_sample = joined (codes "commit") (
    joined (codes "def456") (
      joined (codes "10000010") (
        joined (codes "Example Dev") (
          joined (codes "dev@example.com") (
            joined (codes "5" ++ (9 ∷ (codes "3" ++ 9 ∷ [])))
              (joined (codes "src/old.py") (joined (codes "src/new.py") [])))))))

numstat_sample_read :
    parse_numstat_log numstat_sample
    ≡ some (
        record {
          commit = codes "def456";
          timestamp = pos 10000010;
          author = codes "Example Dev <dev@example.com>";
          parents = [];
          subject = [];
          entries =
              record {
                added = 5;
                deleted = 3;
                paths = codes "src/old.py" ∷ codes "src/new.py" ∷ [];
              }
              ∷ [];
        }
        ∷ [])
unfolding parse_numstat_log stat_parts numstat_entry has_path add_entry pushed_path path_or_empty
    read_header is_extended normalized_path trim_newlines author_key split trim split_whitespace
    parse_i64 parse_u64 text_eq
numstat_sample_read = refl
