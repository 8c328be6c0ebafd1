-- ===== src/Examples/History.antt =====
-- A small log, with a rename, and a commit whose subject is `commit`.
use git_slop.Base.{
  ◌≡◌, refl, true, some, List, [], ◌∷◌, ◌++◌, map, arith, All, Text, codes, pos, lookup, member,
  text_eq, ok, split_whitespace, trim_start,
}
use git_slop.History.{StatusChange, StatusCommit, NumstatCommit}
use git_slop.History.Parsing.{is_full_hash, normalized_path, trim_newlines, commit_token}
use git_slop.History.Status.{parse_status_log}
use git_slop.History.Numstat.{parse_numstat_log}
use git_slop.History.Tokens.{encode, HasNoNul}
use git_slop.History.Totality.{parsers_total}
use git_slop.History.StatusRoundTrip.{
  LoggedChange, LoggedCommit, IsLoggedCommit, log_tokens, change_tokens, status_log, read_commit,
  parse_status_log-status_log,
}
use git_slop.History.Stream.{
  stream_git_log, status_commits, IsNoHeader, body_tokens, stream_git_log-status_log,
}
use git_slop.History.SubjectCommit.{emptied, front_tokens, stream_loses_changes}
use git_slop.History.Lineage.{first_seen_with_lineage}
use git_slop.History.Names.{oldest_change, is_never_reused, first_seen_with_lineage-oldest_change}

abbrev torn : Text
torn = codes "commit" ++ (0 ∷ codes "x")

parsers_total_example :
    ((commits : List StatusCommit) × (parse_status_log torn ≡ some commits))
    × ((commits : List NumstatCommit) × (parse_numstat_log torn ≡ some commits))
parsers_total_example = parsers_total torn

abbrev renaming : LoggedCommit
renaming = record {
  hash = codes "a1";
  time = codes "200";
  name = codes "Dev";
  email = codes "d@x";
  parents = codes "0123456789abcdef0123456789abcdef01234567";
  subject = codes "move";
  changes =
      LoggedChange.two (10 ∷ codes "R100") (codes "old") (codes "new")
      ∷ LoggedChange.one (codes "M") (codes "other")
      ∷ [];
}

renaming-IsLoggedCommit : IsLoggedCommit renaming
unfolding is_full_hash normalized_path trim_newlines trim_start text_eq split_whitespace
renaming-IsLoggedCommit = (refl, ((refl, refl, refl, refl, refl), ((refl, refl, refl, refl), tt)))

abbrev log : List LoggedCommit
log = renaming ∷ []

log_tokens-HasNoNul : All HasNoNul (log_tokens log)
log_tokens-HasNoNul = ground arith

parse_status_log-status_log_example : parse_status_log (status_log log) ≡ some (map read_commit log)
parse_status_log-status_log_example =
    parse_status_log-status_log log log_tokens-HasNoNul (renaming-IsLoggedCommit, tt)

renaming_headers : All IsNoHeader (body_tokens renaming)
unfolding trim_newlines trim_start text_eq
renaming_headers =
    (refl, (refl, (refl, (refl, (refl, (refl, (refl, (refl, (refl, (refl, (refl, tt)))))))))))

stream_git_log-status_log_example :
    (stream_git_log status_commits (log_tokens log) true ≡ ok (map read_commit log))
    × (status_commits (status_log log) ≡ map read_commit log)
stream_git_log-status_log_example =
    stream_git_log-status_log log log_tokens-HasNoNul (renaming-IsLoggedCommit, tt)
      (renaming_headers, tt)

abbrev titled_commit : LoggedCommit
titled_commit = record renaming {
  subject = codes "commit";
  changes = LoggedChange.one (10 ∷ codes "M") (codes "other") ∷ [];
}

titled-IsLoggedCommit : IsLoggedCommit titled_commit
unfolding is_full_hash normalized_path trim_newlines trim_start text_eq split_whitespace
titled-IsLoggedCommit = (refl, ((refl, refl, refl, refl), tt))

front-HasNoNul : All HasNoNul (front_tokens titled_commit)
front-HasNoNul = ground arith

front_headers : All IsNoHeader (front_tokens titled_commit)
unfolding trim_newlines trim_start text_eq
front_headers = (refl, (refl, (refl, (refl, (refl, tt)))))

change_headers : All IsNoHeader (change_tokens titled_commit.changes)
unfolding trim_newlines trim_start text_eq
change_headers = (refl, (refl, tt))

stream_loses_changes_example :
    stream_git_log status_commits (log_tokens (titled_commit ∷ [])) true
    ≡ ok (
        emptied titled_commit
        ∷ status_commits (encode (commit_token ∷ change_tokens titled_commit.changes)))
stream_loses_changes_example =
    stream_loses_changes titled_commit refl front-HasNoNul titled-IsLoggedCommit front_headers
      change_headers

abbrev tracked : List Text
tracked = codes "new" ∷ []

abbrev history : List StatusCommit
history =
    read_commit renaming
    ∷ record (read_commit renaming) {
      timestamp = pos 100;
      changes = StatusChange.path (codes "A") (codes "old") ∷ [];
    }
    ∷ []

new_tracked : member (codes "new") tracked ≡ true
unfolding member text_eq
new_tracked = refl

new-is_never_reused : is_never_reused (codes "new") history ≡ true
unfolding member text_eq normalized_path trim_newlines trim_start
new-is_never_reused = refl

first_seen_with_lineage-oldest_change_example :
    lookup (codes "new") (first_seen_with_lineage tracked history)
    ≡ some (oldest_change (codes "new") history)
first_seen_with_lineage-oldest_change_example =
    first_seen_with_lineage-oldest_change tracked history (codes "new") new_tracked
      new-is_never_reused

-- The file is seen from the commit that added it under its old name.
seen_under_old_name : oldest_change (codes "new") history ≡ some (pos 100)
unfolding text_eq normalized_path trim_newlines trim_start
seen_under_old_name = refl
