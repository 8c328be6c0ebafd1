-- ===== src/History/Numstat.antt =====
-- src/history/parsing.rs: `parse_numstat_log`.
use mathlib.Core.Option
use git_slop.Base.{
  ℕ, zero, suc, Bool, false, not, ◌||◌, Option, none, some, List, [], ◌∷◌, ◌++◌, ◌==◌,
  if◌then◌else◌, length, Text, codes, text_eq, is_empty, split, parse_u64,
}
use git_slop.History.{NumstatEntry, NumstatCommit}
use git_slop.History.Parsing.{Header, read_header, commit_token, normalized_path, trim_newlines}

-- `str::split_once` at one character.
unfoldable pub split_once : ℕ → Text → Option (Text × Text)
split_once sep [] = none
split_once sep (c ∷ s) =
    let later = Option.map (λ p. (c ∷ p.0, p.1)) (split_once sep s) in
    if c == sep then some ([], s) else later

-- `splitn(3, '\t')` where it has two parts at least.
pub record StatParts : Type 0 where
  pub added : Text
  pub deleted : Text
  pub path : Option Text

unfoldable pub stat_parts : Text → Option StatParts
unfolding split_once
stat_parts line = elim (split_once 9 line) [
  | none ↦ none
  | some p ↦ elim (split_once 9 (p.1)) [
    | none ↦ some (record { added = p.0; deleted = p.1; path = none })
    | some q ↦ some (record { added = p.0; deleted = q.0; path = some (q.1) })
  ]
]

unfoldable pub has_path : Option Text → Bool
has_path none = false
has_path (some path) = not (is_empty path)

unfoldable pub path_or_empty : Option Text → Text
path_or_empty none = []
path_or_empty (some path) = path

unfoldable pub numstat_entry_of : Option ℕ → Option ℕ → List Text → Option NumstatEntry
numstat_entry_of none d paths = none
numstat_entry_of (some a) none paths = none
numstat_entry_of (some a) (some d) paths = some (record { added = a; deleted = d; paths = paths })

-- Binary changes and unreadable counts give no entry.
unfoldable pub numstat_entry : StatParts → List Text → Option NumstatEntry
unfolding numstat_entry_of
numstat_entry parts paths =
    if text_eq parts.added (codes "-") || text_eq parts.deleted (codes "-")
    then none
    else numstat_entry_of (parse_u64 parts.added) (parse_u64 parts.deleted) paths

unfoldable pub add_entry :
    Option NumstatEntry → List NumstatEntry × List Text → List NumstatEntry × List Text
add_entry none p = p
add_entry (some entry) (entries, rest) = (entry ∷ entries, rest)

unfoldable pub pushed_path : Text → List Text
pushed_path token = if is_empty token then [] else normalized_path token ∷ []

-- The inner loop: the entries up to the next `commit` token or the end, and the tokens left.
unfoldable pub read_entries : List Text → List NumstatEntry × List Text
read_entries [] = ([], [])
read_entries (t ∷ []) =
    if text_eq t commit_token then ([], t ∷ []) else elim (stat_parts (trim_newlines t)) [
      | none ↦ ([], [])
      | some parts ↦
          if has_path parts.path
          then add_entry (numstat_entry parts (normalized_path (path_or_empty parts.path) ∷ []))
              ([], [])
          else ([], [])
    ]
read_entries (t ∷ a ∷ []) =
    let next = read_entries (a ∷ []) in
    if text_eq t commit_token then ([], t ∷ a ∷ []) else elim (stat_parts (trim_newlines t)) [
      | none ↦ next
      | some parts ↦
          if has_path parts.path
          then add_entry (numstat_entry parts (normalized_path (path_or_empty parts.path) ∷ []))
              next
          else if text_eq a commit_token
          then ([], a ∷ [])
          else add_entry (numstat_entry parts (pushed_path a)) ([], [])
    ]
read_entries (t ∷ a ∷ b ∷ rest) =
    let next = read_entries (a ∷ b ∷ rest) in
    let after_one = read_entries (b ∷ rest) in
    let after_two = read_entries rest in
    if text_eq t commit_token then ([], t ∷ a ∷ b ∷ rest) else elim (stat_parts (trim_newlines t)) [
      | none ↦ next
      | some parts ↦
          if has_path parts.path
          then add_entry (numstat_entry parts (normalized_path (path_or_empty parts.path) ∷ []))
              next
          else if text_eq a commit_token
          then ([], a ∷ b ∷ rest)
          else if text_eq b commit_token || is_empty b
          then add_entry (numstat_entry parts (pushed_path a)) after_one
          else add_entry (numstat_entry parts (pushed_path a ++ normalized_path b ∷ [])) after_two
    ]

abbrev pub numstat_commit : Header → List NumstatEntry → NumstatCommit
numstat_commit h entries = record {
  commit = h.commit;
  timestamp = h.timestamp;
  author = h.author;
  parents = h.parents;
  subject = h.subject;
  entries = entries;
}

-- The outer loop; `none` means that the fuel ran out before the tokens.
unfoldable pub numstat_loop : ℕ → List Text → Option (List NumstatCommit)
unfolding read_entries
numstat_loop zero [] = some []
numstat_loop zero (t ∷ ts) = none
numstat_loop (suc fuel) [] = some []
numstat_loop (suc fuel) (t ∷ hash ∷ time ∷ name ∷ email ∷ rest) =
    let (header, body) = read_header hash time name email rest in
    let (entries, left) = read_entries body in
    let taken =
      Option.map (λ later. numstat_commit header entries ∷ later) (numstat_loop fuel left) in
    let skipped = numstat_loop fuel (hash ∷ time ∷ name ∷ email ∷ rest) in
    if text_eq t commit_token then taken else skipped
numstat_loop (suc fuel) (t ∷ ts) = numstat_loop fuel ts

unfoldable pub parse_numstat_log : Text → Option (List NumstatCommit)
unfolding numstat_loop
parse_numstat_log raw = let tokens = split 0 raw in numstat_loop (length tokens) tokens
