-- ===== src/History/Status.antt =====
-- src/history/parsing.rs: `parse_status_log`.
use mathlib.Core.Option
use git_slop.Base.{
  ℕ, zero, suc, Bool, ◌||◌, Option, none, some, List, [], ◌∷◌, ◌==◌, if◌then◌else◌, length, Text,
  text_eq, is_empty, split,
}
use git_slop.History.{StatusChange, StatusCommit}
use git_slop.History.Parsing.{Header, read_header, commit_token, normalized_path, trim_newlines}

-- The arm of the match that the status letter selects.
abbrev pub has_two_paths : Text → Bool
has_two_paths [] = Bool.false
has_two_paths (c ∷ s) = c == b'R' || c == b'C'

abbrev pub is_rename : Text → Bool
is_rename [] = Bool.false
is_rename (c ∷ s) = c == b'R'

abbrev pub add_change :
    Option StatusChange → List StatusChange × List Text → List StatusChange × List Text
add_change none p = p
add_change (some change) (changes, rest) = (change ∷ changes, rest)

unfoldable pub two_path_change : Text → Text → Text → Option StatusChange
two_path_change status old new =
    let old_path = normalized_path old in
    let new_path = normalized_path new in
    if is_empty old_path || is_empty new_path
    then none
    else if is_rename status
    then some (StatusChange.rename old_path new_path)
    else some (StatusChange.copy old_path new_path)

unfoldable pub one_path_change : Text → Text → Option StatusChange
one_path_change status token =
    let path = normalized_path token in
    if is_empty path then none else some (StatusChange.path status path)

-- The inner loop: the changes up to the next `commit` token or the end, and the tokens left.
unfoldable pub read_changes : List Text → List StatusChange × List Text
unfolding two_path_change one_path_change
read_changes [] = ([], [])
read_changes (t ∷ []) = if text_eq t commit_token then ([], t ∷ []) else ([], [])
read_changes (t ∷ a ∷ []) =
    let status = trim_newlines t in
    let skipped = read_changes (a ∷ []) in
    if text_eq t commit_token
    then ([], t ∷ a ∷ [])
    else if is_empty status
    then skipped
    else if has_two_paths status
    then ([], a ∷ [])
    else add_change (one_path_change status a) ([], [])
read_changes (t ∷ a ∷ b ∷ rest) =
    let status = trim_newlines t in
    let skipped = read_changes (a ∷ b ∷ rest) in
    let after_two = add_change (two_path_change status a b) (read_changes rest) in
    let after_one = add_change (one_path_change status a) (read_changes (b ∷ rest)) in
    if text_eq t commit_token
    then ([], t ∷ a ∷ b ∷ rest)
    else if is_empty status
    then skipped
    else if has_two_paths status
    then after_two
    else after_one

abbrev pub status_commit : Header → List StatusChange → StatusCommit
status_commit h changes = record {
  commit = h.commit;
  timestamp = h.timestamp;
  author = h.author;
  parents = h.parents;
  subject = h.subject;
  changes = changes;
}

-- The outer loop; `none` means that the fuel ran out before the tokens.
unfoldable pub status_loop : ℕ → List Text → Option (List StatusCommit)
unfolding read_changes
status_loop zero [] = some []
status_loop zero (t ∷ ts) = none
status_loop (suc fuel) [] = some []
status_loop (suc fuel) (t ∷ hash ∷ time ∷ name ∷ email ∷ rest) =
    let (header, body) = read_header hash time name email rest in
    let (changes, left) = read_changes body in
    let taken =
      Option.map (λ later. status_commit header changes ∷ later) (status_loop fuel left) in
    let skipped = status_loop fuel (hash ∷ time ∷ name ∷ email ∷ rest) in
    if text_eq t commit_token then taken else skipped
status_loop (suc fuel) (t ∷ ts) = status_loop fuel ts

unfoldable pub parse_status_log : Text → Option (List StatusCommit)
unfolding status_loop
parse_status_log raw = let tokens = split 0 raw in status_loop (length tokens) tokens
