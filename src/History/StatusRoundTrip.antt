-- ===== src/History/StatusRoundTrip.antt =====
-- The logs that `git log -z --name-status` writes, and how `parse_status_log` reads them.
use mathlib.Core.Option
use mathlib.Core.List.{append_assoc}
use git_slop.Base.{
  ℕ, zero, suc, ◌≤◌, ◌≡◌, refl, sym, ap, subst, true, false, some, List, [], ◌∷◌, ◌++◌, map, arith,
  if◌then◌else◌, length, length-append, all, All, Text, text_eq, is_empty, split_whitespace,
  Bool-cases, inl, inr, pos, parse_i64, trim, ◌||◌,
}
use git_slop.History.{StatusChange, StatusCommit}
use git_slop.History.Parsing.{
  Header, read_header, is_extended, is_full_hash, commit_token, trim_newlines, normalized_path,
  author_key,
}
use git_slop.History.Tokens.{encode, HasNoNul, split-encode}
use git_slop.History.Status.{
  read_changes, add_change, status_loop, parse_status_log, status_commit, has_two_paths, is_rename,
}

-- One change as git writes it: the status letter, with a line feed before the first one, and one
-- path or two.
pub data LoggedChange : Type 0 where
  one : Text → Text → LoggedChange
  two : Text → Text → Text → LoggedChange

-- The seven fields of the format, and the changes.
pub record LoggedCommit : Type 0 where
  pub hash : Text
  pub time : Text
  pub name : Text
  pub email : Text
  pub parents : Text
  pub subject : Text
  pub changes : List LoggedChange

abbrev pub change_tokens : List LoggedChange → List Text
change_tokens [] = []
change_tokens (LoggedChange.one status path ∷ cs) = status ∷ path ∷ change_tokens cs
change_tokens (LoggedChange.two status old new ∷ cs) = status ∷ old ∷ new ∷ change_tokens cs

abbrev pub log_tokens : List LoggedCommit → List Text
log_tokens [] = []
log_tokens (c ∷ cs) =
    commit_token
    ∷ c.hash
    ∷ c.time
    ∷ c.name
    ∷ c.email
    ∷ c.parents
    ∷ c.subject
    ∷ (change_tokens c.changes ++ log_tokens cs)

-- A status is no `commit` token and has a letter; its arity is that of the letter; no path is
-- empty. A path may be anything else, the word `commit` included.
abbrev pub IsLoggedChange : LoggedChange → Type 0
IsLoggedChange (LoggedChange.one status path) =
    (text_eq status commit_token ≡ false)
    × (is_empty (trim_newlines status) ≡ false)
    × (has_two_paths (trim_newlines status) ≡ false)
    × (is_empty (normalized_path path) ≡ false)
IsLoggedChange (LoggedChange.two status old new) =
    (text_eq status commit_token ≡ false)
    × (is_empty (trim_newlines status) ≡ false)
    × (has_two_paths (trim_newlines status) ≡ true)
    × (is_empty (normalized_path old) ≡ false)
    × (is_empty (normalized_path new) ≡ false)

-- The parents are full hashes separated by spaces, or none.
abbrev pub IsLoggedCommit : LoggedCommit → Type 0
IsLoggedCommit c =
    ((is_empty c.parents || all is_full_hash (split_whitespace c.parents)) ≡ true)
    × All IsLoggedChange c.changes

abbrev pub read_change : LoggedChange → StatusChange
read_change (LoggedChange.one status path) =
    StatusChange.path (trim_newlines status) (normalized_path path)
read_change (LoggedChange.two status old new) =
    if is_rename (trim_newlines status)
    then StatusChange.rename (normalized_path old) (normalized_path new)
    else StatusChange.copy (normalized_path old) (normalized_path new)

abbrev pub read_commit : LoggedCommit → StatusCommit
read_commit c = record {
  commit = trim c.hash;
  timestamp = Option.get_or (parse_i64 (trim c.time)) (pos 0);
  author = author_key c.name c.email;
  parents = split_whitespace c.parents;
  subject = c.subject;
  changes = map read_change c.changes;
}

read_changes-one :
    (status path : Text) (rest : List Text)
    → IsLoggedChange (LoggedChange.one status path)
    → read_changes (status ∷ path ∷ rest)
      ≡ add_change (some (read_change (LoggedChange.one status path))) (read_changes rest)
unfolding read_changes
read_changes-one status path [] h = rw (h.0, h.1, h.2, h.3)
read_changes-one status path (b ∷ rest) h = rw (h.0, h.1, h.2, h.3)

read_changes-two :
    (status old new : Text) (rest : List Text)
    → IsLoggedChange (LoggedChange.two status old new)
    → read_changes (status ∷ old ∷ new ∷ rest)
      ≡ add_change (some (read_change (LoggedChange.two status old new))) (read_changes rest)
unfolding read_changes
read_changes-two status old new rest h =
    rw (h.0, h.1, h.2, h.3, h.4)
      (elim (Bool-cases (is_rename (trim_newlines status))) [
        | inl renamed ↦ rw renamed
        | inr copied ↦ rw copied
      ])

read_changes-log :
    (cs : List LoggedChange) (rest left : List Text)
    → All IsLoggedChange cs
    → read_changes rest ≡ ([], left)
    → read_changes (change_tokens cs ++ rest) ≡ (map read_change cs, left)
read_changes-log [] rest left h stop = stop
read_changes-log (LoggedChange.one status path ∷ cs) rest left h stop =
    rw (read_changes-one status path (change_tokens cs ++ rest) (h.0))
      (rw (read_changes-log cs rest left (h.1) stop))
read_changes-log (LoggedChange.two status old new ∷ cs) rest left h stop =
    rw (read_changes-two status old new (change_tokens cs ++ rest) (h.0))
      (rw (read_changes-log cs rest left (h.1) stop))

pub read_header-log :
    (hash time name email parents subject : Text) (body : List Text)
    → (is_empty parents || all is_full_hash (split_whitespace parents)) ≡ true
    → read_header hash time name email (parents ∷ subject ∷ body) ≡ (
      record {
        commit = trim hash;
        timestamp = Option.get_or (parse_i64 (trim time)) (pos 0);
        author = author_key name email;
        parents = split_whitespace parents;
        subject = subject;
      },
      body,
    )
unfolding read_header is_extended
read_header-log hash time name email parents subject body h = rw h

-- What is left for the outer loop in front of some commits: the empty piece behind the last NUL
-- has been skipped with the changes before it.
abbrev tail_tokens : List LoggedCommit → List Text
tail_tokens cs = log_tokens cs ++ [] ∷ []

abbrev remaining : List LoggedCommit → List Text
remaining [] = []
remaining (c ∷ cs) =
    commit_token
    ∷ c.hash
    ∷ c.time
    ∷ c.name
    ∷ c.email
    ∷ c.parents
    ∷ c.subject
    ∷ (change_tokens c.changes ++ tail_tokens cs)

tail_tokens-remaining :
    (c : LoggedCommit) (cs : List LoggedCommit) → tail_tokens (c ∷ cs) ≡ remaining (c ∷ cs)
tail_tokens-remaining c cs = rw append_assoc

read_changes-tail : (cs : List LoggedCommit) → read_changes (tail_tokens cs) ≡ ([], remaining cs)
read_changes-tail [] = unfold read_changes trim_newlines text_eq in refl
read_changes-tail (c ∷ cs) = rw (tail_tokens-remaining c cs) (unfold read_changes text_eq in refl)

pub status_loop-nil : (fuel : ℕ) → status_loop fuel [] ≡ some []
unfolding status_loop
status_loop-nil zero = refl
status_loop-nil (suc fuel) = refl

length-remaining : (cs : List LoggedCommit) → length (remaining cs) ≤ length (tail_tokens cs)
length-remaining [] = omega arith
length-remaining (c ∷ cs) = omega (arith, ap length (tail_tokens-remaining c cs))

pub status_loop-commit :
    (fuel : ℕ) (hash time name email : Text) (rest body left : List Text) (header : Header)
    (changes : List StatusChange) (later : List StatusCommit)
    → read_header hash time name email rest ≡ (header, body)
    → read_changes body ≡ (changes, left)
    → status_loop fuel left ≡ some later
    → status_loop (suc fuel) (commit_token ∷ hash ∷ time ∷ name ∷ email ∷ rest)
      ≡ some (status_commit header changes ∷ later)
unfolding status_loop text_eq
status_loop-commit fuel hash time name email rest body left header changes later p q r =
    rw p (rw q (rw r))

status_loop-log :
    (fuel : ℕ) (cs : List LoggedCommit)
    → All IsLoggedCommit cs
    → length (remaining cs) ≤ fuel
    → status_loop fuel (remaining cs) ≡ some (map read_commit cs)
status_loop-log fuel [] h enough = status_loop-nil fuel
status_loop-log zero (c ∷ cs) h enough = absurd (omega arith)
status_loop-log (suc fuel) (c ∷ cs) h enough =
    let header =
      read_header-log c.hash c.time c.name c.email c.parents c.subject
        (change_tokens c.changes ++ tail_tokens cs) (h.0.0) in
    let changes =
      read_changes-log c.changes (tail_tokens cs) (remaining cs) (h.0.1) (read_changes-tail cs) in
    let later = status_loop-log fuel cs (h.1) (
      omega
        (arith, length-remaining cs, length-append (change_tokens c.changes) (tail_tokens cs))) in
    status_loop-commit fuel c.hash c.time c.name c.email _ _ _ _ _ _ header changes later

-- The log as text.
abbrev pub status_log : List LoggedCommit → Text
status_log cs = encode (log_tokens cs)

-- For every list of commits whose fields hold no NUL, whose parents are full hashes or none, and
-- whose changes have a status letter of the right arity and paths that are not empty, parsing the
-- log gives back each commit, with its changes in order.
pub parse_status_log-status_log :
    (cs : List LoggedCommit)
    → All HasNoNul (log_tokens cs)
    → All IsLoggedCommit cs
    → parse_status_log (status_log cs) ≡ some (map read_commit cs)
parse_status_log-status_log [] tokens h =
    unfold parse_status_log in rw (split-encode [] tokens) refl
parse_status_log-status_log (c ∷ cs) tokens h =
    unfold parse_status_log in
    rw (split-encode (log_tokens (c ∷ cs)) tokens) (
      subst (λ ts. status_loop (length ts) ts ≡ some (map read_commit (c ∷ cs)))
        (sym (tail_tokens-remaining c cs))
        (status_loop-log (length (remaining (c ∷ cs))) (c ∷ cs) h (omega arith)))
