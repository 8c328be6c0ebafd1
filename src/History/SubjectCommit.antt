-- ===== src/History/SubjectCommit.antt =====
-- `stream_git_log` at a commit whose subject line is the word `commit`.
use mathlib.Core.Option
use mathlib.Core.List.{append-nil}
use git_slop.Base.{◌≡◌, refl, ap, ◌∙◌, true, List, [], ◌∷◌, ◌++◌, All, Text, ok}
use git_slop.History.{StatusCommit}
use git_slop.History.Parsing.{commit_token}
use git_slop.History.Status.{read_changes, parse_status_log}
use git_slop.History.Tokens.{encode, HasNoNul, split-encode}
use git_slop.History.StatusRoundTrip.{
  LoggedCommit, IsLoggedCommit, change_tokens, log_tokens, read_commit, read_header-log,
  status_loop-commit, status_loop-nil,
}
use git_slop.History.Stream.{
  stream_loop, stream_git_log, status_commits, IsNoHeader, stream_loop-first, stream_loop-body,
  stream_loop-header, header_is_commit, commit_token-HasNoNul, stream_loop-end,
}

-- The tokens in front of the subject.
abbrev pub front_tokens : LoggedCommit → List Text
front_tokens c = c.hash ∷ c.time ∷ c.name ∷ c.email ∷ c.parents ∷ []

-- The record that is left of the commit.
abbrev pub emptied : LoggedCommit → StatusCommit
emptied c = record (read_commit c) { subject = []; changes = [] }

front_read :
    (c : LoggedCommit)
    → All HasNoNul (front_tokens c)
    → IsLoggedCommit c
    → status_commits (encode (commit_token ∷ front_tokens c)) ≡ emptied c ∷ []
unfolding parse_status_log
front_read c tokens h =
    rw (split-encode (commit_token ∷ front_tokens c) (commit_token-HasNoNul, tokens)) (
      ap (λ o. Option.get_or o [])
        (status_loop-commit 6 c.hash c.time c.name c.email _ [] [] _ _ _
          (read_header-log c.hash c.time c.name c.email c.parents [] [] (h.0)) no_changes
          (status_loop-nil 6)))
  where
    no_changes : read_changes [] ≡ ([], [])
    no_changes = unfold read_changes in refl

subject_flushed :
    (subject : Text)
    → subject ≡ commit_token
    → (later : List Text) → All IsNoHeader later
    → stream_loop status_commits (subject ++ 0 ∷ []) (later ++ [])
      ≡ status_commits (encode (commit_token ∷ later))
subject_flushed subject e later h = rw e (
    stream_loop-body status_commits (commit_token ++ 0 ∷ []) later [] h
    ∙ stream_loop-end status_commits (encode (commit_token ∷ later)) refl
    ∙ ended (status_commits (encode (commit_token ∷ later))))
  where
    ended : (l : List StatusCommit) → l ++ stream_loop status_commits [] [] ≡ l
    ended l = unfold stream_loop in append-nil l

-- For every well-formed commit whose subject is `commit` and none of whose other tokens reads so,
-- the stream gives a commit with no subject and no changes, followed by whatever a header made of
-- the subject and the changes parses to.
pub stream_loses_changes :
    (c : LoggedCommit)
    → c.subject ≡ commit_token
    → All HasNoNul (front_tokens c)
    → IsLoggedCommit c
    → All IsNoHeader (front_tokens c)
    → All IsNoHeader (change_tokens c.changes)
    → stream_git_log status_commits (log_tokens (c ∷ [])) true
      ≡ ok (emptied c ∷ status_commits (encode (commit_token ∷ change_tokens c.changes)))
stream_loses_changes c subject tokens h front changes =
    let parse = status_commits in
    let later = change_tokens c.changes in
    let pending = encode (commit_token ∷ front_tokens c) in
    let whole =
      stream_loop-first parse commit_token _
      ∙ stream_loop-body parse (commit_token ++ 0 ∷ []) (front_tokens c) (c.subject ∷ (later ++ []))
          front
      ∙ stream_loop-header parse c.subject pending (later ++ []) (rw subject header_is_commit)
          refl in
    unfold stream_git_log in
    ap ok (whole ∙ cc (front_read c tokens h, subject_flushed c.subject subject later changes))
