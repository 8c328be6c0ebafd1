-- ===== src/History/Stream.antt =====
-- src/history/git_log.rs: `stream_git_log` cuts git's output into commits before it parses them.
use mathlib.Core.Option
use mathlib.Core.List.{append_assoc, append-nil}
use git_slop.Base.{
  ◌≡◌, refl, sym, ap, subst, ◌∙◌, Bool, true, false, not, ◌&&◌, some, List, [], ◌∷◌, ◌++◌, map,
  arith, if◌then◌else◌, All, All-append_split, Bool-cases, inl, inr, trim_start, Text, text_eq,
  is_empty, Result, ok, err,
}
use git_slop.History.{StatusCommit}
use git_slop.History.Parsing.{commit_token, trim_newlines}
use git_slop.History.Status.{parse_status_log}
use git_slop.History.Tokens.{encode, HasNoNul}
use git_slop.History.StatusRoundTrip.{
  LoggedCommit, IsLoggedCommit, change_tokens, log_tokens, read_commit, status_log,
  parse_status_log-status_log,
}

module _ {A : Type 0} (parse : Text → List A) where
  -- The loop over the tokens that were read up to each NUL, with the text of the current commit.
  unfoldable pub stream_loop : Text → List Text → List A
  stream_loop commit [] = if is_empty commit then [] else parse commit
  stream_loop commit (value ∷ tokens) =
      let flushed = parse commit ++ stream_loop (value ++ 0 ∷ []) tokens in
      let grown = stream_loop (commit ++ (value ++ 0 ∷ [])) tokens in
      if text_eq (trim_newlines value) commit_token && not (is_empty commit) then flushed else grown

-- The exit status of git is read when its output has ended.
unfoldable pub stream_git_log :
    {A : Type 0} → (Text → List A) → List Text → Bool → Result (Unit {0}) (List A)
stream_git_log parse tokens succeeded =
    if succeeded then ok (stream_loop parse [] tokens) else err tt

-- What the parser returns, which always returns.
abbrev pub status_commits : Text → List StatusCommit
status_commits raw = Option.get_or (parse_status_log raw) []

abbrev pub IsNoHeader : Text → Type 0
IsNoHeader t = text_eq (trim_newlines t) commit_token ≡ false

-- The tokens of a commit behind its first.
abbrev pub body_tokens : LoggedCommit → List Text
body_tokens c = c.hash ∷ c.time ∷ c.name ∷ c.email ∷ c.parents ∷ c.subject ∷ change_tokens c.changes

module _ {A : Type 0} (parse : Text → List A) where
  pub stream_loop-body :
      (commit : Text) (ts rest : List Text)
      → All IsNoHeader ts
      → stream_loop parse commit (ts ++ rest) ≡ stream_loop parse (commit ++ encode ts) rest
  unfolding stream_loop
  stream_loop-body commit [] rest h = rw append-nil
  stream_loop-body commit (t ∷ ts) rest h =
      rw (h.0) (rw (stream_loop-body (commit ++ (t ++ 0 ∷ [])) ts rest (h.1)) (simp append_assoc))

  pub stream_loop-header :
      (t pending : Text) (rest : List Text)
      → text_eq (trim_newlines t) commit_token ≡ true
      → is_empty pending ≡ false
      → stream_loop parse pending (t ∷ rest) ≡ parse pending ++ stream_loop parse (t ++ 0 ∷ []) rest
  unfolding stream_loop
  stream_loop-header t pending rest h k = rw (h, k)

  pub stream_loop-first :
      (t : Text) (rest : List Text)
      → stream_loop parse [] (t ∷ rest) ≡ stream_loop parse (t ++ 0 ∷ []) rest
  unfolding stream_loop
  stream_loop-first t rest = elim (Bool-cases (text_eq (trim_newlines t) commit_token)) [
    | inl header ↦ rw header
    | inr other ↦ rw other
  ]

  pub stream_loop-end :
      (pending : Text)
      → is_empty pending ≡ false
      → stream_loop parse pending [] ≡ parse pending ++ stream_loop parse [] []
  unfolding stream_loop
  stream_loop-end pending h = rw h (rw append-nil)

pub header_is_commit : text_eq (trim_newlines commit_token) commit_token ≡ true
unfolding trim_newlines trim_start text_eq
header_is_commit = refl

module _ {A : Type 0} (parse : Text → List A) where
  -- A pending commit is flushed by the next header, or by the end.
  stream_loop-flush :
      (pending : Text) (cs : List LoggedCommit)
      → is_empty pending ≡ false
      → stream_loop parse pending (log_tokens cs)
        ≡ parse pending ++ stream_loop parse [] (log_tokens cs)
  stream_loop-flush pending [] h = stream_loop-end parse pending h
  stream_loop-flush pending (d ∷ ds) h =
      stream_loop-header parse commit_token pending _ header_is_commit h
      ∙ ap (λ l. parse pending ++ l) (sym (stream_loop-first parse commit_token _))

  -- From one header to the next, the loop collects the tokens of one commit.
  stream_loop-commit :
      (ts : List Text) (cs : List LoggedCommit)
      → All IsNoHeader ts
      → stream_loop parse [] (commit_token ∷ (ts ++ log_tokens cs))
        ≡ parse (encode (commit_token ∷ ts)) ++ stream_loop parse [] (log_tokens cs)
  stream_loop-commit ts cs h =
      stream_loop-first parse commit_token (ts ++ log_tokens cs)
      ∙ stream_loop-body parse (commit_token ++ 0 ∷ []) ts (log_tokens cs) h
      ∙ stream_loop-flush (encode (commit_token ∷ ts)) cs refl

pub commit_token-HasNoNul : HasNoNul commit_token
commit_token-HasNoNul = ground arith

one_commit :
    (c : LoggedCommit)
    → All HasNoNul (body_tokens c)
    → IsLoggedCommit c
    → status_commits (encode (commit_token ∷ body_tokens c)) ≡ read_commit c ∷ []
one_commit c tokens h =
    let e : log_tokens (c ∷ []) ≡ commit_token ∷ body_tokens c = rw append-nil in
    ap (λ o. Option.get_or o [])
      (subst (λ ts. parse_status_log (encode ts) ≡ some (read_commit c ∷ [])) e
        (parse_status_log-status_log (c ∷ [])
          (subst (All HasNoNul) (sym e) (commit_token-HasNoNul, tokens)) (h, tt)))

stream_loop-log :
    (cs : List LoggedCommit)
    → All HasNoNul (log_tokens cs)
    → All IsLoggedCommit cs
    → All (λ c. All IsNoHeader (body_tokens c)) cs
    → stream_loop status_commits [] (log_tokens cs) ≡ map read_commit cs
stream_loop-log [] tokens h headers = unfold stream_loop in refl
stream_loop-log (c ∷ cs) tokens h headers =
    let (here, later) = All-append_split HasNoNul (body_tokens c) (log_tokens cs) (tokens.1) in
    stream_loop-commit status_commits (body_tokens c) cs (headers.0)
    ∙ cc (one_commit c here (h.0), stream_loop-log cs later (h.1) (headers.1))

-- When git succeeds and no token of a well-formed commit but its first reads `commit`, the stream
-- gives the commits of the log, one by one, each with its changes; so does one parse of it all.
pub stream_git_log-status_log :
    (cs : List LoggedCommit)
    → All HasNoNul (log_tokens cs)
    → All IsLoggedCommit cs
    → All (λ c. All IsNoHeader (body_tokens c)) cs
    → (stream_git_log status_commits (log_tokens cs) true ≡ ok (map read_commit cs))
      × (status_commits (status_log cs) ≡ map read_commit cs)
stream_git_log-status_log cs tokens h headers = (
  unfold stream_git_log in ap ok (stream_loop-log cs tokens h headers),
  ap (λ o. Option.get_or o []) (parse_status_log-status_log cs tokens h),
)
