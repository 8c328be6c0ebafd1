-- ===== src/History/Names.antt =====
-- The first-seen times of a file whose names no other file uses: it is followed by its one name.
use git_slop.Base.{
  ◌≡◌, sym, refl, ap, ◌∙◌, Bool, true, false, not, ◌&&◌, ◌||◌, Option, none, some, List, [], ◌∷◌,
  ◌++◌, inl, inr, arith, if◌then◌else◌, Text, text_eq, text_eq_iff, text_eq_refl, ℤ, lookup, member,
  Bool-cases,
}
use git_slop.History.{StatusChange, StatusCommit}
use git_slop.History.Lineage.{or_else, first_seen_with_lineage}
use git_slop.History.Renames.{
  now, before_change, before_changes, is_path, touched_by, oldest_touch,
  first_seen_with_lineage_lem,
}

-- The name of a file before a commit: its renames undone.
abbrev pub name_before : List StatusChange → Text → Text
name_before [] q = q
name_before (StatusChange.rename old new ∷ cs) q = name_before cs (if text_eq new q then old else q)
name_before (StatusChange.copy old new ∷ cs) q = name_before cs q
name_before (StatusChange.path status path ∷ cs) q = name_before cs q

-- Whether a commit changes the file that has the name after it.
abbrev pub changes_name : Text → List StatusChange → Bool
changes_name q [] = false
changes_name q (StatusChange.rename old new ∷ cs) = text_eq new q || changes_name q cs
changes_name q (StatusChange.copy old new ∷ cs) = text_eq new q || changes_name q cs
changes_name q (StatusChange.path status path ∷ cs) = text_eq path q || changes_name q cs

-- The time of the oldest commit that changes a file, by the one name that it has at each commit.
abbrev pub oldest_change : Text → List StatusCommit → Option ℤ
oldest_change q [] = none
oldest_change q (commit ∷ commits) =
    or_else (oldest_change (name_before commit.changes q) commits)
      (if changes_name q commit.changes then some commit.timestamp else none)

abbrev pub change_names : List StatusChange → List Text
change_names [] = []
change_names (StatusChange.rename old new ∷ cs) = old ∷ new ∷ change_names cs
change_names (StatusChange.copy old new ∷ cs) = new ∷ change_names cs
change_names (StatusChange.path status path ∷ cs) = path ∷ change_names cs

abbrev pub commit_names : List StatusCommit → List Text
commit_names [] = []
commit_names (commit ∷ commits) = change_names commit.changes ++ commit_names commits

abbrev pub is_source : Text → List StatusChange → Bool
is_source q [] = false
is_source q (StatusChange.rename old new ∷ cs) = text_eq old q || is_source q cs
is_source q (StatusChange.copy old new ∷ cs) = is_source q cs
is_source q (StatusChange.path status path ∷ cs) = is_source q cs

-- The file's name is renamed away by no change, and the name that a rename gave it stands in no
-- later change of the commit and in no older commit.
abbrev pub is_used_once : Text → List StatusChange → List Text → Bool
is_used_once q [] older = true
is_used_once q (StatusChange.rename old new ∷ cs) older =
    not (text_eq old q)
    && (if text_eq new q
        then not (member q (change_names cs ++ older)) && is_used_once old cs older
        else is_used_once q cs older)
is_used_once q (StatusChange.copy old new ∷ cs) older = is_used_once q cs older
is_used_once q (StatusChange.path status path ∷ cs) older = is_used_once q cs older

-- At no commit is the file's name renamed away, and a name that a rename gave it stands in nothing
-- older: no other file had one of its names.
abbrev pub is_never_reused : Text → List StatusCommit → Bool
is_never_reused q [] = true
is_never_reused q (commit ∷ commits) =
    not (is_source q commit.changes)
    && (is_used_once q commit.changes (commit_names commits)
        && is_never_reused (name_before commit.changes q) commits)

-- Of the names, only the file's denotes its path.
abbrev IsOnlyName : Text → Text → (Text → Option Text) → List Text → Type 0
IsOnlyName p q d names =
    (is_path p (d q) ≡ true)
    × ((x : Text) → member x names ≡ true → text_eq x q ≡ false → is_path p (d x) ≡ false)

only_name-text_eq :
    (p q : Text) (d : Text → Option Text) (names : List Text) (x : Text)
    → IsOnlyName p q d names
    → member x names ≡ true
    → is_path p (d x) ≡ text_eq x q
only_name-text_eq p q d names x (at, apart) m = elim (Bool-cases (text_eq x q)) [
  | inl same ↦ ap (λ z. is_path p (d z)) ((text_eq_iff x q).0 same) ∙ at ∙ sym same
  | inr other ↦ apart x m other ∙ sym other
]

is_path-or_else :
    (p : Text) (a b : Option Text) (t : Bool)
    → is_path p a ≡ t
    → (t ≡ false → is_path p b ≡ false)
    → is_path p (or_else a b) ≡ t
is_path-or_else p none b t h k = k (sym h) ∙ h
is_path-or_else p (some a) b t h k = h

before_change-IsOnlyName :
    (p q old new : Text) (names : List Text) (d : Text → Option Text)
    → IsOnlyName p q d (old ∷ new ∷ names)
    → text_eq old q ≡ false
    → (text_eq new q ≡ true → member q names ≡ false)
    → IsOnlyName p
        (if text_eq new q then old else q)
        (before_change (StatusChange.rename old new) d)
        names
unfolding member
before_change-IsOnlyName p q old new names d (at, apart) source once =
    elim (Bool-cases (text_eq new q)) [
      | inl same ↦ rw same (
        by_source old true
            (λ _.
              is_path-or_else p (d new) (d old) true
                (ap (λ z. is_path p (d z)) ((text_eq_iff new q).0 same) ∙ at) (λ e. absurd (cc e)))
            (λ differ. absurd (cc (differ, text_eq_refl old))),
        λ x m differ.
            by_source x false
              (λ same_old.
                absurd (ground (arith, differ, same_old, text_eq_iff old x, text_eq_iff x old)))
              (λ _. apart x (ground (arith, m)) (
                ground (
                  arith,
                  m,
                  once same,
                  text_eq_iff x q,
                  λ (e : x ≡ q). ap (λ z. member z names) e,
                ))),
      )
      | inr other ↦ rw other (
        by_source q true (λ same_old. absurd (cc (same_old, source))) (λ _. at),
        λ x m differ.
            by_source x false
              (λ _.
                is_path-or_else p (d new) (d x) false
                  (apart new (ground (arith, text_eq_refl new)) other)
                  (λ _. apart x (ground (arith, m)) differ))
              (λ _. apart x (ground (arith, m)) differ),
      )
    ]
  where
    by_source :
        (x : Text) (t : Bool)
        → (text_eq old x ≡ true → is_path p (or_else (d new) (d x)) ≡ t)
        → (text_eq old x ≡ false → is_path p (d x) ≡ t)
        → is_path p (before_change (StatusChange.rename old new) d x) ≡ t
    by_source x t f g = elim (Bool-cases (text_eq old x)) [
      | inl same ↦ rw same (f same)
      | inr other ↦ rw other (g other)
    ]

before_changes-IsOnlyName :
    (p q : Text) (cs : List StatusChange) (older : List Text) (d : Text → Option Text)
    → IsOnlyName p q d (change_names cs ++ older)
    → is_used_once q cs older ≡ true
    → IsOnlyName p (name_before cs q) (before_changes cs d) older
unfolding member
before_changes-IsOnlyName p q [] older d h used = h
before_changes-IsOnlyName p q (StatusChange.copy old new ∷ cs) older d (at, apart) used =
    before_changes-IsOnlyName p q cs older d (at, λ x m. apart x (ground (arith, m))) used
before_changes-IsOnlyName p q (StatusChange.path status path ∷ cs) older d (at, apart) used =
    before_changes-IsOnlyName p q cs older d (at, λ x m. apart x (ground (arith, m))) used
before_changes-IsOnlyName p q (StatusChange.rename old new ∷ cs) older d h used =
    before_changes-IsOnlyName p (if text_eq new q then old else q) cs older
      (before_change (StatusChange.rename old new) d)
      (before_change-IsOnlyName p q old new (change_names cs ++ older) d h (ground arith)
        (λ same. ground arith))
      (elim (Bool-cases (text_eq new q)) [
        | inl same ↦ rw same (ground arith)
        | inr other ↦ rw other (ground arith)
      ])

touched_by-changes_name :
    (p q : Text) (cs : List StatusChange) (older : List Text) (d : Text → Option Text)
    → IsOnlyName p q d (change_names cs ++ older)
    → is_source q cs ≡ false
    → touched_by p cs d ≡ changes_name q cs
unfolding member
touched_by-changes_name p q [] older d h source = refl
touched_by-changes_name p q (StatusChange.copy old new ∷ cs) older d (at, apart) source =
    ap (λ t. t || touched_by p cs d)
      (only_name-text_eq p q d (change_names (StatusChange.copy old new ∷ cs) ++ older) new
        (at, apart) (ground (arith, text_eq_refl new)))
    ∙ ap (λ t. text_eq new q || t)
        (touched_by-changes_name p q cs older d (at, λ x m. apart x (ground (arith, m))) source)
touched_by-changes_name p q (StatusChange.path status path ∷ cs) older d (at, apart) source =
    ap (λ t. t || touched_by p cs d)
      (only_name-text_eq p q d (change_names (StatusChange.path status path ∷ cs) ++ older) path
        (at, apart) (ground (arith, text_eq_refl path)))
    ∙ ap (λ t. text_eq path q || t)
        (touched_by-changes_name p q cs older d (at, λ x m. apart x (ground (arith, m))) source)
touched_by-changes_name p q (StatusChange.rename old new ∷ cs) older d (at, apart) source =
    ap (λ t. t || touched_by p cs d)
      (is_path-or_else p (d new) (d old) (text_eq new q)
        (only_name-text_eq p q d (change_names (StatusChange.rename old new ∷ cs) ++ older) new
          (at, apart) (ground (arith, text_eq_refl new)))
        (λ e. apart old (ground (arith, text_eq_refl old)) (ground arith)))
    ∙ ap (λ t. text_eq new q || t)
        (touched_by-changes_name p q cs older d (at, λ x m. apart x (ground (arith, m)))
          (ground arith))

oldest_touch-oldest_change :
    (p q : Text) (commits : List StatusCommit) (d : Text → Option Text)
    → IsOnlyName p q d (commit_names commits)
    → is_never_reused q commits ≡ true
    → oldest_touch p commits d ≡ oldest_change q commits
oldest_touch-oldest_change p q [] d h never = refl
oldest_touch-oldest_change p q (commit ∷ commits) d h never =
    rw (touched_by-changes_name p q commit.changes (commit_names commits) d h (ground arith)) (
      ap (λ o. or_else o (if changes_name q commit.changes then some commit.timestamp else none))
        (oldest_touch-oldest_change p (name_before commit.changes q) commits
          (before_changes commit.changes d)
          (before_changes-IsOnlyName p q commit.changes (commit_names commits) d h (ground arith))
          (ground arith)))

now-IsOnlyName :
    (p : Text) (tracked names : List Text)
    → member p tracked ≡ true
    → IsOnlyName p p (now tracked) names
now-IsOnlyName p tracked names h = (rw h (text_eq_refl p), λ x m differ. ground (arith, differ))

-- With renames followed, a tracked path whose names were never those of another file gets the time
-- of the oldest commit that changes the file under the one name that it has at that commit, or none
-- if no commit does. The names are the present one and, from each rename back, the old one; that no
-- other file had them is that none is renamed away while the file has it, and that a name which a
-- rename gave it stands in no later change of that commit and in no older commit.
pub first_seen_with_lineage-oldest_change :
    (tracked : List Text) (commits : List StatusCommit) (p : Text)
    → member p tracked ≡ true
    → is_never_reused p commits ≡ true
    → lookup p (first_seen_with_lineage tracked commits) ≡ some (oldest_change p commits)
first_seen_with_lineage-oldest_change tracked commits p h never =
    first_seen_with_lineage_lem tracked commits p h
    ∙ ap some (
        oldest_touch-oldest_change p p commits (now tracked)
          (now-IsOnlyName p tracked (commit_names commits) h) never)
