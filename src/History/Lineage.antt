-- ===== src/History/Lineage.antt =====
-- src/history/lineage.rs: historical names are mapped to the paths that are tracked now.
use git_slop.Base.{
  Bool, false, Option, none, some, List, [], ◌∷◌, ◌==◌, if◌then◌else◌, Text, ℤ, BTreeMap, lookup,
  insert, member, insert_key,
}
use git_slop.History.{StatusChange, StatusCommit, NumstatEntry}

-- `first.or_else(|| second)`.
abbrev pub or_else {ℓ} : {A : Type ℓ} → Option A → Option A → Option A
or_else none b = b
or_else (some a) b = some a

-- Each tracked path stands for itself.
unfoldable pub identity_aliases : List Text → BTreeMap Text
identity_aliases [] = []
identity_aliases (p ∷ ps) = insert p p (identity_aliases ps)

abbrev pub alias_to : Text → Option Text → BTreeMap Text → BTreeMap Text
alias_to old none aliases = aliases
alias_to old (some current) aliases = insert old current aliases

unfoldable pub apply_rename_change : BTreeMap Text → StatusChange → BTreeMap Text
apply_rename_change aliases (StatusChange.rename old new) =
    alias_to old (lookup new aliases) aliases
apply_rename_change aliases (StatusChange.copy old new) = aliases
apply_rename_change aliases (StatusChange.path status path) = aliases

unfoldable pub apply_rename_changes : BTreeMap Text → List StatusChange → BTreeMap Text
unfolding apply_rename_change
apply_rename_changes aliases [] = aliases
apply_rename_changes aliases (change ∷ changes) =
    apply_rename_changes (apply_rename_change aliases change) changes

unfoldable pub apply_rename_aliases : BTreeMap Text → Option StatusCommit → BTreeMap Text
unfolding apply_rename_changes
apply_rename_aliases aliases none = aliases
apply_rename_aliases aliases (some commit) = apply_rename_changes aliases commit.changes

-- The set has one path at most.
unfoldable pub mapped_paths_for_status_change : StatusChange → BTreeMap Text → Option Text
mapped_paths_for_status_change (StatusChange.rename old new) aliases =
    or_else (lookup new aliases) (lookup old aliases)
mapped_paths_for_status_change (StatusChange.copy old new) aliases = lookup new aliases
mapped_paths_for_status_change (StatusChange.path status path) aliases = lookup path aliases

abbrev pub touch : Option Text → List Text → List Text
touch none touched = touched
touch (some path) touched = insert_key path touched

unfoldable pub touched_paths : List StatusChange → BTreeMap Text → List Text
unfolding mapped_paths_for_status_change
touched_paths [] aliases = []
touched_paths (change ∷ changes) aliases =
    touch (mapped_paths_for_status_change change aliases) (touched_paths changes aliases)

unfoldable pub stamp : ℤ → List Text → BTreeMap (Option ℤ) → BTreeMap (Option ℤ)
stamp time [] result = result
stamp time (path ∷ touched) result = stamp time touched (insert path (some time) result)

-- The loop over the commits, newest first.
unfoldable pub lineage_loop :
    List StatusCommit → BTreeMap Text → BTreeMap (Option ℤ) → BTreeMap (Option ℤ)
unfolding touched_paths stamp apply_rename_aliases
lineage_loop [] aliases result = result
lineage_loop (commit ∷ commits) aliases result =
    lineage_loop commits (apply_rename_aliases aliases (some commit))
      (stamp commit.timestamp (touched_paths commit.changes aliases) result)

unfoldable pub unseen : List Text → BTreeMap (Option ℤ)
unseen [] = []
unseen (p ∷ ps) = insert p none (unseen ps)

unfoldable pub first_seen_with_lineage : List Text → List StatusCommit → BTreeMap (Option ℤ)
unfolding lineage_loop unseen identity_aliases
first_seen_with_lineage tracked_paths commits =
    lineage_loop commits (identity_aliases tracked_paths) (unseen tracked_paths)

-- The two maps of `first_seen_exact`.
pub record Seen : Type 0 where
  pub appearances : BTreeMap ℤ
  pub fallbacks : BTreeMap ℤ

-- `status.starts_with('A')`.
abbrev pub is_addition : Text → Bool
is_addition [] = false
is_addition (c ∷ s) = c == b'A'

unfoldable pub exact_change : List Text → ℤ → StatusChange → Seen → Seen
exact_change tracked time (StatusChange.rename old new) seen =
    if member new tracked
    then record {
      appearances = insert new time seen.appearances;
      fallbacks = insert new time seen.fallbacks;
    }
    else seen
exact_change tracked time (StatusChange.copy old new) seen = seen
exact_change tracked time (StatusChange.path status path) seen =
    if member path tracked
    then record {
      appearances =
          if is_addition status then insert path time seen.appearances else seen.appearances;
      fallbacks = insert path time seen.fallbacks;
    }
    else seen

unfoldable pub exact_changes : List Text → ℤ → List StatusChange → Seen → Seen
unfolding exact_change
exact_changes tracked time [] seen = seen
exact_changes tracked time (change ∷ changes) seen =
    exact_changes tracked time changes (exact_change tracked time change seen)

unfoldable pub exact_commits : List Text → List StatusCommit → Seen → Seen
unfolding exact_changes
exact_commits tracked [] seen = seen
exact_commits tracked (commit ∷ commits) seen =
    exact_commits tracked commits (exact_changes tracked commit.timestamp commit.changes seen)

unfoldable pub exact_result : List Text → Seen → BTreeMap (Option ℤ)
exact_result [] seen = []
exact_result (path ∷ paths) seen =
    insert path (or_else (lookup path seen.appearances) (lookup path seen.fallbacks))
      (exact_result paths seen)

unfoldable pub first_seen_exact : List Text → List StatusCommit → BTreeMap (Option ℤ)
unfolding exact_commits exact_result
first_seen_exact tracked_paths commits =
    exact_result tracked_paths
      (exact_commits tracked_paths commits (record { appearances = []; fallbacks = [] }))

abbrev pub exact_path : List Text → List Text → Option Text
exact_path [] tracked = none
exact_path (path ∷ []) tracked = if member path tracked then some path else none
exact_path (old ∷ new ∷ rest) tracked =
    if member new tracked then some new else if member old tracked then some old else none

abbrev pub lineage_path : List Text → BTreeMap Text → Option Text
lineage_path [] aliases = none
lineage_path (path ∷ []) aliases = lookup path aliases
lineage_path (old ∷ new ∷ rest) aliases = or_else (lookup new aliases) (lookup old aliases)

unfoldable pub map_numstat_exact : NumstatEntry → List Text → Option Text
map_numstat_exact entry tracked = exact_path entry.paths tracked

unfoldable pub map_numstat_with_lineage : NumstatEntry → BTreeMap Text → Option Text
map_numstat_with_lineage entry aliases = lineage_path entry.paths aliases
