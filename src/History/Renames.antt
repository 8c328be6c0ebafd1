-- ===== src/History/Renames.antt =====
-- The alias map as the function of a name that it stands for, and the first-seen times by it.
use git_slop.Base.{
  ◌≡◌, refl, ap, ◌∙◌, Bool, true, false, ◌||◌, Option, none, some, List, [], ◌∷◌, arith,
  if◌then◌else◌, Text, text_eq, text_eq_iff, ℤ, BTreeMap, lookup, insert, lookup-insert, member,
  member-insert_key,
}
use git_slop.History.{StatusChange, StatusCommit}
use git_slop.History.Lineage.{
  or_else, identity_aliases, alias_to, apply_rename_change, apply_rename_changes,
  apply_rename_aliases, mapped_paths_for_status_change, touch, touched_paths, stamp, lineage_loop,
  unseen, first_seen_with_lineage,
}

-- The path that a name denotes, as a function: a map without its representation.
abbrev Denotes : Type 0
Denotes = Text → Option Text

-- Now, exactly the tracked paths denote, and each denotes itself.
abbrev pub now : List Text → Denotes
now tracked p = if member p tracked then some p else none

-- Before a rename, the old name denotes what the new name denotes after it, if that is anything;
-- the new name is not taken away.
abbrev pub before_change : StatusChange → Denotes → Denotes
before_change (StatusChange.rename old new) d p =
    if text_eq old p then or_else (d new) (d p) else d p
before_change (StatusChange.copy old new) d p = d p
before_change (StatusChange.path status path) d p = d p

abbrev pub before_changes : List StatusChange → Denotes → Denotes
before_changes [] d = d
before_changes (change ∷ changes) d = before_changes changes (before_change change d)

-- The path that a change touches.
abbrev pub touches : StatusChange → Denotes → Option Text
touches (StatusChange.rename old new) d = or_else (d new) (d old)
touches (StatusChange.copy old new) d = d new
touches (StatusChange.path status path) d = d path

abbrev pub is_path : Text → Option Text → Bool
is_path p none = false
is_path p (some q) = text_eq q p

abbrev pub touched_by : Text → List StatusChange → Denotes → Bool
touched_by p [] d = false
touched_by p (change ∷ changes) d = is_path p (touches change d) || touched_by p changes d

-- The time of the oldest commit that touches the path, the commits listed newest first.
abbrev pub oldest_touch : Text → List StatusCommit → Denotes → Option ℤ
oldest_touch p [] d = none
oldest_touch p (commit ∷ commits) d =
    or_else (oldest_touch p commits (before_changes commit.changes d))
      (if touched_by p commit.changes d then some commit.timestamp else none)

-- A map stands for a function if it has the same lookups.
abbrev StandsFor : BTreeMap Text → Denotes → Type 0
StandsFor aliases d = (p : Text) → lookup p aliases ≡ d p

identity_aliases-now : (tracked : List Text) → StandsFor (identity_aliases tracked) (now tracked)
unfolding identity_aliases member
identity_aliases-now [] p = unfold lookup in refl
identity_aliases-now (q ∷ qs) p =
    rw lookup-insert (ground (arith, text_eq_iff q p, identity_aliases-now qs p))

apply_rename_change-before :
    (change : StatusChange) (aliases : BTreeMap Text) (d : Denotes)
    → StandsFor aliases d
    → StandsFor (apply_rename_change aliases change) (before_change change d)
unfolding apply_rename_change
apply_rename_change-before (StatusChange.copy old new) aliases d h p = h p
apply_rename_change-before (StatusChange.path status path) aliases d h p = h p
apply_rename_change-before (StatusChange.rename old new) aliases d h p =
    rename (lookup new aliases) (h new)
  where
    rename :
        (o : Option Text)
        → o ≡ d new
        → lookup p (alias_to old o aliases) ≡ (if text_eq old p then or_else (d new) (d p) else d p)
    rename none e = ground (arith, h p)
    rename (some q) e = rw lookup-insert (ground (arith, h p))

apply_rename_changes-before :
    (changes : List StatusChange) (aliases : BTreeMap Text) (d : Denotes)
    → StandsFor aliases d
    → StandsFor (apply_rename_changes aliases changes) (before_changes changes d)
unfolding apply_rename_changes
apply_rename_changes-before [] aliases d h = h
apply_rename_changes-before (change ∷ changes) aliases d h =
    apply_rename_changes-before changes (apply_rename_change aliases change)
      (before_change change d) (apply_rename_change-before change aliases d h)

mapped-touches :
    (change : StatusChange) (aliases : BTreeMap Text) (d : Denotes)
    → StandsFor aliases d
    → mapped_paths_for_status_change change aliases ≡ touches change d
unfolding mapped_paths_for_status_change
mapped-touches (StatusChange.rename old new) aliases d h = rw (h new) (rw (h old))
mapped-touches (StatusChange.copy old new) aliases d h = h new
mapped-touches (StatusChange.path status path) aliases d h = h path

member-touch :
    (p : Text) (o : Option Text) (touched : List Text)
    → member p (touch o touched) ≡ (is_path p o || member p touched)
member-touch p none touched = refl
member-touch p (some q) touched = member-insert_key q p touched

member-touched_paths :
    (p : Text) (changes : List StatusChange) (aliases : BTreeMap Text) (d : Denotes)
    → StandsFor aliases d
    → member p (touched_paths changes aliases) ≡ touched_by p changes d
unfolding touched_paths
member-touched_paths p [] aliases d h = unfold member in refl
member-touched_paths p (change ∷ changes) aliases d h =
    rw member-touch
      (rw (mapped-touches change aliases d h) (rw (member-touched_paths p changes aliases d h)))

lookup-stamp :
    (p : Text) (time : ℤ) (touched : List Text) (result : BTreeMap (Option ℤ))
    → lookup p (stamp time touched result)
      ≡ (if member p touched then some (some time) else lookup p result)
unfolding stamp member
lookup-stamp p time [] result = refl
lookup-stamp p time (q ∷ qs) result =
    rw (lookup-stamp p time qs (insert q (some time) result)) (rw lookup-insert (ground arith))

or_else_assoc : {A : Type 0} (a b c : Option A) → or_else a (or_else b c) ≡ or_else (or_else a b) c
or_else_assoc none b c = refl
or_else_assoc (some a) b c = refl

lookup-unseen :
    (p : Text) (tracked : List Text)
    → member p tracked ≡ true
    → lookup p (unseen tracked) ≡ some none
unfolding unseen member
lookup-unseen p [] h = cc
lookup-unseen p (q ∷ qs) h = rw lookup-insert (ground (arith, text_eq_iff q p, lookup-unseen p qs))

lookup-lineage_loop :
    (p : Text) (commits : List StatusCommit) (aliases : BTreeMap Text) (d : Denotes)
    (result : BTreeMap (Option ℤ)) (o : Option ℤ)
    → StandsFor aliases d
    → lookup p result ≡ some o
    → lookup p (lineage_loop commits aliases result) ≡ some (or_else (oldest_touch p commits d) o)
unfolding lineage_loop
lookup-lineage_loop p [] aliases d result o h k = k
lookup-lineage_loop p (commit ∷ commits) aliases d result o h k =
    lookup-lineage_loop p commits (apply_rename_aliases aliases (some commit))
      (before_changes commit.changes d)
      (stamp commit.timestamp (touched_paths commit.changes aliases) result)
      (or_else (if touched_by p commit.changes d then some commit.timestamp else none) o)
      (unfold apply_rename_aliases in apply_rename_changes-before commit.changes aliases d h)
      (lookup-stamp p commit.timestamp (touched_paths commit.changes aliases) result
        ∙ rw (member-touched_paths p commit.changes aliases d h)
            (rw k (by_touch (touched_by p commit.changes d))))
    ∙ ap some (or_else_assoc (oldest_touch p commits (before_changes commit.changes d)) _ o)
  where
    by_touch :
        (b : Bool)
        → (if b then some (some commit.timestamp) else some o)
          ≡ some (or_else (if b then some commit.timestamp else none) o)
    by_touch true = refl
    by_touch false = refl

-- With renames followed, every tracked path gets the time of the oldest commit that touches a name
-- that denotes it then, or none if no commit does. Newest first, a tracked path denotes itself, and
-- before a rename the old name denotes what the new one denotes after it; the new name goes on
-- denoting that before the rename, too, so that another file's commits under it count.
pub first_seen_with_lineage_lem :
    (tracked : List Text) (commits : List StatusCommit) (p : Text)
    → member p tracked ≡ true
    → lookup p (first_seen_with_lineage tracked commits)
      ≡ some (oldest_touch p commits (now tracked))
unfolding first_seen_with_lineage
first_seen_with_lineage_lem tracked commits p h =
    lookup-lineage_loop p commits (identity_aliases tracked) (now tracked) (unseen tracked) none
      (identity_aliases-now tracked) (lookup-unseen p tracked h)
    ∙ ap some (or_else-none (oldest_touch p commits (now tracked)))
  where
    or_else-none : (a : Option ℤ) → or_else a none ≡ a
    or_else-none none = refl
    or_else-none (some a) = refl
