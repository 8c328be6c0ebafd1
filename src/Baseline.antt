-- ===== src/Baseline.antt =====
-- src/baseline.rs: the report of a base revision, made in a worktree of its own. The processes, the
-- file system and the scan answer whether they succeed; a call that fails leaves nothing of its own.
use git_slop.Base.{
  ℕ, ◌≤◌, ◌≡◌, Bool, true, false, not, ◌&&◌, ◌||◌, Option, none, some, List, [], ◌∷◌, ◌==◌, ltb,
  if◌then◌else◌, length, all, Text, codes, contains, is_empty, is_digit, is_alphanumeric,
  is_hex_digit, Result, ok, err,
}
pub mod Isolation

unfoldable pub is_operator : ℕ → Bool
is_operator c = c == b'~' || c == b'^'

unfoldable pub is_base_char : ℕ → Bool
is_base_char c = is_alphanumeric c || c == b'.' || c == b'_' || c == b'/' || c == b'-'

-- The loop over the characters: whether this is the first, and the two flags.
unfoldable pub revision_loop : Bool → Bool → Bool → Text → Bool
unfolding is_operator is_base_char
revision_loop first base_ended previous_operator [] = true
revision_loop first base_ended previous_operator (c ∷ s) =
    let after_operator = revision_loop false true true s in
    let after_digit = revision_loop false base_ended false s in
    let after_base = revision_loop false base_ended previous_operator s in
    if is_operator c
    then (if first || previous_operator then false else after_operator)
    else if base_ended
    then (if not (is_digit c) then false else after_digit)
    else if not (is_base_char c)
    then false
    else after_base

-- An accepted reference is ASCII, so that its bytes are as many as its characters.
unfoldable pub safe_revision : Text → Bool
unfolding revision_loop
safe_revision reference =
    if is_empty reference || ltb 200 (length reference) || contains reference (codes "..")
    then false
    else revision_loop true false false reference

pub data CreateError : Type 0 where
  unsafe_revision git_failed not_a_commit clock_before_epoch : CreateError
  directory_failed git_not_run worktree_failed config_failed scan_failed : CreateError

-- What `output()` of a command gives: an error of its own where git cannot be run.
pub data GitCall : Type 0 where
  not_run exited_with_error succeeded : GitCall

-- What is left of the baseline: its temporary directory, and the worktree that git knows of.
pub record World : Type 0 where
  pub temporary_root : Bool
  pub worktree : Bool

pub record Outcomes : Type 0 where
  pub rev_parse : Option Text
  pub clock : Bool
  pub create_root : Bool
  pub worktree_add : GitCall
  pub head_config_is_file : Bool
  pub create_config_dir : Bool
  pub copy_config : Bool
  pub run_find : Bool
  pub worktree_remove : Bool
  pub remove_root : Bool

-- The paths, which follow from the repository and a fresh name, are left out.
pub record MaterializedBaseline : Type 0 where
  pub revision : Text
  pub copied_head_config : Bool

-- `Drop`: both removals are tried, and their errors are not looked at.
unfoldable pub drop : Outcomes → World → World
drop o world = record {
  temporary_root = world.temporary_root && not o.remove_root;
  worktree = world.worktree && not o.worktree_remove;
}

abbrev pub Created : Type 0
Created = World × Result CreateError MaterializedBaseline

unfoldable pub scan : Outcomes → Bool → Text → World → Created
unfolding drop
scan o copied revision world =
    if o.run_find
    then (world, ok (record { revision = revision; copied_head_config = copied }))
    else (drop o world, err CreateError.scan_failed)

-- An error that returns early drops the baseline, too.
unfoldable pub copy_head_config : Outcomes → Text → World → Created
unfolding scan
copy_head_config o revision world =
    let with_config = scan o true revision world in
    let without = scan o false revision world in
    if not o.head_config_is_file
    then without
    else if not o.create_config_dir || not o.copy_config
    then (drop o world, err CreateError.config_failed)
    else with_config

-- The `?` on the output returns with the directory in place; a git that fails has it removed.
unfoldable pub after_worktree_add : GitCall → Outcomes → Text → Created
unfolding copy_head_config
after_worktree_add not_run o revision =
    (record { temporary_root = true; worktree = false }, err CreateError.git_not_run)
after_worktree_add exited_with_error o revision = (
  record { temporary_root = not o.remove_root; worktree = false },
  err CreateError.worktree_failed,
)
after_worktree_add succeeded o revision =
    copy_head_config o revision (record { temporary_root = true; worktree = true })

unfoldable pub add_worktree : Outcomes → Text → Created
unfolding after_worktree_add
add_worktree o revision = after_worktree_add o.worktree_add o revision

abbrev pub is_commit : Text → Bool
is_commit revision = length revision == 40 && all is_hex_digit revision

abbrev pub nothing : World
nothing = record { temporary_root = false; worktree = false }

unfoldable pub create_at : Outcomes → Option Text → Created
unfolding add_worktree
create_at o none = (nothing, err CreateError.git_failed)
create_at o (some revision) =
    let added = add_worktree o revision in
    if not (is_commit revision)
    then (nothing, err CreateError.not_a_commit)
    else if not o.clock
    then (nothing, err CreateError.clock_before_epoch)
    else if not o.create_root
    then (nothing, err CreateError.directory_failed)
    else added

unfoldable pub create : Outcomes → Text → Created
unfolding create_at safe_revision
create o reference =
    if not (safe_revision reference)
    then (nothing, err CreateError.unsafe_revision)
    else create_at o o.rev_parse
