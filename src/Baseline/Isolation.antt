-- ===== src/Baseline/Isolation.antt =====
-- The references of `safe_revision`, and what `create` and `drop` leave.
use git_slop.Base.{
  ℕ, ◌≤◌, ◌≡◌, Bool, true, false, ◌||◌, some, length, all, Text, codes, contains, is_empty, Result,
  ok, err,
}
use git_slop.Baseline.{
  is_operator, is_base_char, CreateError, World, Outcomes, MaterializedBaseline, drop, nothing,
  is_commit,
}

abbrev pub is_reference_char : ℕ → Bool
is_reference_char c = is_operator c || is_base_char c

-- A bounded reference: 1 to 200 characters, none of which has a meaning to a shell, no range, and
-- no operator in front.
pub record IsBounded (reference : Text) : Type 0 where
  pub not_empty : is_empty reference ≡ false
  pub short : length reference ≤ 200
  pub no_range : contains reference (codes "..") ≡ false
  pub characters : all is_reference_char reference ≡ true

abbrev pub only_root : World
only_root = record { temporary_root = true; worktree = false }

-- What a call leaves behind: an error nothing, but for the empty directory where git could not be
-- run to add the worktree; a baseline its directory and its worktree, which
-- dropping it removes, of a full commit that git resolved.
abbrev pub Isolated : Outcomes → World → Result CreateError MaterializedBaseline → Type 0
Isolated o world (err CreateError.git_not_run) = world ≡ only_root
Isolated o world (err e) = world ≡ nothing
Isolated o world (ok baseline) =
    (world.temporary_root ≡ true)
    × (world.worktree ≡ true)
    × (drop o world ≡ nothing)
    × (o.rev_parse ≡ some baseline.revision)
    × (is_commit baseline.revision ≡ true)
    × (baseline.copied_head_config ≡ o.head_config_is_file)

-- The world is the one to judge, where the result is known.
abbrev pub IsIsolated : Outcomes → World × Result CreateError MaterializedBaseline → Type 0
IsIsolated o (world, result) = Isolated o world result

module _ (o : Outcomes) (removed : o.worktree_remove ≡ true) (cleared : o.remove_root ≡ true) where
  abbrev made : World
  made = record { temporary_root = true; worktree = true }
