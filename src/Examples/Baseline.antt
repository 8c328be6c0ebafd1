-- ===== src/Examples/Baseline.antt =====
-- A baseline of the grandparent, whose scan fails after the configuration was copied.
use git_slop.Base.{◌≡◌, refl, true, false, some, codes, err, contains, starts_with}
use git_slop.Baseline.{
  succeeded, Outcomes, CreateError, create, nothing, safe_revision, is_operator, is_base_char,
}

abbrev failing : Outcomes
failing = record {
  rev_parse = some (codes "0123456789abcdef0123456789abcdef01234567");
  clock = true;
  create_root = true;
  worktree_add = succeeded;
  head_config_is_file = true;
  create_config_dir = true;
  copy_config = true;
  run_find = false;
  worktree_remove = true;
  remove_root = true;
}

scan_fails : create failing (codes "HEAD~2") ≡ (nothing, err CreateError.scan_failed)
unfolding create is_operator is_base_char contains starts_with
scan_fails = refl

range_is_refused : safe_revision (codes "HEAD..main") ≡ false
unfolding safe_revision contains starts_with
range_is_refused = refl
