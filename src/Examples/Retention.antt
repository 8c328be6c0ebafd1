-- ===== src/Examples/Retention.antt =====
-- Four runs, of which the oldest is one too many and the third is too large.
use git_slop.Base.{
  ◌≡◌, refl, true, false, some, List, [], ◌∷◌, codes, err, take, ok, saturating_add, sort_by,
  insert_by, text_lt,
}
use git_slop.Retention.Enforce.{
  no_more, file, directory, RunEntry, Run, run_with, newer, Removal, removed, left_over,
  RetentionError, Retention, sized_runs, retained_directory_size, retains, enforce_retention,
}
use git_slop.Retention.Newest.{IsRetained, enforce_retention-IsRetained, enforce_retention_newest}

abbrev small : RunEntry
small = record {
  file_name = codes "20260103T000000Z";
  is_directory = true;
  listing = file 30 (directory (file 10 no_more) no_more);
}

abbrev newest : RunEntry
newest = record small { file_name = codes "20260104T000000Z" }

abbrev large : RunEntry
large = record {
  file_name = codes "20260102T000000Z";
  is_directory = true;
  listing = file 900 no_more;
}

abbrev oldest : RunEntry
oldest = record small { file_name = codes "20260101T000000Z" }

abbrev note : RunEntry
note = record small { file_name = codes "README"; is_directory = false }

abbrev entries : List RunEntry
entries = oldest ∷ newest ∷ note ∷ large ∷ small ∷ []

abbrev removal : Run → Removal
removal run = removed

abbrev kept : Retention
kept = record { left = run_with newest 40 ∷ run_with small 40 ∷ []; result = ok tt }

two_kept : enforce_retention removal (some entries) 3 100 ≡ ok kept
unfolding enforce_retention retained_directory_size saturating_add sort_by insert_by text_lt retains
two_kept = refl

enforce_retention-IsRetained_example :
    (runs : List Run) × (sized_runs entries ≡ ok runs)
    × IsRetained 3 100 (sort_by newer runs) kept.left
enforce_retention-IsRetained_example =
    enforce_retention-IsRetained removal entries 3 100 two_kept refl

-- A removal that fails after the files of the directory.
abbrev failing : Run → Removal
failing run = left_over (directory no_more no_more)

abbrev stopped : Retention
stopped = record {
  left =
      run_with newest 40
      ∷ record (run_with small 40) { listing = directory no_more no_more }
      ∷ run_with large 900
      ∷ run_with oldest 40
      ∷ [];
  result = err RetentionError.remove_failed;
}

removal_failed : enforce_retention failing (some entries) 1 10 ≡ ok stopped
unfolding enforce_retention retained_directory_size saturating_add sort_by insert_by text_lt retains
removal_failed = refl

enforce_retention_newest_example :
    (runs : List Run) × (sized_runs entries ≡ ok runs)
    × (take 1 (sort_by newer runs) ≡ take 1 stopped.left)
enforce_retention_newest_example = enforce_retention_newest failing entries 0 10 removal_failed
