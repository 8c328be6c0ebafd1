-- ===== src/Examples/Artifact.antt =====
-- A writer that replaces an artifact: undisturbed, and cut off between its two renames.
use git_slop.Base.{
  ◌≡◌, refl, ◌++◌, none, some, List, [], ◌∷◌, Text, codes, replicate, lookup, text_eq,
}
use git_slop.Artifact.Disk.{Disk, Outcome, succeeds, fails, dies, done, call}
use git_slop.Artifact.Write.{AdviceRun, write_artifacts}
use git_slop.Artifact.Calls.{Post, at}
use git_slop.Artifact.Staging.{written}
use git_slop.Artifact.Atomic.{disk_of}
use git_slop.Artifact.Safety.{Replaced, Aftermath, write_artifacts-IsAtomic}
use git_slop.Artifact.Writers.{
  nothing, attempt, IsSaved, Attempts-IsSaved, write_artifacts_completes,
}

abbrev run_of : Text → AdviceRun
run_of text = record {
  response_sha256 = some (replicate 64 b'a');
  generated_at = some text;
  artifact = text;
  markdown = codes "# Advice";
}

abbrev first : AdviceRun
first = run_of (codes "1:0")

abbrev second : AdviceRun
second = run_of (codes "2+0")

abbrev saved : Disk
saved =
    disk_of (some (written first)) none ((codes "1-0-aaaaaaaaaaaaaaaa", written first) ∷ []) none
      none

-- The process ends at the rename that would put the new artifact in its place.
abbrev interrupted : List Outcome
interrupted = replicate 26 succeeds ++ dies 0 ∷ []

-- The same rename fails, and so does the one that would put the old artifact back.
abbrev refused : List Outcome
refused = replicate 26 succeeds ++ fails 0 ∷ fails 0 ∷ []

abbrev cut_off : Disk
cut_off =
    disk_of none (some (written first))
      ((codes "2-0-aaaaaaaaaaaaaaaa", written second) ∷ saved.runs) none (some (written second))

is_cut_off : (write_artifacts second (at saved interrupted)).0.disk ≡ cut_off
unfolding write_artifacts call lookup text_eq
is_cut_off = refl

is_refused :
    (write_artifacts second (at saved refused)).0.disk ≡ record cut_off { latest_temporary = none }
unfolding write_artifacts call lookup text_eq
is_refused = refl

write_artifacts-IsAtomic_example :
    Post
      (Replaced second (codes "2-0-aaaaaaaaaaaaaaaa") saved)
      (Aftermath (some (written first)) saved.runs (codes "2-0-aaaaaaaaaaaaaaaa") (written second))
      (write_artifacts second (at saved interrupted))
write_artifacts-IsAtomic_example = write_artifacts-IsAtomic second saved interrupted

first_written : (write_artifacts first (at (disk_of none none [] none none) [])).0.disk ≡ saved
unfolding write_artifacts call lookup
first_written = refl

Attempts-IsSaved_example : IsSaved cut_off (written first)
Attempts-IsSaved_example =
    Attempts-IsSaved (written first)
      (attempt (attempt nothing first [] first_written) second interrupted is_cut_off) refl

is_fresh : lookup (codes "3-0-aaaaaaaaaaaaaaaa") cut_off.runs ≡ none
unfolding lookup text_eq
is_fresh = refl

write_artifacts_completes_example : write_artifacts (run_of (codes "3:0")) (at cut_off []) ≡ (
  at
      (disk_of
        (some (written (run_of (codes "3:0"))))
        none
        ((codes "3-0-aaaaaaaaaaaaaaaa", written (run_of (codes "3:0"))) ∷ cut_off.runs)
        none
        none)
      [],
  done tt,
)
write_artifacts_completes_example =
    write_artifacts_completes (run_of (codes "3:0")) (replicate 64 b'a') cut_off refl refl is_fresh
