-- ===== src/Artifact/Write.antt =====
-- src/advice/artifact/persistence.rs: `write_artifacts` with its recovery of what an earlier writer
-- left. Printing the artifact as JSON is done before; a panic is a death of the process.
use git_slop.Base.{
  ℕ, Bool, true, false, Option, none, some, List, [], ◌∷◌, ◌++◌, map, ltb, ◌==◌, ◌||◌,
  if◌then◌else◌, length, take, Text, codes, lookup,
}
use git_slop.Artifact.Disk.{
  Pair, File, json_file, markdown_file, Place, run_place, latest_place, Disk, M, ◌>>◌, pure, bail,
  panic, ignore, on_error, observe, call, atomic, touch, set_file, update, in_temporary, no_files,
  partly_removed, exists, is_free,
}

-- The artifact by the two fields that are read of it and its text.
pub record AdviceRun : Type 0 where
  pub response_sha256 : Option Text
  pub generated_at : Option Text
  pub artifact : Text
  pub markdown : Text

-- The file is created first, and removed again when it cannot be written.
unfoldable pub write_private_file : Place → File → Text → M (Unit {0})
unfolding call
write_private_file place file text = do
  atomic (λ d. some (in_temporary place (set_file file (some [])) d))
  on_error
      (call (λ n d. in_temporary place (set_file file (some (take n text))) d)
        (λ d. some (in_temporary place (set_file file (some text)) d)))
      (ignore (atomic (λ d. some (in_temporary place (set_file file none) d))))

unfoldable pub write_pair : Place → AdviceRun → M (Unit {0})
unfolding write_private_file
write_pair place run = do
  touch
  write_private_file place json_file (run.artifact ++ 10 ∷ [])
  on_error (write_private_file place markdown_file run.markdown)
      (ignore (atomic (λ d. some (in_temporary place (set_file json_file none) d))))
  touch

unfoldable pub remove_backup : M (Unit {0})
unfolding call
remove_backup =
    call (λ n d. record d { backup = update (partly_removed n) d.backup })
      (λ d. some (record d { backup = none }))

abbrev pub backup_to_latest : Disk → Option Disk
backup_to_latest d =
    if is_free d.latest then some (record d { latest = d.backup; backup = none }) else none

abbrev pub latest_to_backup : Disk → Option Disk
latest_to_backup d =
    if is_free d.backup then some (record d { backup = d.latest; latest = none }) else none

abbrev pub temporary_to_latest : Disk → Option Disk
temporary_to_latest d =
    if is_free d.latest
    then some (record d { latest = d.latest_temporary; latest_temporary = none })
    else none

-- What was written takes its place among the runs.
abbrev pub add_run : Text → Option Pair → List (Text × Pair) → List (Text × Pair)
add_run id none runs = runs
add_run id (some p) runs = (id, p) ∷ runs

abbrev pub temporary_to_runs : Text → Disk → Option Disk
temporary_to_runs id d =
    some (record d { runs = add_run id d.run_temporary d.runs; run_temporary = none })

abbrev pub make_temporary : Place → Disk → Option Disk
make_temporary run_place d = some (record d { run_temporary = some no_files })
make_temporary latest_place d = some (record d { latest_temporary = some no_files })

abbrev pub without_temporary : Place → Disk → Disk
without_temporary run_place d = record d { run_temporary = none }
without_temporary latest_place d = record d { latest_temporary = none }

unfoldable pub remove_temporary : Place → M (Unit {0})
unfolding call
remove_temporary place =
    call (λ n d. in_temporary place (partly_removed n) d) (λ d. some (without_temporary place d))

unfoldable pub remove_if : Bool → Place → M (Unit {0})
unfolding remove_temporary
remove_if true place = remove_temporary place
remove_if false place = pure

abbrev pub temporary_of : Place → Disk → Option Pair
temporary_of run_place d = d.run_temporary
temporary_of latest_place d = d.latest_temporary

-- The directory is read, and what has the prefix of a temporary is removed.
unfoldable pub remove_stale_advice_temporaries : Place → M (Unit {0})
unfolding remove_if
remove_stale_advice_temporaries place = do
  touch
  observe (λ d. remove_if (exists (temporary_of place d)) place)

unfoldable pub recover_backup : Bool → Bool → M (Unit {0})
unfolding call remove_backup
recover_backup false latest = pure
recover_backup true true = remove_backup
recover_backup true false = atomic backup_to_latest

unfoldable pub recover_advice_state : M (Unit {0})
unfolding recover_backup remove_stale_advice_temporaries
recover_advice_state = do
  observe (λ d. recover_backup (exists d.backup) (exists d.latest))
  remove_stale_advice_temporaries latest_place
  remove_stale_advice_temporaries run_place
  touch
  touch

abbrev pub dashed : ℕ → ℕ
dashed c = if c == b':' || c == b'+' then b'-' else c

abbrev pub generated_or_unknown : Option Text → Text
generated_or_unknown none = codes "unknown"
generated_or_unknown (some t) = t

abbrev pub run_id : AdviceRun → Text → Text
run_id run digest =
    map dashed (generated_or_unknown run.generated_at) ++ codes "-" ++ take 16 digest

-- A temporary is removed when its writer returns with an error.
unfoldable pub publish_run : AdviceRun → Text → M (Unit {0})
unfolding call write_pair remove_temporary
publish_run run id = do
  atomic (make_temporary run_place)
  on_error (do write_pair run_place run; atomic (temporary_to_runs id))
      (ignore (remove_temporary run_place))
  touch

unfoldable pub set_aside : Bool → M (Unit {0})
unfolding call
set_aside false = pure
set_aside true = do atomic latest_to_backup; touch

unfoldable pub put_back : Bool → M (Unit {0})
unfolding call
put_back false = pure
put_back true = ignore (atomic backup_to_latest)

unfoldable pub discard_backup : Bool → M (Unit {0})
unfolding call remove_backup
discard_backup false = pure
discard_backup true = do remove_backup; touch

unfoldable pub publish_latest : AdviceRun → M (Unit {0})
unfolding write_pair set_aside put_back discard_backup remove_temporary
publish_latest run = do
  atomic (make_temporary latest_place)
  on_error
      (do
        write_pair latest_place run
        observe (λ d. set_aside (exists d.latest))
        on_error (atomic temporary_to_latest)
            (do observe (λ d. put_back (exists d.backup)); ignore touch))
      (ignore (remove_temporary latest_place))
  touch
  observe (λ d. discard_backup (exists d.backup))

unfoldable pub unless_exists : Option Pair → M (Unit {0}) → M (Unit {0})
unless_exists none m = m
unless_exists (some p) m = bail

-- The digest is hexadecimal; the cut panics where it has fewer than sixteen digits.
unfoldable pub write_run : AdviceRun → Text → M (Unit {0})
unfolding recover_advice_state publish_run publish_latest unless_exists lookup
write_run run digest = if ltb (length digest) 16 then panic else do
  touch
  recover_advice_state
  observe (λ d.
      unless_exists (lookup (run_id run digest) d.runs)
        (do publish_run run (run_id run digest); publish_latest run))

unfoldable pub write_digested : Option Text → AdviceRun → M (Unit {0})
unfolding write_run
write_digested none run = bail
write_digested (some digest) run = write_run run digest

-- The directory and the lock come first.
unfoldable pub write_artifacts : AdviceRun → M (Unit {0})
unfolding write_digested
write_artifacts run = do touch; touch; touch; write_digested run.response_sha256 run
