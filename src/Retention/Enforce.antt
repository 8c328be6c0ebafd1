-- ===== src/Retention/Enforce.antt =====
-- src/report/write/storage.rs: `retained_directory_size` and `enforce_retention`. What the file
-- system answers is data: the listing of a directory ends where reading it fails, and what removing
-- a run leaves of it is an argument.
use git_slop.Base.{
  ℕ, suc, Bool, ◌&&◌, ◌||◌, Option, none, some, List, [], ◌∷◌, ltb, leb, ◌==◌, if◌then◌else◌, Text,
  text_lt, sort_by, saturating_add, Result, ok, err, ◌>>=◌,
}

-- What `read_dir` yields in turn: the size of a file, or the listing of a directory.
pub data Listing : Type 0 where
  no_more unreadable : Listing
  file : ℕ → Listing → Listing
  directory : Listing → Listing → Listing

pub data RetentionError : Type 0 where
  read_failed remove_failed : RetentionError

-- The loop, with the bytes that are counted before it.
unfoldable pub retained_directory_size : ℕ → Listing → Result RetentionError ℕ
unfolding saturating_add
retained_directory_size bytes no_more = ok bytes
retained_directory_size bytes unreadable = err RetentionError.read_failed
retained_directory_size bytes (file length rest) =
    retained_directory_size (saturating_add bytes length) rest
retained_directory_size bytes (directory inner rest) = do
  length ← retained_directory_size 0 inner
  retained_directory_size (saturating_add bytes length) rest

-- An entry of the runs: its name, whether it is known to be a directory, and what is in it.
pub record RunEntry : Type 0 where
  pub file_name : Text
  pub is_directory : Bool
  pub listing : Listing

pub record Run : Type 0 where
  pub file_name : Text
  pub listing : Listing
  pub bytes : ℕ

abbrev pub run_with : RunEntry → ℕ → Run
run_with entry bytes = record {
  file_name = entry.file_name;
  listing = entry.listing;
  bytes = bytes;
}

unfoldable pub sized_runs : List RunEntry → Result RetentionError (List Run)
unfolding retained_directory_size
sized_runs [] = ok []
sized_runs (entry ∷ entries) =
    let rest = sized_runs entries in
    let with_entry = (do
      bytes ← retained_directory_size 0 entry.listing
      runs ← rest
      ok (run_with entry bytes ∷ runs)) in
    if entry.is_directory then with_entry else rest

-- `Reverse(entry.file_name())`.
abbrev pub newer : Run → Run → Bool
newer left right = text_lt right.file_name left.file_name

pub data Removal : Type 0 where
  removed : Removal
  left_over : Listing → Removal

-- The runs that are left, and how it ended.
pub record Retention : Type 0 where
  pub left : List Run
  pub result : Result RetentionError (Unit {0})

abbrev pub keep_run : Run → Retention → Retention
keep_run run rest = record { left = run ∷ rest.left; result = rest.result }

abbrev pub after_removal : Run → List Run → Removal → Retention → Retention
after_removal run runs removed rest = rest
after_removal run runs (left_over listing) rest = record {
  left = record run { listing = listing } ∷ runs;
  result = err RetentionError.remove_failed;
}

unfoldable pub retains : ℕ → ℕ → ℕ → ℕ → Run → Bool
unfolding saturating_add
retains keep max_bytes index retained_bytes run =
    index == 0 && ltb 0 keep
    || (ltb index keep && leb (saturating_add retained_bytes run.bytes) max_bytes)

unfoldable pub retain_runs : (Run → Removal) → ℕ → ℕ → ℕ → ℕ → List Run → Retention
unfolding retains saturating_add
retain_runs remove keep max_bytes index retained_bytes [] = record { left = []; result = ok tt }
retain_runs remove keep max_bytes index retained_bytes (run ∷ runs) =
    let kept =
      retain_runs remove keep max_bytes (suc index) (saturating_add retained_bytes run.bytes)
        runs in
    let without = retain_runs remove keep max_bytes (suc index) retained_bytes runs in
    if retains keep max_bytes index retained_bytes run
    then keep_run run kept
    else after_removal run runs (remove run) without

-- An error is before the first removal.
unfoldable pub enforce_retention :
    (Run → Removal) → Option (List RunEntry) → ℕ → ℕ → Result RetentionError Retention
unfolding sized_runs retain_runs
enforce_retention remove none keep max_bytes = err RetentionError.read_failed
enforce_retention remove (some entries) keep max_bytes = do
  runs ← sized_runs entries
  ok (retain_runs remove keep max_bytes 0 0 (sort_by newer runs))
