-- ===== src/Artifact/Disk.antt =====
-- The directory that src/advice/artifact/persistence.rs writes to, and its calls of the file system.
-- Each call succeeds, fails or is cut off by the end of the process, and each may get part of the
-- way: these outcomes are a list that the calls take from. What a call did before the process ended
-- stays. The lock lets one writer in at a time, so that there is one temporary directory of each
-- kind.
use git_slop.Base.{
  ℕ, zero, suc, Bool, true, false, Option, none, some, List, [], ◌∷◌, if◌then◌else◌, Text,
}

-- The two files of an artifact's directory.
pub record Pair : Type 0 where
  pub json : Option Text
  pub markdown : Option Text

pub data File : Type 0 where
  json_file markdown_file : File

pub data Place : Type 0 where
  run_place latest_place : Place

pub record Disk : Type 0 where
  pub latest : Option Pair
  pub backup : Option Pair
  pub runs : List (Text × Pair)
  pub run_temporary : Option Pair
  pub latest_temporary : Option Pair

-- The number says how far the call came.
pub data Outcome : Type 0 where
  succeeds : Outcome
  fails dies : ℕ → Outcome

-- When the list is used up, calls succeed.
pub record World : Type 0 where
  pub disk : Disk
  pub outcomes : List Outcome

-- `failed` is an error that is returned; after `died` nothing runs.
pub data Ending (A : Type 0) : Type 0 where
  done : A → Ending A
  failed died : Ending A

abbrev pub M : Type 0 → Type 0
M A = World → World × Ending A

abbrev pub continue : {A B : Type 0} → World × Ending A → (A → M B) → World × Ending B
continue (w, done a) f = f a w
continue (w, failed) f = (w, failed)
continue (w, died) f = (w, died)

infixl 5 ◌>>=◌ ◌>>◌
abbrev pub ◌>>=◌ : {A B : Type 0} → M A → (A → M B) → M B
◌>>=◌ m f w = continue (m w) f

abbrev pub ◌>>◌ : {B : Type 0} → M (Unit {0}) → M B → M B
◌>>◌ m k w = continue (m w) (λ _. k)

abbrev pub pure : M (Unit {0})
pure w = (w, done tt)

abbrev pub bail : M (Unit {0})
bail w = (w, failed)

abbrev pub panic : M (Unit {0})
panic w = (w, died)

-- `let _ = m;`.
abbrev pub ignored : World × Ending (Unit {0}) → World × Ending (Unit {0})
ignored (w, done a) = (w, done a)
ignored (w, failed) = (w, done tt)
ignored (w, died) = (w, died)

abbrev pub ignore : M (Unit {0}) → M (Unit {0})
ignore m w = ignored (m w)

-- `if let Err(error) = m { handler; return Err(error) }`, and a value that is dropped on return.
abbrev pub handled : World × Ending (Unit {0}) → M (Unit {0}) → World × Ending (Unit {0})
handled (w, done a) h = (w, done a)
handled (w, failed) h = continue (h w) (λ _. bail)
handled (w, died) h = (w, died)

abbrev pub on_error : M (Unit {0}) → M (Unit {0}) → M (Unit {0})
on_error m h w = handled (m w) h

abbrev pub observe : (Disk → M (Unit {0})) → M (Unit {0})
observe f w = f w.disk w

-- What a call leaves: `whole` is none where the call is refused.
abbrev pub finish : Option Disk → List Outcome → Disk → World × Ending (Unit {0})
finish none rest d = (record { disk = d; outcomes = rest }, failed)
finish (some after) rest d = (record { disk = after; outcomes = rest }, done tt)

abbrev pub call_with :
    (ℕ → Disk → Disk) → (Disk → Option Disk) → List Outcome → Disk → World × Ending (Unit {0})
call_with partial whole [] d = finish (whole d) [] d
call_with partial whole (succeeds ∷ rest) d = finish (whole d) rest d
call_with partial whole (fails n ∷ rest) d =
    (record { disk = partial n d; outcomes = rest }, failed)
call_with partial whole (dies n ∷ rest) d = (record { disk = partial n d; outcomes = rest }, died)

unfoldable pub call : (ℕ → Disk → Disk) → (Disk → Option Disk) → M (Unit {0})
call partial whole w = call_with partial whole w.outcomes w.disk

-- A call that leaves the disk alone unless it succeeds.
abbrev pub atomic : (Disk → Option Disk) → M (Unit {0})
atomic whole = call (λ n d. d) whole

-- A call of which only its success matters: a directory that is made or synced, the lock.
abbrev pub touch : M (Unit {0})
touch = atomic some

abbrev pub set_file : File → Option Text → Pair → Pair
set_file json_file content p = record p { json = content }
set_file markdown_file content p = record p { markdown = content }

abbrev pub update : (Pair → Pair) → Option Pair → Option Pair
update f none = none
update f (some p) = some (f p)

abbrev pub in_temporary : Place → (Pair → Pair) → Disk → Disk
in_temporary run_place f d = record d { run_temporary = update f d.run_temporary }
in_temporary latest_place f d = record d { latest_temporary = update f d.latest_temporary }

abbrev pub no_files : Pair
no_files = record { json = none; markdown = none }

-- A removal of a directory that stopped on its way.
abbrev pub partly_removed : ℕ → Pair → Pair
partly_removed zero p = p
partly_removed (suc zero) p = record p { json = none }
partly_removed (suc (suc n)) p = no_files

abbrev pub exists : Option Pair → Bool
exists none = false
exists (some p) = true

abbrev pub is_absent : Option Text → Bool
is_absent none = true
is_absent (some t) = false

-- A directory may be renamed onto one that is empty or not there.
abbrev pub is_free : Option Pair → Bool
is_free none = true
is_free (some p) = if is_absent p.json then is_absent p.markdown else false
