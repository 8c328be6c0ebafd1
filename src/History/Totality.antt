-- ===== src/History/Totality.antt =====
-- The fuel of both log parsers.
use mathlib.Core.Option
use git_slop.Base.{
  ℕ, zero, suc, ◌≤◌, ◌≡◌, refl, Bool, true, false, Option, none, some, List, [], ◌∷◌, arith,
  if◌then◌else◌, length, length-drop, Text, text_eq, split,
}
use git_slop.History.{StatusCommit, NumstatEntry, NumstatCommit}
use git_slop.History.Parsing.{read_header, commit_token}
use git_slop.History.Status.{read_changes, status_loop, parse_status_log}
use git_slop.History.Numstat.{read_entries, add_entry, numstat_loop, parse_numstat_log}

-- A parser loop returned a result.
abbrev Returns : {A : Type 0} → Option A → Type 0
Returns {A} o = (a : A) × (o ≡ some a)

Returns-map : {A B : Type 0} (f : A → B) (o : Option A) → Returns o → Returns (Option.map f o)
Returns-map f (some a) r = (f a, refl)
Returns-map f none r = absurd (cc (r.1))

Returns-if :
    {A : Type 0} (b : Bool) (x y : Option A) → Returns x → Returns y → Returns (if b then x else y)
Returns-if true x y p q = p
Returns-if false x y p q = q

length-read_header :
    (hash time name email : Text) (rest : List Text)
    → length (read_header hash time name email rest).1 ≤ length rest
unfolding read_header
length-read_header hash time name email rest = ground (arith, length-drop 2 rest)

length-read_changes : (ts : List Text) → length (read_changes ts).1 ≤ length ts
unfolding read_changes
length-read_changes [] = omega arith
length-read_changes (t ∷ []) = ground arith
length-read_changes (t ∷ a ∷ []) = ground (arith, length-read_changes (a ∷ []))
length-read_changes (t ∷ a ∷ b ∷ rest) = ground (
  arith,
  length-read_changes (a ∷ b ∷ rest),
  length-read_changes (b ∷ rest),
  length-read_changes rest,
)

length-add_entry :
    (e : Option NumstatEntry) (p : List NumstatEntry × List Text)
    → length (add_entry e p).1 ≡ length (p.1)
unfolding add_entry
length-add_entry none p = refl
length-add_entry (some e) p = refl

length-read_entries : (ts : List Text) → length (read_entries ts).1 ≤ length ts
unfolding read_entries
length-read_entries [] = omega arith
length-read_entries (t ∷ []) = grind (arith, length-add_entry)
length-read_entries (t ∷ a ∷ []) = grind (arith, length-add_entry, length-read_entries (a ∷ []))
length-read_entries (t ∷ a ∷ b ∷ rest) = grind (
  arith,
  length-add_entry,
  length-read_entries (a ∷ b ∷ rest),
  length-read_entries (b ∷ rest),
  length-read_entries rest,
)

status_loop_total : (fuel : ℕ) (ts : List Text) → length ts ≤ fuel → Returns (status_loop fuel ts)
unfolding status_loop
status_loop_total zero [] h = ([], refl)
status_loop_total zero (t ∷ ts) h = absurd (omega arith)
status_loop_total (suc fuel) [] h = ([], refl)
status_loop_total (suc fuel) (t ∷ []) h = status_loop_total fuel [] (omega arith)
status_loop_total (suc fuel) (t ∷ a ∷ []) h = status_loop_total fuel (a ∷ []) (omega arith)
status_loop_total (suc fuel) (t ∷ a ∷ b ∷ []) h = status_loop_total fuel (a ∷ b ∷ []) (omega arith)
status_loop_total (suc fuel) (t ∷ a ∷ b ∷ c ∷ []) h =
    status_loop_total fuel (a ∷ b ∷ c ∷ []) (omega arith)
status_loop_total (suc fuel) (t ∷ a ∷ b ∷ c ∷ d ∷ rest) h =
    let read = read_header a b c d rest in
    Returns-if (text_eq t commit_token) _ _
      (Returns-map _ _ (
        status_loop_total fuel (read_changes (read.1)).1
          (omega (arith, length-read_changes (read.1), length-read_header a b c d rest))))
      (status_loop_total fuel (a ∷ b ∷ c ∷ d ∷ rest) (omega arith))

numstat_loop_total : (fuel : ℕ) (ts : List Text) → length ts ≤ fuel → Returns (numstat_loop fuel ts)
unfolding numstat_loop
numstat_loop_total zero [] h = ([], refl)
numstat_loop_total zero (t ∷ ts) h = absurd (omega arith)
numstat_loop_total (suc fuel) [] h = ([], refl)
numstat_loop_total (suc fuel) (t ∷ []) h = numstat_loop_total fuel [] (omega arith)
numstat_loop_total (suc fuel) (t ∷ a ∷ []) h = numstat_loop_total fuel (a ∷ []) (omega arith)
numstat_loop_total (suc fuel) (t ∷ a ∷ b ∷ []) h =
    numstat_loop_total fuel (a ∷ b ∷ []) (omega arith)
numstat_loop_total (suc fuel) (t ∷ a ∷ b ∷ c ∷ []) h =
    numstat_loop_total fuel (a ∷ b ∷ c ∷ []) (omega arith)
numstat_loop_total (suc fuel) (t ∷ a ∷ b ∷ c ∷ d ∷ rest) h =
    let read = read_header a b c d rest in
    Returns-if (text_eq t commit_token) _ _
      (Returns-map _ _ (
        numstat_loop_total fuel (read_entries (read.1)).1
          (omega (arith, length-read_entries (read.1), length-read_header a b c d rest))))
      (numstat_loop_total fuel (a ∷ b ∷ c ∷ d ∷ rest) (omega arith))

-- On every text, well-formed or not, both parsers end and return their records: the fuel, the
-- number of tokens, is never used up before the tokens are.
pub parsers_total :
    (raw : Text)
    → ((commits : List StatusCommit) × (parse_status_log raw ≡ some commits))
      × ((commits : List NumstatCommit) × (parse_numstat_log raw ≡ some commits))
unfolding parse_status_log parse_numstat_log
parsers_total raw =
    let tokens = split 0 raw in
    (
      status_loop_total (length tokens) tokens (omega arith),
      numstat_loop_total (length tokens) tokens (omega arith),
    )
