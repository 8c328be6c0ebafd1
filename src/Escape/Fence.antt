-- ===== src/Escape/Fence.antt =====
-- The fence of an inline code span and the runs of backticks in it.
use git_slop.Base.{
  max, ℕ, zero, suc, ◌+◌, ◌≤◌, ◌<◌, ◌≡◌, refl, true, false, [], ◌∷◌, ◌++◌, arith, ◌==◌,
  if◌then◌else◌, Text, Bool-cases, inl, inr, replicate, starts_with, contains,
}
use git_slop.Escape.{backtick_runs, fenced, inline_code, visible_controls}
use git_slop.Escape.Markdown.{IsVisible, visible_controls-IsVisible}

-- The backticks at the front.
leading : Text → ℕ
leading [] = 0
leading (c ∷ s) = if c == b'`' then suc (leading s) else 0

starts_with-leading : (n : ℕ) (s : Text) → starts_with s (replicate n b'`') ≡ true → n ≤ leading s
unfolding starts_with leading
starts_with-leading zero s h = omega arith
starts_with-leading (suc n) [] h = ground arith
starts_with-leading (suc n) (c ∷ s) h = ground (arith, starts_with-leading n s)

longest-le-runs : (longest current : ℕ) (s : Text) → longest ≤ backtick_runs longest current s
unfolding backtick_runs
longest-le-runs longest current [] = omega arith
longest-le-runs longest current (c ∷ s) = ground (
  arith,
  longest-le-runs (max longest (current + 1)) (current + 1) s,
  longest-le-runs longest 0 s,
)

leading-le-runs :
    (longest current : ℕ) (s : Text)
    → current ≤ longest
    → current + leading s ≤ backtick_runs longest current s
unfolding backtick_runs leading
leading-le-runs longest current [] h = omega arith
leading-le-runs longest current (c ∷ s) h = ground (
  arith,
  leading-le-runs (max longest (current + 1)) (current + 1) s,
  longest-le-runs longest 0 s,
)

contains-cons :
    (c : ℕ) (s p : Text)
    → starts_with (c ∷ s) p ≡ false
    → contains s p ≡ false
    → contains (c ∷ s) p ≡ false
unfolding contains
contains-cons c s p h k = rw h k

no_longer_run :
    (longest current m : ℕ) (s : Text)
    → current ≤ longest
    → backtick_runs longest current s < m
    → contains s (replicate m b'`') ≡ false
unfolding backtick_runs
no_longer_run longest current zero s h lt = absurd (omega arith)
no_longer_run longest current (suc m) [] h lt = unfold contains in refl
no_longer_run longest current (suc m) (c ∷ s) h lt =
    elim (Bool-cases (starts_with (c ∷ s) (replicate (suc m) b'`'))) [
      | inl found ↦ absurd (
          omega (
            arith,
            starts_with-leading (suc m) (c ∷ s) found,
            leading-le-runs longest current (c ∷ s) h,
          ))
      | inr missing ↦ contains-cons c s (replicate (suc m) b'`') missing (
          ground (
            arith,
            no_longer_run (max longest (current + 1)) (current + 1) (suc m) s,
            no_longer_run longest 0 (suc m) s,
          ))
    ]

abbrev pub backticks : ℕ → Text
backticks n = replicate n b'`'

abbrev pub runs_of : Text → ℕ
runs_of value = backtick_runs 0 0 (visible_controls value)

abbrev pub pad : ℕ → Text
pad n = if n == 0 then [] else b' ' ∷ []

fenced_lem :
    (n : ℕ) (shown : Text)
    → fenced n shown ≡ backticks (suc n) ++ (pad n ++ (shown ++ (pad n ++ backticks (suc n))))
unfolding fenced
fenced_lem zero shown = refl
fenced_lem (suc n) shown = let e : (suc n == 0) ≡ false = ground arith in rw e refl

-- An inline code span is the visible text, on one line, between two equal fences of backticks,
-- padded by a space unless the text has no backtick, and the text holds no run of backticks as
-- long as the fence.
pub inline_code_lem :
    (value : Text)
    → (inline_code value
        ≡ backticks (suc (runs_of value))
          ++ (pad (runs_of value)
              ++ (visible_controls value
                  ++ (pad (runs_of value) ++ backticks (suc (runs_of value))))))
      × (contains (visible_controls value) (backticks (suc (runs_of value))) ≡ false)
      × IsVisible (visible_controls value)
unfolding inline_code
inline_code_lem value = (
  fenced_lem (runs_of value) (visible_controls value),
  no_longer_run 0 0 (suc (runs_of value)) (visible_controls value) (omega arith) (omega arith),
  visible_controls-IsVisible value,
)
