-- ===== src/Escape/Replace.antt =====
-- Replacements work piece by piece.
use mathlib.Core.List.{append_assoc}
use git_slop.Base.{ℕ, ◌≡◌, refl, [], ◌∷◌, ◌++◌, Text}
use git_slop.Escape.{replace}

pub replace-append :
    (c : ℕ) (by s t : Text) → replace c by (s ++ t) ≡ replace c by s ++ replace c by t
unfolding replace
replace-append c by [] t = refl
replace-append c by (d ∷ s) t = simp (replace-append c by s t, append_assoc)
