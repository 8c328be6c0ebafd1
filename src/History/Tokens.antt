-- ===== src/History/Tokens.antt =====
-- The NUL-terminated tokens of `git log -z`, and how splitting reads them back.
use mathlib.Core.List.{append_assoc, append-nil}
use git_slop.Base.{◌≡◌, refl, ap, false, List, [], ◌∷◌, ◌++◌, ◌==◌, All, Text, split, split_from}

-- Each token is followed by a NUL.
abbrev pub encode : List Text → Text
encode [] = []
encode (t ∷ ts) = t ++ (0 ∷ encode ts)

abbrev pub HasNoNul : Text → Type 0
HasNoNul = All (λ c. (c == 0) ≡ false)

split_from-token :
    (piece t s : Text)
    → HasNoNul t
    → split_from 0 piece (t ++ (0 ∷ s)) ≡ (piece ++ t) ∷ split_from 0 [] s
unfolding split_from
split_from-token piece [] s h = rw append-nil
split_from-token piece (c ∷ t) s h =
    rw (h.0) (rw (split_from-token (piece ++ c ∷ []) t s (h.1)) (rw append_assoc))

-- Splitting gives the tokens, and an empty piece behind the last NUL.
pub split-encode : (ts : List Text) → All HasNoNul ts → split 0 (encode ts) ≡ ts ++ [] ∷ []
unfolding split
split-encode [] h = refl
split-encode (t ∷ ts) h =
    rw (split_from-token [] t (encode ts) (h.0)) (ap (λ r. t ∷ r) (split-encode ts (h.1)))
