-- ===== src/Escape/Markdown.antt =====
-- The Markdown escape and a reader of escaped Markdown.
use mathlib.Core.List.{append-nil}
use mathlib.Core.Option
use git_slop.Base.{
  Option, none, some, ℕ, ◌≡◌, refl, Bool, false, ◌||◌, [], ◌∷◌, ◌++◌, arith, ◌==◌, if◌then◌else◌,
  All, All-append, Text, Bool-cases, inl, inr,
}
use git_slop.Escape.{
  replace, visible_char, visible_controls, escape_specials, markdown_escape, is_control,
}
use git_slop.Escape.Replace.{replace-append}

abbrev pub IsVisible : Text → Type 0
IsVisible = All (λ c. is_control c ≡ false)

visible_char-IsVisible : (c : ℕ) → IsVisible (visible_char c)
unfolding visible_char
visible_char-IsVisible c = ground arith

pub visible_controls-IsVisible : (s : Text) → IsVisible (visible_controls s)
unfolding visible_controls
visible_controls-IsVisible [] = tt
visible_controls-IsVisible (c ∷ s) =
    All-append _ _ _ (visible_char-IsVisible c) (visible_controls-IsVisible s)

abbrev pub is_special : ℕ → Bool
is_special c =
    c == b'\\' || c == b'|' || c == b'[' || c == b']' || c == b'<' || c == b'>' || c == b'`'

-- The reader of the escapes: a backslash stands for the character behind it, and any other special
-- character, or a backslash at the end, is refused.
pub markdown_read : Text → Option Text
markdown_read [] = some []
markdown_read (c ∷ []) = if is_special c then none else some (c ∷ [])
markdown_read (c ∷ d ∷ s) =
    let escaped = Option.map (λ t. d ∷ t) (markdown_read s) in
    let plain = Option.map (λ t. c ∷ t) (markdown_read (d ∷ s)) in
    if c == b'\\' then escaped else if is_special c then none else plain

markdown_read-plain :
    (c : ℕ) (s : Text)
    → is_special c ≡ false
    → markdown_read (c ∷ s) ≡ Option.map (λ t. c ∷ t) (markdown_read s)
unfolding markdown_read
markdown_read-plain c [] h = ground arith
markdown_read-plain c (d ∷ s) h = ground arith

special_char : ℕ → Text
special_char c = if is_special c then b'\\' ∷ c ∷ [] else c ∷ []

escape_specials-char : (c : ℕ) → escape_specials (c ∷ []) ≡ special_char c
unfolding escape_specials replace special_char
escape_specials-char c = ground arith

escape_specials-cons :
    (c : ℕ) (s : Text) → escape_specials (c ∷ s) ≡ special_char c ++ escape_specials s
escape_specials-cons c s = rw (← escape_specials-char c) (split_first c s)
  where
    split_first :
        (c : ℕ) (s : Text) → escape_specials (c ∷ s) ≡ escape_specials (c ∷ []) ++ escape_specials s
    split_first c s = unfold escape_specials replace in simp (replace-append, append-nil)

markdown_read-special_char :
    (c : ℕ) (s : Text)
    → markdown_read (special_char c ++ s) ≡ Option.map (λ t. c ∷ t) (markdown_read s)
markdown_read-special_char c s = elim (Bool-cases (is_special c)) [
  | inl special ↦ unfold special_char markdown_read in rw special
  | inr plain ↦ unfold special_char in rw plain (markdown_read-plain c s plain)
]

markdown_read-escape_specials : (s : Text) → markdown_read (escape_specials s) ≡ some s
markdown_read-escape_specials [] = unfold markdown_read escape_specials replace in refl
markdown_read-escape_specials (c ∷ s) =
    rw escape_specials-cons
      (rw markdown_read-special_char (rw (markdown_read-escape_specials s) refl))

special_char-IsVisible : (c : ℕ) → is_control c ≡ false → IsVisible (special_char c)
unfolding special_char
special_char-IsVisible c h = ground arith

escape_specials-IsVisible : (s : Text) → IsVisible s → IsVisible (escape_specials s)
escape_specials-IsVisible [] h = unfold escape_specials replace in tt
escape_specials-IsVisible (c ∷ s) h =
    rw escape_specials-cons
      (All-append _ _ _ (special_char-IsVisible c (h.0)) (escape_specials-IsVisible s (h.1)))

-- Escaped Markdown holds no control character, and every Markdown special in it is escaped: the
-- reader, which refuses a bare special, gives back the text with its controls made visible.
pub markdown_read-markdown_escape :
    (s : Text)
    → (markdown_read (markdown_escape s) ≡ some (visible_controls s))
      × IsVisible (markdown_escape s)
unfolding markdown_escape
markdown_read-markdown_escape s = (
  markdown_read-escape_specials (visible_controls s),
  escape_specials-IsVisible (visible_controls s) (visible_controls-IsVisible s),
)
