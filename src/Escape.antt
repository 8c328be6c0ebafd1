-- ===== src/Escape.antt =====
-- src/text.rs: how untrusted text is written into terminals, Markdown and workflow commands.
pub mod Replace
pub mod Commands
pub mod Markdown
pub mod Fence
use git_slop.Base.{
  ℕ, suc, ◌+◌, ◌/◌, ◌%◌, max, Bool, ◌&&◌, ◌||◌, List, [], ◌∷◌, ◌++◌, ltb, leb, ◌==◌, if◌then◌else◌,
  Text, codes, replicate,
}

-- `char::is_control`: the Unicode category Cc.
abbrev pub is_control : ℕ → Bool
is_control c = ltb c 32 || (leb 127 c && leb c 159)

abbrev hex_digit : ℕ → ℕ
hex_digit d = if ltb d 10 then 48 + d else 87 + d

-- `{:x}` of a control character, which is below 256.
abbrev pub hex : ℕ → Text
hex c = if ltb c 16 then hex_digit c ∷ [] else hex_digit (c / 16) ∷ hex_digit (c % 16) ∷ []

unfoldable pub visible_char : ℕ → Text
visible_char c =
    if c == 10
    then codes "\\n"
    else if c == 13
    then codes "\\r"
    else if c == 9
    then codes "\\t"
    else if is_control c
    then codes "\\u{" ++ (hex c ++ codes "}")
    else c ∷ []

unfoldable pub visible_controls : Text → Text
visible_controls [] = []
visible_controls (c ∷ s) = visible_char c ++ visible_controls s

-- `str::replace` of one character.
unfoldable pub replace : ℕ → Text → Text → Text
replace c by [] = []
replace c by (d ∷ s) = (if d == c then by else d ∷ []) ++ replace c by s

-- The chain of seven replacements, the backslash first.
unfoldable pub escape_specials : Text → Text
escape_specials s = replace b'`' (codes "\\`") (
    replace b'>' (codes "\\>") (
      replace b'<' (codes "\\<") (
        replace b']' (codes "\\]") (
          replace b'[' (codes "\\[")
            (replace b'|' (codes "\\|") (replace b'\\' (codes "\\\\") s))))))

unfoldable pub markdown_escape : Text → Text
markdown_escape value = escape_specials (visible_controls value)

unfoldable pub github_message_escape : Text → Text
github_message_escape value =
    replace 10 (codes "%0A") (replace 13 (codes "%0D") (replace b'%' (codes "%25") value))

unfoldable pub github_property_escape : Text → Text
github_property_escape value = replace b',' (codes "%2C") (
    replace b':' (codes "%3A")
      (replace 10 (codes "%0A") (replace 13 (codes "%0D") (replace b'%' (codes "%25") value))))

-- The loop of `inline_code` over the characters, with its two counters.
unfoldable pub backtick_runs : ℕ → ℕ → Text → ℕ
backtick_runs longest current [] = longest
backtick_runs longest current (c ∷ s) =
    if c == b'`'
    then backtick_runs (max longest (current + 1)) (current + 1) s
    else backtick_runs longest 0 s

unfoldable pub fenced : ℕ → Text → Text
fenced longest value =
    if longest == 0
    then b'`' ∷ value ++ b'`' ∷ []
    else let fence = replicate (suc longest) b'`' in fence ++ (b' ' ∷ (value ++ (b' ' ∷ fence)))

unfoldable pub inline_code : Text → Text
unfolding fenced
inline_code value = let shown = visible_controls value in fenced (backtick_runs 0 0 shown) shown
