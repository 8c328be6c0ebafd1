-- ===== src/Examples/Escape.antt =====
-- The escapes at the inputs of the source's tests.
use git_slop.Base.{◌≡◌, refl, false, some, [], ◌∷◌, ◌++◌, Text, suc, codes, contains}
use git_slop.Escape.{
  github_message_escape, github_property_escape, markdown_escape, visible_controls, inline_code,
  visible_char, replace, escape_specials, backtick_runs,
}
use git_slop.Escape.Commands.{
  percent_decode, IsOneLine, HasNoDelimiter, github_message_round_trip, github_property_round_trip,
}
use git_slop.Escape.Markdown.{markdown_read, IsVisible, markdown_read-markdown_escape}
use git_slop.Escape.Fence.{backticks, runs_of, pad, inline_code_lem}

abbrev command : Text
command = codes "a,b:c%" ++ (13 ∷ 10 ∷ codes "::warning::x")

property_escaped : github_property_escape command ≡ codes "a%2Cb%3Ac%25%0D%0A%3A%3Awarning%3A%3Ax"
unfolding github_property_escape replace
property_escaped = refl

message_escaped :
    github_message_escape (codes "message%" ++ (13 ∷ 10 ∷ codes "::error::x"))
    ≡ codes "message%25%0D%0A::error::x"
unfolding github_message_escape replace
message_escaped = refl

abbrev controls : Text
controls = codes "a" ++ (10 ∷ 13 ∷ 9 ∷ codes "b" ++ (27 ∷ codes "[31m"))

controls_shown : visible_controls controls ≡ codes "a\\n\\r\\tb\\u{1b}[31m"
unfolding visible_controls visible_char
controls_shown = refl

markdown_escaped : markdown_escape (codes "a|`b" ++ 10 ∷ []) ≡ codes "a\\|\\`b\\\\n"
unfolding markdown_escape visible_controls visible_char escape_specials replace
markdown_escaped = refl

span_fenced : inline_code (codes "a``b" ++ 10 ∷ []) ≡ codes "``` a``b\\n ```"
unfolding inline_code visible_controls visible_char backtick_runs
span_fenced = refl

github_message_round_trip_example :
    (percent_decode (github_message_escape command) ≡ command)
    × IsOneLine (github_message_escape command)
github_message_round_trip_example = github_message_round_trip command

github_property_round_trip_example :
    (percent_decode (github_property_escape command) ≡ command)
    × HasNoDelimiter (github_property_escape command)
github_property_round_trip_example = github_property_round_trip command

markdown_read-markdown_escape_example :
    (markdown_read (markdown_escape controls) ≡ some (visible_controls controls))
    × IsVisible (markdown_escape controls)
markdown_read-markdown_escape_example = markdown_read-markdown_escape controls

abbrev ticks : Text
ticks = codes "a``b"

inline_code_lem_example :
    (inline_code ticks
      ≡ backticks (suc (runs_of ticks))
        ++ (pad (runs_of ticks)
            ++ (visible_controls ticks
                ++ (pad (runs_of ticks) ++ backticks (suc (runs_of ticks))))))
    × (contains (visible_controls ticks) (backticks (suc (runs_of ticks))) ≡ false)
    × IsVisible (visible_controls ticks)
inline_code_lem_example = inline_code_lem ticks
