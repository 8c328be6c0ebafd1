-- ===== src/Escape/Commands.antt =====
-- The workflow-command escapes and the percent decoding of the runner.
use mathlib.Core.List.{append-nil}
use git_slop.Base.{
  ℕ, ◌+◌, ◌-◌, ◌*◌, ◌≡◌, ◌≢◌, refl, ap, false, [], ◌∷◌, ◌++◌, arith, ◌==◌, ltb, if◌then◌else◌, All,
  All-append, Text, codes,
}
use git_slop.Escape.{replace, github_message_escape, github_property_escape}
use git_slop.Escape.Replace.{replace-append}

-- Percent decoding of upper-case pairs, as a receiver of the command does it.
pub hex_value : ℕ → ℕ
hex_value d = if ltb d 58 then d - 48 else d - 55

pub percent_decode : Text → Text
percent_decode [] = []
percent_decode (c ∷ []) = c ∷ []
percent_decode (c ∷ d ∷ []) = c ∷ d ∷ []
percent_decode (c ∷ d ∷ e ∷ s) =
    let decoded = (hex_value d * 16 + hex_value e) ∷ percent_decode s in
    let kept = c ∷ percent_decode (d ∷ e ∷ s) in if c == b'%' then decoded else kept

percent_decode-plain :
    (c : ℕ) (s : Text) → (c == b'%') ≡ false → percent_decode (c ∷ s) ≡ c ∷ percent_decode s
unfolding percent_decode
percent_decode-plain c [] h = refl
percent_decode-plain c (d ∷ []) h = refl
percent_decode-plain c (d ∷ e ∷ s) h = rw h

github_message_escape-cons :
    (c : ℕ) (s : Text)
    → github_message_escape (c ∷ s) ≡ github_message_escape (c ∷ []) ++ github_message_escape s
unfolding github_message_escape replace
github_message_escape-cons c s = simp (replace-append, append-nil)

github_property_escape-cons :
    (c : ℕ) (s : Text)
    → github_property_escape (c ∷ s) ≡ github_property_escape (c ∷ []) ++ github_property_escape s
unfolding github_property_escape replace
github_property_escape-cons c s = simp (replace-append, append-nil)

percent_decode-message_char :
    (c : ℕ) (s : Text) → percent_decode (github_message_escape (c ∷ []) ++ s) ≡ c ∷ percent_decode s
unfolding github_message_escape replace percent_decode hex_value
percent_decode-message_char c s = ground (arith, percent_decode-plain c s)

-- One character, by the replacement that it meets.
property_char : ℕ → Text
property_char c =
    if c == b'%'
    then codes "%25"
    else if c == 13
    then codes "%0D"
    else if c == 10
    then codes "%0A"
    else if c == b':'
    then codes "%3A"
    else if c == b','
    then codes "%2C"
    else c ∷ []

github_property_escape-char : (c : ℕ) → github_property_escape (c ∷ []) ≡ property_char c
unfolding github_property_escape replace property_char
github_property_escape-char c = ground arith

percent_decode-char :
    (c : ℕ) (s : Text) → percent_decode (property_char c ++ s) ≡ c ∷ percent_decode s
unfolding property_char percent_decode hex_value
percent_decode-char c s = ground (arith, percent_decode-plain c s)

percent_decode-property_char :
    (c : ℕ) (s : Text)
    → percent_decode (github_property_escape (c ∷ []) ++ s) ≡ c ∷ percent_decode s
percent_decode-property_char c s = rw github_property_escape-char (percent_decode-char c s)

percent_decode-message : (s : Text) → percent_decode (github_message_escape s) ≡ s
percent_decode-message [] = unfold percent_decode github_message_escape replace in refl
percent_decode-message (c ∷ s) =
    rw github_message_escape-cons
      (rw percent_decode-message_char (ap (λ t. c ∷ t) (percent_decode-message s)))

percent_decode-property : (s : Text) → percent_decode (github_property_escape s) ≡ s
percent_decode-property [] = unfold percent_decode github_property_escape replace in refl
percent_decode-property (c ∷ s) =
    rw github_property_escape-cons
      (rw percent_decode-property_char (ap (λ t. c ∷ t) (percent_decode-property s)))

-- No line break is left.
abbrev pub IsOneLine : Text → Type 0
IsOneLine = All (λ c. (c ≢ 10) × (c ≢ 13))

-- No line break is left, and neither a colon nor a comma.
abbrev pub HasNoDelimiter : Text → Type 0
HasNoDelimiter = All (λ c. (c ≢ 10) × (c ≢ 13) × (c ≢ b':') × (c ≢ b','))

message_char-IsOneLine : (c : ℕ) → IsOneLine (github_message_escape (c ∷ []))
unfolding github_message_escape replace
message_char-IsOneLine c = ground arith

property_char-HasNoDelimiter : (c : ℕ) → HasNoDelimiter (github_property_escape (c ∷ []))
unfolding github_property_escape replace
property_char-HasNoDelimiter c = ground arith

message-IsOneLine : (s : Text) → IsOneLine (github_message_escape s)
message-IsOneLine [] = unfold github_message_escape replace in tt
message-IsOneLine (c ∷ s) =
    rw github_message_escape-cons
      (All-append _ _ _ (message_char-IsOneLine c) (message-IsOneLine s))

property-HasNoDelimiter : (s : Text) → HasNoDelimiter (github_property_escape s)
property-HasNoDelimiter [] = unfold github_property_escape replace in tt
property-HasNoDelimiter (c ∷ s) =
    rw github_property_escape-cons
      (All-append _ _ _ (property_char-HasNoDelimiter c) (property-HasNoDelimiter s))

-- Percent decoding gives an escaped message back, for every message, and no escaped message holds
-- a line feed or a carriage return.
pub github_message_round_trip :
    (s : Text)
    → (percent_decode (github_message_escape s) ≡ s) × IsOneLine (github_message_escape s)
github_message_round_trip s = (percent_decode-message s, message-IsOneLine s)

-- Percent decoding gives an escaped property back, for every property, and no escaped property
-- holds a line feed, a carriage return, a colon or a comma.
pub github_property_round_trip :
    (s : Text)
    → (percent_decode (github_property_escape s) ≡ s) × HasNoDelimiter (github_property_escape s)
github_property_round_trip s = (percent_decode-property s, property-HasNoDelimiter s)
