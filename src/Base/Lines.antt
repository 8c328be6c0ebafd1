-- ===== src/Base/Lines.antt =====
-- `str::lines`, and the length of a text in bytes of UTF-8.
use Prim.Native.Nat.{ℕ, ◌+◌}
use mathlib.Core.List.{List, [], ◌∷◌, ◌++◌}
use git_slop.Base.Tests.{ltb, ◌==◌, if◌then◌else◌}
use git_slop.Base.Strings.{Text, is_empty}

-- A carriage return before a line feed belongs to the line's end.
unfoldable pub strip_return : Text → Text
strip_return [] = []
strip_return (c ∷ s) =
    let rest = strip_return s in if is_empty s then (if c == 13 then [] else c ∷ []) else c ∷ rest

-- No line follows a last line feed.
unfoldable pub lines_from : Text → Text → List Text
unfolding strip_return
lines_from piece [] = if is_empty piece then [] else piece ∷ []
lines_from piece (c ∷ s) =
    let closed = lines_from [] s in
    let longer = lines_from (piece ++ c ∷ []) s in
    if c == 10 then strip_return piece ∷ closed else longer

unfoldable pub lines : Text → List Text
unfolding lines_from
lines s = lines_from [] s

-- `char::len_utf8`.
abbrev pub utf8_width : ℕ → ℕ
utf8_width c = if ltb c 128 then 1 else if ltb c 2048 then 2 else if ltb c 65536 then 3 else 4

unfoldable pub byte_length : Text → ℕ
byte_length [] = 0
byte_length (c ∷ s) = utf8_width c + byte_length s
