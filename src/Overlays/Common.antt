-- ===== src/Overlays/Common.antt =====
-- src/overlays/common/mod.rs and src/model.rs: identifiers and roots of paths. The digest of the
-- identifiers is an argument, from a text to its bytes.
use git_slop.Base.{
  ℕ, ◌+◌, ◌-◌, ◌/◌, ◌%◌, Bool, List, [], ◌∷◌, ◌++◌, ltb, ◌==◌, if◌then◌else◌, take, is_empty, Text,
  codes, split, trim_start, trim_end,
}

abbrev pub analysis_version : ℕ
analysis_version = 2

abbrev pub hex_digit : ℕ → ℕ
hex_digit d = if ltb d 10 then b'0' + d else b'a' + (d - 10)

unfoldable pub hex_encode : List ℕ → Text
hex_encode [] = []
hex_encode (byte ∷ bytes) = hex_digit (byte / 16) ∷ hex_digit (byte % 16) ∷ hex_encode bytes

-- Every part ends with a zero byte.
unfoldable pub terminated : List Text → Text
terminated [] = []
terminated (part ∷ parts) = part ++ 0 ∷ terminated parts

unfoldable pub stable_id : (Text → List ℕ) → Text → List Text → Text
unfolding hex_encode terminated
stable_id digest kind parts =
    kind ++ codes "-" ++ hex_encode (take 6 (digest (terminated (kind ∷ parts))))

abbrev pub is_slash : ℕ → Bool
is_slash c = c == b'/'

abbrev pub root_of : List Text → Text
root_of [] = codes "."
root_of (part ∷ parts) = if is_empty part then codes "." else part

unfoldable pub top_level_root : Text → Text
unfolding trim_start trim_end split
top_level_root path = root_of (split b'/' (trim_end is_slash (trim_start is_slash path)))
