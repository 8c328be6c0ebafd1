-- ===== src/History/Parsing.antt =====
-- src/history/parsing.rs: the parts that both log parsers share.
use mathlib.Core.Option
use git_slop.Base.{
  Bool, false, ◌&&◌, ◌||◌, List, [], ◌∷◌, ◌++◌, map, ◌==◌, if◌then◌else◌, length, all, drop, ℤ, pos,
  parse_i64, Text, codes, is_empty, trim, trim_start, split_whitespace, is_hex_digit,
}

abbrev pub commit_token : Text
commit_token = codes "commit"

unfoldable pub normalized_path : Text → Text
normalized_path s = map (λ c. if c == b'\\' then b'/' else c) s

unfoldable pub author_key : Text → Text → Text
author_key name email = trim name ++ (codes " <" ++ (trim email ++ codes ">"))

-- `tokens[index].trim_start_matches('\n')`.
unfoldable pub trim_newlines : Text → Text
trim_newlines s = trim_start (λ c. c == 10) s

-- A parent is a full hash: the bytes are the characters of a text of hexadecimal digits.
unfoldable pub is_full_hash : Text → Bool
is_full_hash parent = length parent == 40 && all is_hex_digit parent

-- Whether the token behind the five of a header is a list of parents.
unfoldable pub is_extended : List Text → Bool
unfolding is_full_hash
is_extended [] = false
is_extended (value ∷ rest) = is_empty value || all is_full_hash (split_whitespace value)

abbrev pub first_or_empty : List Text → Text
first_or_empty [] = []
first_or_empty (t ∷ ts) = t

pub record Header : Type 0 where
  pub commit : Text
  pub timestamp : ℤ
  pub author : Text
  pub parents : List Text
  pub subject : Text

-- The header whose `commit` token is followed by four tokens and `rest`, and what comes behind it.
unfoldable pub read_header : Text → Text → Text → Text → List Text → Header × List Text
read_header hash time name email rest =
    let extended = is_extended rest in
    (
      record {
        commit = trim hash;
        timestamp = Option.get_or (parse_i64 (trim time)) (pos 0);
        author = author_key name email;
        parents = if extended then split_whitespace (first_or_empty rest) else [];
        subject = if extended then first_or_empty (drop 1 rest) else [];
      },
      (if extended then drop 2 rest else rest),
    )
