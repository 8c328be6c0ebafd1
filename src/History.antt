-- ===== src/History.antt =====
-- src/history.rs and the files that it includes from src/history/: the records that are read from
-- `git log -z`, their parsers, and the mapping of historical paths to the present ones.
pub mod Parsing
pub mod Status
pub mod Numstat
pub mod Samples
pub mod Totality
pub mod Lineage
pub mod Renames
pub mod Names
pub mod SubjectCommit
pub mod Stream
pub mod Tokens
pub mod StatusRoundTrip
use git_slop.Base.{ℕ, ℤ, List, Text}

pub data StatusChange : Type 0 where
  path : Text → Text → StatusChange
  rename : Text → Text → StatusChange
  copy : Text → Text → StatusChange

pub record StatusCommit : Type 0 where
  pub commit : Text
  pub timestamp : ℤ
  pub author : Text
  pub parents : List Text
  pub subject : Text
  pub changes : List StatusChange

pub record NumstatEntry : Type 0 where
  pub added : ℕ
  pub deleted : ℕ
  pub paths : List Text

pub record NumstatCommit : Type 0 where
  pub commit : Text
  pub timestamp : ℤ
  pub author : Text
  pub parents : List Text
  pub subject : Text
  pub entries : List NumstatEntry
