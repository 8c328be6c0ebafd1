-- ===== src/Policy/Accepted.antt =====
-- The conditions of `validate_manifest`, written as records.
use git_slop.Base.{
  ◌≤◌, ◌≡◌, ◌≢◌, Bool, true, false, some, List, ◌++◌, length, All, Text, codes, starts_with, member,
  is_empty, trim, Distinct,
}
use git_slop.Policy.Model.{PackRule, PackManifest}
use git_slop.Policy.Conditions.{IsAtMost, AppliesTo, IsSeverity}
use git_slop.Policy.Manifest.{core_pack_id, valid_identifier, Semver, strict_semver}

-- A rule of a pack: its id is an identifier in the pack's namespace, and it has what a rule needs.
pub record IsRuleOf (pack_id : Text) (rule : PackRule) : Type 0 where
  pub identifier : valid_identifier rule.id ≡ true
  pub namespace : starts_with rule.id (pack_id ++ codes ".") ≡ true
  pub has_text : is_empty (trim rule.text) ≡ false
  pub severity : IsSeverity rule.severity
  pub applies : AppliesTo rule.applicability
  pub evidence : 1 ≤ length rule.required_evidence

-- No two rules share an id.
abbrev pub HasDistinctIds : List PackRule → Type 0
HasDistinctIds rules = Distinct (λ rule. rule.id) rules

abbrev IsNewRule : Text → List Text → PackRule → Type 0
IsNewRule pack_id ids rule = IsRuleOf pack_id rule × (member rule.id ids ≡ false)

-- What `validate_manifest` promises of a pack for the running version.
pub record IsAccepted (runtime : Semver) (manifest : PackManifest) (built_in : Bool) : Type 0 where
  pub schema : manifest.schema_version ≡ 1
  pub identifier : valid_identifier manifest.id ≡ true
  pub core : built_in ≡ true → manifest.id ≡ core_pack_id
  pub outside :
      built_in ≡ false
      → (manifest.id ≢ core_pack_id) × (starts_with manifest.id (core_pack_id ++ codes ".") ≡ false)
  pub has_name : is_empty (trim manifest.name) ≡ false
  pub has_description : is_empty (trim manifest.description) ≡ false
  pub has_license : is_empty (trim manifest.license) ≡ false
  pub version : (v : Semver) × (strict_semver manifest.version ≡ some v)
  pub minimum :
      (v : Semver) × (strict_semver manifest.min_git_slop_version ≡ some v) × IsAtMost v runtime
  pub entrypoints : (1 ≤ length manifest.entrypoints) × (length manifest.entrypoints ≤ 16)
  pub tests : length manifest.tests ≤ 32
  pub rule_count : (1 ≤ length manifest.rules) × (length manifest.rules ≤ 64)
  pub applies : AppliesTo manifest.applicability
  pub rules : All (IsRuleOf manifest.id) manifest.rules
  pub distinct : HasDistinctIds manifest.rules
