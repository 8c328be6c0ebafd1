-- ===== src/Policy/Manifest.antt =====
-- src/policy/validate.rs: identifiers, versions and the validation of a manifest.
use git_slop.Base.{
  ℕ, Bool, true, false, not, ◌&&◌, ◌||◌, Option, none, some, List, [], ◌∷◌, ◌++◌, ◌==◌, ltb, leb,
  length, any, all, Text, codes, text_eq, is_empty, is_lower, is_digit, starts_with, member,
  insert_key, split, trim, parse_u64, Result, ok, bail_if, ok_or, ◌>>=◌, ◌>>◌,
}
use git_slop.Policy.Model.{PackRule, PackManifest}

abbrev pub core_pack_id : Text
core_pack_id = codes "org.git-slop.core"

abbrev pub policy_schema_version : ℕ
policy_schema_version = 1

abbrev pub max_rules : ℕ
max_rules = 64

abbrev pub max_entrypoints : ℕ
max_entrypoints = 16

abbrev pub max_tests : ℕ
max_tests = 32

unfoldable pub ends_with_dash : Text → Bool
ends_with_dash [] = false
ends_with_dash (c ∷ []) = c == b'-'
ends_with_dash (c ∷ d ∷ s) = ends_with_dash (d ∷ s)

abbrev pub is_segment_char : ℕ → Bool
is_segment_char c = is_lower c || is_digit c || c == b'-'

-- The characters of a segment are ASCII, so that its bytes are as many.
unfoldable pub valid_segment : Text → Bool
unfolding ends_with_dash
valid_segment segment =
    not (is_empty segment)
    && leb (length segment) 64
    && all is_segment_char segment
    && not (starts_with segment (codes "-"))
    && not (ends_with_dash segment)

unfoldable pub valid_identifier : Text → Bool
unfolding valid_segment
valid_identifier value =
    leb (length value) 160 && any (λ c. c == b'.') value && all valid_segment (split b'.' value)

pub record Semver : Type 0 where
  pub major : ℕ
  pub minor : ℕ
  pub patch : ℕ

abbrev pub semver_of : Option ℕ → Option ℕ → Option ℕ → Option Semver
semver_of (some a) (some b) (some c) = some (record { major = a; minor = b; patch = c })
semver_of _ _ _ = none

abbrev pub three_parts : List Text → Option Semver
three_parts (a ∷ b ∷ c ∷ []) = semver_of (parse_u64 a) (parse_u64 b) (parse_u64 c)
three_parts _ = none

unfoldable pub strict_semver : Text → Option Semver
strict_semver value = three_parts (split b'.' value)

-- The order of the arrays.
unfoldable pub semver_lt : Semver → Semver → Bool
semver_lt a b =
    ltb a.major b.major
    || (a.major == b.major && (ltb a.minor b.minor || (a.minor == b.minor && ltb a.patch b.patch)))

pub data ManifestError : Type 0 where
  unsupported_schema bad_pack_id not_core reserved_namespace : ManifestError
  empty_metadata bad_version bad_minimum too_new : ManifestError
  bad_entrypoints too_many_tests bad_rule_count bad_applicability : ManifestError
  rule_outside_pack duplicate_rule bad_rule_text bad_rule_applicability no_evidence : ManifestError

abbrev pub is_nil {ℓ} : {A : Type ℓ} → List A → Bool
is_nil [] = true
is_nil (x ∷ xs) = false

unfoldable pub unsupported_applicability : List Text → Bool
unsupported_applicability values =
    is_nil values || any (λ v. not (member v (codes "advise" ∷ codes "plan" ∷ []))) values

-- One round of the loop over the rules; the set of the ids is what the next round gets.
unfoldable pub validate_rule : Text → List Text → PackRule → Result ManifestError (List Text)
validate_rule pack_id ids rule = do
  bail_if (not (valid_identifier rule.id) || not (starts_with rule.id (pack_id ++ codes ".")))
      ManifestError.rule_outside_pack
  bail_if (member rule.id ids) ManifestError.duplicate_rule
  bail_if
      (is_empty (trim rule.text)
        || not (member rule.severity (codes "warning" ∷ codes "error" ∷ [])))
      ManifestError.bad_rule_text
  bail_if (unsupported_applicability rule.applicability) ManifestError.bad_rule_applicability
  bail_if (is_nil rule.required_evidence) ManifestError.no_evidence
  ok (insert_key rule.id ids)

unfoldable pub validate_rules : Text → List Text → List PackRule → Result ManifestError (Unit {0})
unfolding validate_rule
validate_rules pack_id ids [] = ok tt
validate_rules pack_id ids (rule ∷ rules) =
    validate_rule pack_id ids rule >>= λ next. validate_rules pack_id next rules

-- The version of the running package is an argument.
unfoldable pub validate_manifest : Semver → PackManifest → Bool → Result ManifestError (Unit {0})
validate_manifest runtime manifest built_in = do
  bail_if (not (manifest.schema_version == policy_schema_version)) ManifestError.unsupported_schema
  bail_if (not (valid_identifier manifest.id)) ManifestError.bad_pack_id
  bail_if (built_in && not (text_eq manifest.id core_pack_id)) ManifestError.not_core
  bail_if
      (not built_in
        && (text_eq manifest.id core_pack_id
            || starts_with manifest.id (core_pack_id ++ codes ".")))
      ManifestError.reserved_namespace
  bail_if
      (is_empty (trim manifest.name)
        || is_empty (trim manifest.description)
        || is_empty (trim manifest.license))
      ManifestError.empty_metadata
  version ← ok_or (strict_semver manifest.version) ManifestError.bad_version
  minimum ← ok_or (strict_semver manifest.min_git_slop_version) ManifestError.bad_minimum
  bail_if (semver_lt runtime minimum) ManifestError.too_new
  bail_if (is_nil manifest.entrypoints || ltb max_entrypoints (length manifest.entrypoints))
      ManifestError.bad_entrypoints
  bail_if (ltb max_tests (length manifest.tests)) ManifestError.too_many_tests
  bail_if (is_nil manifest.rules || ltb max_rules (length manifest.rules))
      ManifestError.bad_rule_count
  bail_if (unsupported_applicability manifest.applicability) ManifestError.bad_applicability
  validate_rules manifest.id [] manifest.rules
