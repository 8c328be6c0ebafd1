-- ===== src/Policy/Conditions.antt =====
-- The tests of `validate_manifest` on versions, stages and severities, without the tests.
use git_slop.Base.{
  ◌≤◌, ◌<◌, ◌≡◌, ◌↔◌, ◌⊎◌, refl, true, false, not, List, [], ◌∷◌, arith, length, any, All, Text,
  codes, text_eq_iff, member,
}
use git_slop.Policy.Manifest.{Semver, semver_lt, unsupported_applicability, is_nil}

-- One is not above the other: major before minor before patch.
abbrev pub IsAtMost : Semver → Semver → Type 0
IsAtMost a b =
    (a.major < b.major)
    ⊎ ((a.major ≡ b.major) × ((a.minor < b.minor) ⊎ ((a.minor ≡ b.minor) × (a.patch ≤ b.patch))))

pub semver_lt-IsAtMost : (a b : Semver) → (semver_lt a b ≡ false) ↔ IsAtMost b a
unfolding semver_lt
semver_lt-IsAtMost a b = ground arith

-- Some values, and each of them a stage that the code knows.
abbrev pub AppliesTo : List Text → Type 0
AppliesTo values = (1 ≤ length values) × All (λ v. (v ≡ codes "advise") ⊎ (v ≡ codes "plan")) values

known_stages :
    (values : List Text)
    → (any (λ v. not (member v (codes "advise" ∷ codes "plan" ∷ []))) values ≡ false)
      ↔ All (λ v. (v ≡ codes "advise") ⊎ (v ≡ codes "plan")) values
unfolding member
known_stages [] = ground arith
known_stages (v ∷ values) =
    ground
      (arith, text_eq_iff (codes "advise") v, text_eq_iff (codes "plan") v, known_stages values)

pub unsupported_applicability-AppliesTo :
    (values : List Text) → (unsupported_applicability values ≡ false) ↔ AppliesTo values
unfolding unsupported_applicability
unsupported_applicability-AppliesTo [] = ground arith
unsupported_applicability-AppliesTo (v ∷ values) = ground (arith, known_stages (v ∷ values))

abbrev pub IsSeverity : Text → Type 0
IsSeverity severity = (severity ≡ codes "warning") ⊎ (severity ≡ codes "error")

pub member-IsSeverity :
    (severity : Text)
    → (member severity (codes "warning" ∷ codes "error" ∷ []) ≡ true) ↔ IsSeverity severity
unfolding member
member-IsSeverity severity =
    ground (arith, text_eq_iff (codes "warning") severity, text_eq_iff (codes "error") severity)

pub is_nil-length {ℓ} : {A : Type ℓ} (xs : List A) → (is_nil xs ≡ false) ↔ (1 ≤ length xs)
is_nil-length [] = ((λ h. ground arith), λ h. ground arith)
is_nil-length (x ∷ xs) = ((λ h. omega arith), λ h. refl)
