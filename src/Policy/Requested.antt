-- ===== src/Policy/Requested.antt =====
-- What the tests of `resolve_for_advice` on names say, without the tests.
use git_slop.Base.{
  ◌≡◌, ◌↔◌, ◌⊎◌, refl, ap, ◌∙◌, inl, inr, true, List, [], ◌∷◌, ◌++◌, arith, any, all, All,
  Bool-cases, Text, codes, text_eq, text_eq_iff, starts_with, member,
}
use git_slop.Policy.Model.{CompiledPolicySet}
use git_slop.Policy.Compile.{rule_ids_of}
use git_slop.Policy.Resolve.{requests, is_known_policy, lock_ids}

abbrev pub IsIn : Text → List Text → Type 0
IsIn id [] = ⊥
IsIn id (t ∷ ts) = (t ≡ id) ⊎ IsIn id ts

-- The name continues the prefix after a dot.
abbrev pub IsBelow : Text → Text → Type 0
IsBelow prefix id = (rest : Text) × (id ≡ (prefix ++ codes ".") ++ rest)

-- The rule has the requested name, or is of the pack that has it.
abbrev pub IsRequested : Text → Text → Type 0
IsRequested id requested = (requested ≡ id) ⊎ IsBelow requested id

abbrev pub IsAnyRequested : Text → List Text → Type 0
IsAnyRequested id [] = ⊥
IsAnyRequested id (r ∷ rs) = IsRequested id r ⊎ IsAnyRequested id rs

pub IsIn-member : (id : Text) (ts : List Text) → (member id ts ≡ true) ↔ IsIn id ts
unfolding member
IsIn-member id [] = ground arith
IsIn-member id (t ∷ ts) = ground (arith, text_eq_iff t id, IsIn-member id ts)

starts_with-append : (p rest : Text) → starts_with (p ++ rest) p ≡ true
unfolding starts_with
starts_with-append [] [] = refl
starts_with-append [] (c ∷ rest) = refl
starts_with-append (c ∷ p) rest = ground (arith, starts_with-append p rest)

starts_with_lem : (s p : Text) → starts_with s p ≡ true → (rest : Text) × (s ≡ p ++ rest)
unfolding starts_with
starts_with_lem s [] h = (s, refl)
starts_with_lem [] (c ∷ p) h = absurd (cc)
starts_with_lem (d ∷ s) (c ∷ p) h =
    let (rest, same) = starts_with_lem s p (ground arith) in
    let first : d ≡ c = ground arith in (rest, cc)

pub IsBelow-starts_with :
    (prefix id : Text) → (starts_with id (prefix ++ codes ".") ≡ true) ↔ IsBelow prefix id
IsBelow-starts_with prefix id = (
  starts_with_lem id (prefix ++ codes "."),
  λ (rest, same).
      ap (λ s. starts_with s (prefix ++ codes ".")) same
      ∙ starts_with-append (prefix ++ codes ".") rest,
)

requests_iff : (id r : Text) → (requests id r ≡ true) ↔ IsRequested id r
requests_iff id r = elim (Bool-cases (text_eq r id)) [
  | inl same ↦ ((λ h. inl ((text_eq_iff r id).0 same)), λ h. rw same refl)
  | inr other ↦ (
    (λ h. inr ((IsBelow-starts_with r id).0 (rw other at h))),
    λ h. elim h [
      | inl same ↦ rw ((text_eq_iff r id).1 same) refl
      | inr below ↦ rw other ((IsBelow-starts_with r id).1 below)
    ],
  )
]

pub any-requests :
    (id : Text) (rs : List Text) → (any (requests id) rs ≡ true) ↔ IsAnyRequested id rs
any-requests id [] = ground arith
any-requests id (r ∷ rs) = ground (arith, requests_iff id r, any-requests id rs)

-- The name is that of a pack or of a rule of the set.
abbrev pub IsKnown : CompiledPolicySet → Text → Type 0
IsKnown compiled id = IsIn id (lock_ids compiled.packs) ⊎ IsIn id (rule_ids_of compiled.rules)

pub all-is_known_policy :
    (compiled : CompiledPolicySet) (ids : List Text)
    → all (is_known_policy compiled) ids ≡ true
    → All (IsKnown compiled) ids
all-is_known_policy compiled [] h = tt
all-is_known_policy compiled (id ∷ ids) h = (
  ground (
    arith,
    IsIn-member id (lock_ids compiled.packs),
    IsIn-member id (rule_ids_of compiled.rules),
  ),
  all-is_known_policy compiled ids (ground arith),
)
