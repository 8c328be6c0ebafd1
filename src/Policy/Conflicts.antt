-- ===== src/Policy/Conflicts.antt =====
-- The rules, locks and conflicts of a set that `compile_packs` makes.
use git_slop.Base.{
  ◌≡◌, ◌↔◌, refl, inl, inr, Bool, true, false, ◌&&◌, ◌||◌, List, [], ◌∷◌, map, arith, All, Distinct,
  Distinct-append, any, any-append, subst, ◌≢◌, ◌∙◌, Text, text_eq_iff, member, Result, ok,
  Result-cases, Bool-cases, sort_by,
}
use git_slop.Policy.Model.{PackRule, ResolvedPack, PolicyConflict, PackLock, CompiledPolicySet}
use git_slop.Policy.Accepted.{HasDistinctIds}
use git_slop.Policy.Distinct.{rules_of_packs, collect_packs-HasDistinctIds}
use git_slop.Policy.Compile.{
  CompileError, same_pair, ordered_pair, add_conflict, rule_conflicts, all_conflicts, rule_ids_of,
  with_core, pack_before, pack_lock, compile_packs, collect_packs,
}

pub same_pair_iff : (a b : PolicyConflict) → (same_pair a b ≡ true) ↔ (a ≡ b)
same_pair_iff a b =
    let left = text_eq_iff a.left_rule_id b.left_rule_id in
    let right = text_eq_iff a.right_rule_id b.right_rule_id in
    ((λ h. ground arith), λ h. ground arith)

-- The pair is in the list.
abbrev pub has_pair : PolicyConflict → List PolicyConflict → Bool
has_pair pair conflicts = any (λ c. same_pair c pair) conflicts

-- A rule declares the pair: it conflicts with a rule of the set, and the two in order are the pair.
abbrev pub declares : List Text → PolicyConflict → PackRule → Bool
declares ids pair rule =
    any (λ other. member other ids && same_pair (ordered_pair rule.id other) pair)
      rule.conflicts_with

has_pair-add_conflict :
    (pair new : PolicyConflict) (conflicts : List PolicyConflict)
    → has_pair pair (add_conflict conflicts new) ≡ (has_pair pair conflicts || same_pair new pair)
unfolding add_conflict
has_pair-add_conflict pair new conflicts = elim (Bool-cases (has_pair new conflicts)) [
  | inr absent ↦ rw absent (any-append (λ c. same_pair c pair) conflicts (new ∷ []) ∙ ground arith)
  | inl present ↦ rw present (elim (Bool-cases (same_pair new pair)) [
    | inr other ↦ ground arith
    | inl same ↦
        let there =
          subst (λ p. has_pair p conflicts ≡ true) ((same_pair_iff new pair).0 same) present in
        ground arith
  ])
]

other_pairs :
    (new : PolicyConflict) (conflicts : List PolicyConflict)
    → has_pair new conflicts ≡ false
    → All (λ c. c ≢ new) conflicts
other_pairs new [] h = tt
other_pairs new (c ∷ conflicts) h =
    ((λ e. ground (arith, same_pair_iff c new)), other_pairs new conflicts (ground arith))

add_conflict-Distinct :
    (new : PolicyConflict) (conflicts : List PolicyConflict)
    → Distinct (λ c. c) conflicts
    → Distinct (λ c. c) (add_conflict conflicts new)
unfolding add_conflict
add_conflict-Distinct new conflicts d = elim (Bool-cases (has_pair new conflicts)) [
  | inl present ↦ rw present d
  | inr absent ↦ rw absent (Distinct-append _ conflicts new d (other_pairs new conflicts absent))
]

-- The conflicts found so far, with those that the test declares.
abbrev Grows : List PolicyConflict → (PolicyConflict → Bool) → List PolicyConflict → Type 0
Grows before test after =
    ((pair : PolicyConflict) → has_pair pair after ≡ (has_pair pair before || test pair))
    × Distinct (λ c. c) after

rule_conflicts-Grows :
    (others : List Text) (ids : List Text) (id : Text) (conflicts : List PolicyConflict)
    → Distinct (λ c. c) conflicts
    → Grows conflicts
        (λ pair. any (λ other. member other ids && same_pair (ordered_pair id other) pair) others)
        (rule_conflicts ids id conflicts others)
unfolding rule_conflicts
rule_conflicts-Grows [] ids id conflicts d = ((λ pair. ground arith), d)
rule_conflicts-Grows (other ∷ others) ids id conflicts d = elim (Bool-cases (member other ids)) [
  | inr absent ↦
      let (known, distinct) = rule_conflicts-Grows others ids id conflicts d in
      rw absent ((λ pair. known pair), distinct)
  | inl present ↦
      let (known, distinct) =
        rule_conflicts-Grows others ids id (add_conflict conflicts (ordered_pair id other))
          (add_conflict-Distinct (ordered_pair id other) conflicts d) in
      rw present (
        (λ pair.
            ground
              (arith, known pair, has_pair-add_conflict pair (ordered_pair id other) conflicts)),
        distinct,
      )
]

all_conflicts-Grows :
    (rules : List PackRule) (ids : List Text) (conflicts : List PolicyConflict)
    → Distinct (λ c. c) conflicts
    → Grows conflicts (λ pair. any (declares ids pair) rules) (all_conflicts ids conflicts rules)
unfolding all_conflicts
all_conflicts-Grows [] ids conflicts d = ((λ pair. ground arith), d)
all_conflicts-Grows (rule ∷ rules) ids conflicts d =
    let (first, distinct) = rule_conflicts-Grows rule.conflicts_with ids rule.id conflicts d in
    let (known, all) =
      all_conflicts-Grows rules ids (rule_conflicts ids rule.id conflicts rule.conflicts_with)
        distinct in
    ((λ pair. ground (arith, first pair, known pair)), all)

-- What a compiled set promises of the packs it was compiled from.
pub record IsCompiled (packs : List ResolvedPack) (set : CompiledPolicySet) : Type 0 where
  pub rules : set.rules ≡ rules_of_packs packs
  pub locks : set.packs ≡ map pack_lock packs
  pub distinct_rules : HasDistinctIds set.rules
  pub distinct_conflicts : Distinct (λ c. c) set.conflicts
  pub declared :
      (pair : PolicyConflict)
      → has_pair pair set.conflicts ≡ any (declares (rule_ids_of set.rules) pair) set.rules

-- A compiled set holds the locks and the rules of the given packs, with the core pack added where
-- it was not among them, built-in packs first and then by id; no two rules share an id; and its conflicts are, each once, the pairs that a rule
-- declares with a rule of the set.
pub compile_packs-IsCompiled :
    (core : Result CompileError ResolvedPack) (digest : List PackLock → Text)
    (packs : List ResolvedPack) (set : CompiledPolicySet)
    → compile_packs core digest packs ≡ ok set
    → (complete : List ResolvedPack) × (with_core packs core ≡ ok complete)
      × IsCompiled (sort_by pack_before complete) set
      × (set.resolution_digest ≡ digest set.packs)
unfolding compile_packs member
compile_packs-IsCompiled core digest packs set h = elim (Result-cases (with_core packs core)) [
  | inr (e, refused) ↦ cc (rw refused at h)
  | inl (complete, has_core) ↦
      let kept = rw has_core at h in
      let sorted = sort_by pack_before complete in
      elim (Result-cases (collect_packs [] [] [] sorted)) [
        | inr (e, refused) ↦ cc (rw refused at kept)
        | inl (rules, taken) ↦
            let (distinct, all) =
              collect_packs-HasDistinctIds sorted [] [] [] rules ((λ id. refl), tt) taken in
            let (known, once) = all_conflicts-Grows rules (rule_ids_of rules) [] tt in
            let made : record {
              schema_version = 1;
              resolution_digest = digest (map pack_lock sorted);
              packs = map pack_lock sorted;
              rules = rules;
              conflicts = all_conflicts (rule_ids_of rules) [] rules;
            }
                ≡ set =
              cc (rw taken at kept) in
            (
              complete,
              has_core,
              subst (IsCompiled sorted) made (record {
                rules = all;
                locks = refl;
                distinct_rules = distinct;
                distinct_conflicts = once;
                declared = known;
              }),
              subst (λ s. s.resolution_digest ≡ digest s.packs) made refl,
            )
      ]
]
