-- ===== src/Policy/Compile.antt =====
-- src/policy/validate.rs: `compile_packs`.
use git_slop.Base.{
  ℕ, Bool, not, ◌&&◌, ◌||◌, List, [], ◌∷◌, ◌++◌, map, if◌then◌else◌, any, Text, text_eq, text_lt,
  member, insert_key, sort_by, Result, ok, err, ◌>>=◌,
}
use git_slop.Policy.Model.{PackRule, ResolvedPack, PackLock, PolicyConflict, CompiledPolicySet}
use git_slop.Policy.Manifest.{core_pack_id}

abbrev pub policy_lock_schema_version : ℕ
policy_lock_schema_version = 1

pub data CompileError : Type 0 where
  core_pack_invalid duplicate_pack duplicate_rule : CompileError

unfoldable pub pack_lock : ResolvedPack → PackLock
pack_lock pack = record {
  id = pack.manifest.id;
  version = pack.manifest.version;
  schema_version = pack.manifest.schema_version;
  source_type = pack.source_type;
  source_revision = pack.source_revision;
  content_digest = pack.content_digest;
  entrypoints = pack.entrypoint_digests;
}

-- Built-in packs come first, then the smaller id.
unfoldable pub pack_before : ResolvedPack → ResolvedPack → Bool
pack_before a b =
    (a.built_in && not b.built_in)
    || (not (a.built_in && not b.built_in)
        && not (b.built_in && not a.built_in)
        && text_lt a.manifest.id b.manifest.id)

-- The loop over the rules of a pack, with the ids and the rules so far.
unfoldable pub collect_rules :
    List Text → List PackRule → List PackRule → Result CompileError (List Text × List PackRule)
collect_rules rule_ids rules [] = ok (rule_ids, rules)
collect_rules rule_ids rules (rule ∷ more) =
    let next = collect_rules (insert_key rule.id rule_ids) (rules ++ rule ∷ []) more in
    if member rule.id rule_ids then err CompileError.duplicate_rule else next

unfoldable pub collect_packs :
    List Text → List Text → List PackRule → List ResolvedPack → Result CompileError (List PackRule)
unfolding collect_rules
collect_packs pack_ids rule_ids rules [] = ok rules
collect_packs pack_ids rule_ids rules (pack ∷ packs) =
    let next = collect_rules rule_ids rules pack.manifest.rules >>= λ p.
    collect_packs (insert_key pack.manifest.id pack_ids) (p.0) (p.1) packs in
    if member pack.manifest.id pack_ids then err CompileError.duplicate_pack else next

-- The two ids in order.
unfoldable pub ordered_pair : Text → Text → PolicyConflict
ordered_pair id other =
    if text_lt id other
    then record { left_rule_id = id; right_rule_id = other }
    else record { left_rule_id = other; right_rule_id = id }

abbrev pub same_pair : PolicyConflict → PolicyConflict → Bool
same_pair a b = text_eq a.left_rule_id b.left_rule_id && text_eq a.right_rule_id b.right_rule_id

-- `seen_conflicts` holds the pairs of `conflicts`.
unfoldable pub add_conflict : List PolicyConflict → PolicyConflict → List PolicyConflict
add_conflict conflicts pair =
    if any (λ c. same_pair c pair) conflicts then conflicts else conflicts ++ pair ∷ []

unfoldable pub rule_conflicts :
    List Text → Text → List PolicyConflict → List Text → List PolicyConflict
unfolding ordered_pair add_conflict
rule_conflicts ids id conflicts [] = conflicts
rule_conflicts ids id conflicts (other ∷ others) =
    rule_conflicts ids id
      (if member other ids then add_conflict conflicts (ordered_pair id other) else conflicts)
      others

unfoldable pub all_conflicts : List Text → List PolicyConflict → List PackRule → List PolicyConflict
unfolding rule_conflicts
all_conflicts ids conflicts [] = conflicts
all_conflicts ids conflicts (rule ∷ rules) =
    all_conflicts ids (rule_conflicts ids rule.id conflicts rule.conflicts_with) rules

abbrev pub rule_ids_of : List PackRule → List Text
rule_ids_of [] = []
rule_ids_of (rule ∷ rules) = rule.id ∷ rule_ids_of rules

abbrev pub is_core : ResolvedPack → Bool
is_core pack = pack.built_in && text_eq pack.manifest.id core_pack_id

unfoldable pub with_core :
    List ResolvedPack → Result CompileError ResolvedPack → Result CompileError (List ResolvedPack)
with_core packs core =
    if any is_core packs then ok packs else (core >>= λ pack. ok (packs ++ pack ∷ []))

-- The built-in pack as `core_pack` loads it, and the digest of the locks, are arguments.
unfoldable pub compile_packs :
    Result CompileError ResolvedPack
    → (List PackLock → Text)
    → List ResolvedPack
    → Result CompileError CompiledPolicySet
unfolding collect_packs all_conflicts with_core pack_before pack_lock
compile_packs core digest packs = do
  complete ← with_core packs core
  let sorted = sort_by pack_before complete
  rules ← collect_packs [] [] [] sorted
  let locks = map pack_lock sorted
  ok (record {
    schema_version = policy_lock_schema_version;
    resolution_digest = digest locks;
    packs = locks;
    rules = rules;
    conflicts = all_conflicts (rule_ids_of rules) [] rules;
  })
