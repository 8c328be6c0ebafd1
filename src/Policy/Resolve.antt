-- ===== src/Policy/Resolve.antt =====
-- src/policy/lifecycle.rs: `resolve_for_advice`, the policies that an advice is given.
use git_slop.Base.{
  Bool, true, false, not, ◌&&◌, ◌||◌, List, [], ◌∷◌, ◌++◌, ◌==◌, any, all, filter, Text, codes,
  text_eq, starts_with, member, is_empty, is_digit, leb, length, split, Result, ok, bail_if, ok_or,
  ◌>>=◌, ◌>>◌,
}
use git_slop.Policy.Model.{
  ResolvedPack, EntrypointLock, PackLock, PolicyConflict, CompiledPolicySet,
}
use git_slop.Policy.Manifest.{core_pack_id}
use git_slop.Policy.Compile.{CompileError, compile_packs, rule_ids_of, policy_lock_schema_version}
use git_slop.Policy.Store.{StoreError, PolicyLock, World, valid_content_digest}
use git_slop.Policy.Lifecycle.{read_selection, all_selected, lifted}

-- The derived equality of the locks.
unfoldable pub same_entrypoints : List EntrypointLock → List EntrypointLock → Bool
same_entrypoints [] [] = true
same_entrypoints [] (b ∷ bs) = false
same_entrypoints (a ∷ as') [] = false
same_entrypoints (a ∷ as') (b ∷ bs) =
    text_eq a.path b.path && text_eq a.sha256 b.sha256 && same_entrypoints as' bs

unfoldable pub same_lock : PackLock → PackLock → Bool
unfolding same_entrypoints
same_lock a b =
    text_eq a.id b.id
    && text_eq a.version b.version
    && a.schema_version == b.schema_version
    && text_eq a.source_type b.source_type
    && text_eq a.source_revision b.source_revision
    && text_eq a.content_digest b.content_digest
    && same_entrypoints a.entrypoints b.entrypoints

unfoldable pub same_locks : List PackLock → List PackLock → Bool
unfolding same_lock
same_locks [] [] = true
same_locks [] (b ∷ bs) = false
same_locks (a ∷ as') [] = false
same_locks (a ∷ as') (b ∷ bs) = same_lock a b && same_locks as' bs

-- `policy-lock-1.json`, on a lock whose fields have their types: a digest is 64 lower hexadecimal
-- digits, and a version three numbers with dots between them.
abbrev pub is_number : Text → Bool
is_number part = not (is_empty part) && all is_digit part

abbrev pub is_three_numbers : List Text → Bool
is_three_numbers parts = length parts == 3 && all is_number parts

unfoldable pub entrypoint_matches : EntrypointLock → Bool
entrypoint_matches e = not (is_empty e.path) && valid_content_digest e.sha256

abbrev pub source_types : List Text
source_types = codes "built-in" ∷ codes "local-directory" ∷ codes "user-cache" ∷ []

unfoldable pub pack_matches : PackLock → Bool
unfolding entrypoint_matches
pack_matches lock =
    leb 3 (length lock.id)
    && leb (length lock.id) 160
    && is_three_numbers (split b'.' lock.version)
    && lock.schema_version == 1
    && member lock.source_type source_types
    && valid_content_digest lock.source_revision
    && valid_content_digest lock.content_digest
    && leb 1 (length lock.entrypoints)
    && leb (length lock.entrypoints) 16
    && all entrypoint_matches lock.entrypoints

unfoldable pub lock_matches_schema : PolicyLock → Bool
unfolding pack_matches
lock_matches_schema lock =
    lock.schema_version == 1
    && valid_content_digest lock.resolution_digest
    && leb 1 (length lock.packs)
    && leb (length lock.packs) 65
    && all pack_matches lock.packs

unfoldable pub read_lock : World → Result StoreError PolicyLock
unfolding lock_matches_schema
read_lock w = do
  lock ← ok_or w.lock StoreError.not_locked
  bail_if (not (lock_matches_schema lock)) StoreError.lock_schema_mismatch
  bail_if (not (lock.schema_version == policy_lock_schema_version)) StoreError.bad_lock_schema
  ok lock

-- A selection that is not empty has to be locked.
unfoldable pub check_lock : List Text → World → CompiledPolicySet → Result StoreError (Unit {0})
unfolding read_lock same_locks
check_lock [] w compiled = ok tt
check_lock (id ∷ ids) w compiled = do
  lock ← read_lock w
  bail_if
      (not (same_locks lock.packs compiled.packs)
        || not (text_eq lock.resolution_digest compiled.resolution_digest))
      StoreError.lock_mismatch
  ok tt

unfoldable pub lock_ids : List PackLock → List Text
lock_ids [] = []
lock_ids (lock ∷ locks) = lock.id ∷ lock_ids locks

-- The rule or its pack is requested.
abbrev pub requests : Text → Text → Bool
requests id requested = text_eq requested id || starts_with id (requested ++ codes ".")

unfoldable pub is_retained : List Text → Text → Bool
is_retained requested id = starts_with id (core_pack_id ++ codes ".") || any (requests id) requested

abbrev pub joins : List Text → PolicyConflict → Bool
joins ids conflict = member conflict.left_rule_id ids && member conflict.right_rule_id ids

unfoldable pub restricted : List Text → CompiledPolicySet → CompiledPolicySet
unfolding is_retained
restricted requested compiled =
    let rules = filter (λ rule. is_retained requested rule.id) compiled.rules in
    record compiled {
      rules = rules;
      conflicts = filter (joins (rule_ids_of rules)) compiled.conflicts;
    }

abbrev pub is_known_policy : CompiledPolicySet → Text → Bool
is_known_policy compiled id =
    member id (lock_ids compiled.packs) || member id (rule_ids_of compiled.rules)

unfoldable pub choose_requested :
    List Text → CompiledPolicySet → Result StoreError CompiledPolicySet
unfolding restricted lock_ids
choose_requested [] compiled = ok compiled
choose_requested (r ∷ rs) compiled = do
  bail_if (not (all (is_known_policy compiled) (r ∷ rs))) StoreError.unknown_policy
  ok (restricted (r ∷ rs) compiled)

module _ (core : Result CompileError ResolvedPack) (digest : List PackLock → Text) where
  unfoldable pub resolve_for_advice : List Text → World → Result StoreError CompiledPolicySet
  unfolding check_lock choose_requested
  resolve_for_advice requested w = do
    selection ← read_selection w
    packs ← all_selected w selection.packs
    compiled ← lifted (compile_packs core digest packs)
    check_lock selection.packs w compiled
    choose_requested requested compiled
