-- ===== src/Examples/PolicyStore.antt =====
-- A pack that is installed with `--select` and locked, and then resolved for an advice.
use git_slop.Base.{
  ◌≡◌, refl, true, false, subst, none, some, [], ◌∷◌, map, Text, codes, ok, replicate, sort_by,
  insert_by, split, member, insert_key, text_eq, text_lt, lookup, insert,
}
use git_slop.Policy.Model.{ResolvedPack, CompiledPolicySet}
use git_slop.Policy.Compile.{compile_packs, pack_lock}
use git_slop.Policy.Store.{
  World, PolicyLock, from_cache, valid_content_digest, valid_digests, installed, install,
}
use git_slop.Policy.Lifecycle.{install_pack, lock_selected_packs, lock_of, read_selection}
use git_slop.Policy.Commands.{Step, Reach}
use git_slop.Policy.Resolve.{lock_matches_schema, pack_matches, resolve_for_advice}
use git_slop.Policy.Advice.{Reach-resolves}
use git_slop.Examples.Policy.{sha_of, resolved, core, digest, split_rule, merge_rule}

abbrev sha : Text
sha = replicate 64 b'a'

abbrev pack : ResolvedPack
pack = record resolved { content_digest = sha; source_revision = sha }

abbrev empty : World
empty = record {
  index = record { schema_version = 1; packs = [] };
  contents = [];
  selection = record { schema_version = 1; packs = [] };
  lock = none;
}

abbrev selected : World
selected = record {
  index = record { schema_version = 1; packs = (codes "acme.pack", sha) ∷ [] };
  contents = (sha, record { is_symlink = false; loaded = some pack }) ∷ [];
  selection = record { schema_version = 1; packs = codes "acme.pack" ∷ [] };
  lock = none;
}

abbrev set : CompiledPolicySet
set = record {
  schema_version = 1;
  resolution_digest = sha_of b'd';
  packs = map pack_lock (core ∷ from_cache sha pack ∷ []);
  rules = split_rule ∷ merge_rule ∷ [];
  conflicts =
      record { left_rule_id = codes "acme.pack.merge"; right_rule_id = codes "acme.pack.split" }
      ∷ [];
}

abbrev locked : World
locked = record selected { lock = some (lock_of set) }

sha_is_digest : valid_content_digest sha ≡ true
unfolding valid_content_digest
sha_is_digest = refl

install_selects : (install_pack (ok pack) true empty).0 ≡ selected
unfolding install_pack install installed valid_digests read_selection member insert lookup sort_by
    insert_by text_eq text_lt
install_selects = refl

lock_locks : (lock_selected_packs (ok core) digest selected).0 ≡ locked
unfolding lock_selected_packs valid_digests read_selection installed compile_packs lookup sort_by
    insert_by member insert_key text_eq text_lt
lock_locks = refl

commands : Reach (ok core) digest empty locked
commands = subst (Reach (ok core) digest empty) lock_locks (
    Reach.next
      (subst (Reach (ok core) digest empty) install_selects
        (Reach.next Reach.here (Step.installs pack true sha_is_digest)))
      Step.locks)

locked_matches : lock_matches_schema (lock_of set) ≡ true
unfolding lock_matches_schema pack_matches valid_content_digest member text_eq split pack_lock
locked_matches = refl

-- 65 packs that are selected make a lock of 66 with the core pack, which reading refuses.
abbrev many_locked : PolicyLock
many_locked = record (lock_of set) { packs = replicate 66 (pack_lock core) }

many_refused : lock_matches_schema many_locked ≡ false
unfolding lock_matches_schema pack_matches valid_content_digest member text_eq split pack_lock
many_refused = refl

Reach-resolves_example :
    (result : CompiledPolicySet) × (resolve_for_advice (ok core) digest [] locked ≡ ok result)
    × (result.packs ≡ set.packs)
    × (result.resolution_digest ≡ set.resolution_digest)
Reach-resolves_example =
    Reach-resolves (ok core) digest (lock_of set) commands refl refl locked_matches

abbrev one_rule : CompiledPolicySet
one_rule = record set { rules = split_rule ∷ []; conflicts = [] }
