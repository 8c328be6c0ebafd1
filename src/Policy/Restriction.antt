-- ===== src/Policy/Restriction.antt =====
-- The policies of an advice that requests some of them.
use git_slop.Base.{◌≡◌, All, false, ◌&&◌, some, List, [], ◌∷◌, Text, member}
use git_slop.Policy.Model.{PolicyConflict, CompiledPolicySet}
use git_slop.Policy.Compile.{rule_ids_of}
use git_slop.Policy.Conflicts.{has_pair}
use git_slop.Policy.Manifest.{core_pack_id}
use git_slop.Policy.Store.{PolicyLock, World}
use git_slop.Policy.Requested.{IsBelow, IsAnyRequested, IsKnown}

-- What a request leaves of the compiled set: the rules that it names, by themselves or by their
-- pack, and those of the core; the conflicts between them; and the packs.
pub record IsRestriction (requested : List Text) (compiled set : CompiledPolicySet) : Type 0 where
  pub packs : set.packs ≡ compiled.packs
  pub digest_same : set.resolution_digest ≡ compiled.resolution_digest
  pub known : All (IsKnown compiled) requested
  pub core_kept :
      (id : Text)
      → IsBelow core_pack_id id
      → member id (rule_ids_of set.rules) ≡ member id (rule_ids_of compiled.rules)
  pub asked_kept :
      (id : Text)
      → IsAnyRequested id requested
      → member id (rule_ids_of set.rules) ≡ member id (rule_ids_of compiled.rules)
  pub rest_dropped :
      (id : Text)
      → (IsBelow core_pack_id id → ⊥)
      → (IsAnyRequested id requested → ⊥)
      → member id (rule_ids_of set.rules) ≡ false
  pub conflicts :
      (pair : PolicyConflict)
      → has_pair pair set.conflicts ≡ (
          has_pair pair compiled.conflicts
          && member pair.left_rule_id (rule_ids_of set.rules)
          && member pair.right_rule_id (rule_ids_of set.rules))

-- Where packs are selected there is a lock, with the digest of the set.
abbrev pub IsAuthorized : List Text → World → Text → Type 0
IsAuthorized [] w set_digest = Unit
IsAuthorized (id ∷ ids) w set_digest =
    (lock : PolicyLock) × (w.lock ≡ some lock) × (lock.resolution_digest ≡ set_digest)
