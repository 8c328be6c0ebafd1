-- ===== src/Policy/Store.antt =====
-- src/policy/store.rs: the cache of installed packs. The index and the entries are what is on disk;
-- reads and writes succeed, and an entry stands for what `load_and_validate_pack` makes of it.
use git_slop.Base.{
  ℕ, Bool, true, false, not, ◌&&◌, ◌||◌, Option, none, some, List, [], ◌∷◌, ◌==◌, leb,
  if◌then◌else◌, length, any, all, Text, codes, text_eq, is_digit, BTreeMap, lookup, insert, remove,
  Result, ok, err, bail_if, ok_or, ◌>>=◌, ◌>>◌,
}
use git_slop.Policy.Model.{ResolvedPack, PackLock}

pub data StoreError : Type 0 where
  bad_index_schema bad_digest symlinked_entry invalid_pack : StoreError
  inconsistent_entry not_installed digest_mismatch : StoreError
  bad_selection_schema core_selected duplicate_selected : StoreError
  core_not_removable still_selected compile_failed : StoreError
  not_locked lock_schema_mismatch bad_lock_schema lock_mismatch unknown_policy : StoreError

pub record CacheIndex : Type 0 where
  pub schema_version : ℕ
  pub packs : BTreeMap Text

pub record PolicySelection : Type 0 where
  pub schema_version : ℕ
  pub packs : List Text

pub record PolicyLock : Type 0 where
  pub schema_version : ℕ
  pub resolution_digest : Text
  pub packs : List PackLock

-- A directory of the cache; a symbolic link is followed when it is loaded.
pub record Entry : Type 0 where
  pub is_symlink : Bool
  pub loaded : Option ResolvedPack

-- The user's cache, and the two files of the repository; a file that is missing reads as empty.
pub record World : Type 0 where
  pub index : CacheIndex
  pub contents : BTreeMap Entry
  pub selection : PolicySelection
  pub lock : Option PolicyLock

abbrev pub is_digest_char : ℕ → Bool
is_digest_char c = is_digit c || (leb b'a' c && leb c b'f')

unfoldable pub valid_content_digest : Text → Bool
valid_content_digest value = length value == 64 && all is_digest_char value

unfoldable pub valid_digests : BTreeMap Text → Bool
unfolding valid_content_digest
valid_digests [] = true
valid_digests ((id, digest) ∷ packs) = valid_content_digest digest && valid_digests packs

unfoldable pub read_index : World → Result StoreError CacheIndex
read_index w = do
  bail_if (not (w.index.schema_version == 1)) StoreError.bad_index_schema
  bail_if (not (valid_digests w.index.packs)) StoreError.bad_digest
  ok w.index

abbrev pub loaded_from : Option Entry → Option ResolvedPack
loaded_from none = none
loaded_from (some entry) = entry.loaded

-- The pack as `installed` gives it, where it still is what the index says.
abbrev pub from_cache : Text → ResolvedPack → ResolvedPack
from_cache digest pack = record pack { source_type = codes "user-cache"; source_revision = digest }

unfoldable pub verified : Text → Text → Option ResolvedPack → Result StoreError ResolvedPack
verified id digest none = err StoreError.invalid_pack
verified id digest (some pack) =
    if not (text_eq pack.manifest.id id) || not (text_eq pack.content_digest digest)
    then err StoreError.digest_mismatch
    else ok (from_cache digest pack)

unfoldable pub load_installed : Text → World → Option Text → Result StoreError ResolvedPack
unfolding verified
load_installed id w none = err StoreError.not_installed
load_installed id w (some digest) = verified id digest (loaded_from (lookup digest w.contents))

unfoldable pub installed : Text → World → Result StoreError ResolvedPack
unfolding read_index load_installed
installed id w = read_index w >>= λ index. load_installed id w (lookup id index.packs)

-- Whether the pack has to be copied, or is there.
unfoldable pub must_copy : ResolvedPack → Option Entry → Result StoreError Bool
must_copy pack none = ok true
must_copy pack (some entry) = do
  bail_if entry.is_symlink StoreError.symlinked_entry
  existing ← ok_or entry.loaded StoreError.invalid_pack
  bail_if
      (not (text_eq existing.content_digest pack.content_digest)
        || not (text_eq existing.manifest.id pack.manifest.id))
      StoreError.inconsistent_entry
  ok false

-- The copy of a pack has the pack's declared files, so that it loads as the pack.
abbrev pub copied : ResolvedPack → Bool → World → World
copied pack false w = w
copied pack true w = record w {
  contents =
      insert pack.content_digest (record { is_symlink = false; loaded = some pack }) w.contents;
}

abbrev pub Outcome : Type 0 → Type 0
Outcome A = World × Result StoreError A

unfoldable pub publish : ResolvedPack → World → Result StoreError CacheIndex → Outcome (Unit {0})
publish pack w (err e) = (w, err e)
publish pack w (ok index) = (
  record w {
    index = record index { packs = insert pack.manifest.id pack.content_digest index.packs };
  },
  ok tt,
)

unfoldable pub copy_and_publish : ResolvedPack → World → Result StoreError Bool → Outcome (Unit {0})
unfolding publish
copy_and_publish pack w (err e) = (w, err e)
copy_and_publish pack w (ok copy) = let w' = copied pack copy w in publish pack w' (read_index w')

unfoldable pub install : ResolvedPack → World → Outcome (Unit {0})
unfolding copy_and_publish must_copy
install pack w = copy_and_publish pack w (must_copy pack (lookup pack.content_digest w.contents))

pub record RemoveResult : Type 0 where
  pub removed : Bool
  pub cache_path : Option Text
  pub content_removed : Bool

abbrev pub removed_entry : Text → Bool → RemoveResult
removed_entry digest content = record {
  removed = true;
  cache_path = some digest;
  content_removed = content;
}

unfoldable pub drop_entry : Text → World → Option Entry → Outcome RemoveResult
drop_entry digest w none = (w, ok (removed_entry digest false))
drop_entry digest w (some entry) =
    if entry.is_symlink
    then (w, err StoreError.symlinked_entry)
    else (record w { contents = remove digest w.contents }, ok (removed_entry digest true))

abbrev pub is_value : Text → Text × Text → Bool
is_value digest (id, d) = text_eq d digest

unfoldable pub drop_digest : Text → World → CacheIndex → Option Text → Outcome RemoveResult
unfolding drop_entry
drop_digest id w index none =
    (w, ok (record { removed = false; cache_path = none; content_removed = false }))
drop_digest id w index (some digest) =
    let packs = remove id index.packs in
    let w' = record w { index = record index { packs = packs } } in
    if any (is_value digest) packs
    then (w', ok (removed_entry digest false))
    else drop_entry digest w' (lookup digest w.contents)

unfoldable pub remove_from : Text → World → Result StoreError CacheIndex → Outcome RemoveResult
unfolding drop_digest
remove_from id w (err e) = (w, err e)
remove_from id w (ok index) = drop_digest id w index (lookup id index.packs)

-- `store::remove`.
unfoldable pub uninstall : Text → World → Outcome RemoveResult
unfolding remove_from
uninstall id w = remove_from id w (read_index w)
