-- ===== src/Policy/Lifecycle.antt =====
-- src/policy/lifecycle.rs: the commands that change the selection and the lock, and the policies of
-- an advice. Of a receipt stand the facts, not the wording and the paths.
use git_slop.Base.{
  Bool, true, false, not, ◌&&◌, ◌||◌, Option, none, some, List, [], ◌∷◌, ◌++◌, ◌==◌, if◌then◌else◌,
  filter, Text, codes, text_eq, text_lt, member, insert_key, sort_by, Result, ok, err, bail_if,
  ◌>>=◌, ◌>>◌,
}
use git_slop.Policy.Model.{ResolvedPack, PackLock, CompiledPolicySet}
use git_slop.Policy.Manifest.{core_pack_id}
use git_slop.Policy.Compile.{CompileError, compile_packs, policy_lock_schema_version}
use git_slop.Policy.Store.{
  StoreError, PolicySelection, PolicyLock, World, Outcome, RemoveResult, installed, install,
  uninstall,
}

-- The loop over the selected ids, with the ids so far.
unfoldable pub check_selected : List Text → List Text → Result StoreError (Unit {0})
check_selected seen [] = ok tt
check_selected seen (id ∷ ids) =
    let rest = check_selected (insert_key id seen) ids in
    if text_eq id core_pack_id
    then err StoreError.core_selected
    else if member id seen
    then err StoreError.duplicate_selected
    else rest

unfoldable pub read_selection : World → Result StoreError PolicySelection
unfolding check_selected
read_selection w = do
  bail_if (not (w.selection.schema_version == 1)) StoreError.bad_selection_schema
  check_selected [] w.selection.packs
  ok w.selection

unfoldable pub all_selected : World → List Text → Result StoreError (List ResolvedPack)
all_selected w [] = ok []
all_selected w (id ∷ ids) = do pack ← installed id w; packs ← all_selected w ids; ok (pack ∷ packs)

pub record InstallReceipt : Type 0 where
  pub selected : Bool
  pub selection_changed : Bool
  pub lock_invalidated : Bool

abbrev pub is_there {ℓ} : {A : Type ℓ} → Option A → Bool
is_there none = false
is_there (some a) = true

abbrev pub differs : Result StoreError ResolvedPack → Text → Bool
differs (err e) digest = true
differs (ok previous) digest = not (text_eq previous.content_digest digest)

abbrev pub with_pack : PolicySelection → Text → PolicySelection
with_pack selection id = record selection { packs = sort_by text_lt (selection.packs ++ id ∷ []) }

abbrev pub written : Bool → PolicySelection → World → World
written true selection w = record w { selection = selection }
written false selection w = w

abbrev pub unlocked : Bool → World → World
unlocked true w = record w { lock = none }
unlocked false w = w

-- What follows on a successful `store::install`; `previous` was read before it.
unfoldable pub after_install :
    ResolvedPack
    → Bool
    → PolicySelection
    → Result StoreError ResolvedPack
    → World
    → Outcome InstallReceipt
after_install pack select selection previous w =
    let known = member pack.manifest.id selection.packs in
    let changed = select && not known in
    let w' = written changed (with_pack selection pack.manifest.id) w in
    let selected = changed || known in
    let content_changed = selected && differs previous pack.content_digest in
    let invalidated = (changed || content_changed) && is_there w.lock in
    (
      unlocked invalidated w',
      ok (record {
        selected = selected;
        selection_changed = changed;
        lock_invalidated = invalidated;
      }),
    )

unfoldable pub install_selected :
    ResolvedPack
    → Bool
    → PolicySelection
    → Result StoreError ResolvedPack
    → Outcome (Unit {0})
    → Outcome InstallReceipt
unfolding after_install
install_selected pack select selection previous (w, ok done) =
    after_install pack select selection previous w
install_selected pack select selection previous (w, err e) = (w, err e)

unfoldable pub install_loaded :
    ResolvedPack → Bool → World → Result StoreError PolicySelection → Outcome InstallReceipt
unfolding install_selected
install_loaded pack select w (err e) = (w, err e)
install_loaded pack select w (ok selection) =
    install_selected pack select selection (installed pack.manifest.id w) (install pack w)

-- The pack that the source directory holds, if it is valid, is an argument.
unfoldable pub install_pack : Result StoreError ResolvedPack → Bool → World → Outcome InstallReceipt
unfolding install_loaded
install_pack (err e) select w = (w, err e)
install_pack (ok pack) select w = install_loaded pack select w (read_selection w)

pub record RemoveReceipt : Type 0 where
  pub removal : RemoveResult
  pub selection_changed : Bool
  pub lock_invalidated : Bool

abbrev pub remove_receipt : Bool → Bool → Outcome RemoveResult → Outcome RemoveReceipt
remove_receipt changed invalidated (w, err e) = (w, err e)
remove_receipt changed invalidated (w, ok removal) = (
  w,
  ok (record { removal = removal; selection_changed = changed; lock_invalidated = invalidated }),
)

-- The selection without the pack; the lock goes with it.
unfoldable pub unselected : Text → PolicySelection → World → World
unselected id selection w = record w {
  selection = record selection { packs = filter (λ s. not (text_eq s id)) selection.packs };
  lock = none;
}

unfoldable pub remove_selected :
    Text → Bool → World → Result StoreError PolicySelection → Outcome RemoveReceipt
unfolding unselected
remove_selected id unselect w (err e) = (w, err e)
remove_selected id unselect w (ok selection) =
    if member id selection.packs
    then (if not unselect
        then (w, err StoreError.still_selected)
        else remove_receipt true (is_there w.lock) (uninstall id (unselected id selection w)))
    else remove_receipt false false (uninstall id w)

unfoldable pub remove_pack : Text → Bool → World → Outcome RemoveReceipt
unfolding remove_selected
remove_pack id unselect w =
    if text_eq id core_pack_id || text_eq id (codes "core")
    then (w, err StoreError.core_not_removable)
    else remove_selected id unselect w (read_selection w)

abbrev pub lifted : {A : Type 0} → Result CompileError A → Result StoreError A
lifted (ok a) = ok a
lifted (err e) = err StoreError.compile_failed

abbrev pub lock_of : CompiledPolicySet → PolicyLock
lock_of set = record {
  schema_version = policy_lock_schema_version;
  resolution_digest = set.resolution_digest;
  packs = set.packs;
}

-- The core pack and the digest of the locks, as `compile_packs` takes them.
module _ (core : Result CompileError ResolvedPack) (digest : List PackLock → Text) where
  unfoldable pub compile_selected : World → Result StoreError CompiledPolicySet
  unfolding all_selected
  compile_selected w = do
    selection ← read_selection w
    packs ← all_selected w selection.packs
    lifted (compile_packs core digest packs)

  abbrev pub write_lock : World → Result StoreError CompiledPolicySet → Outcome PolicyLock
  write_lock w (err e) = (w, err e)
  write_lock w (ok set) = (record w { lock = some (lock_of set) }, ok (lock_of set))

  unfoldable pub lock_selected_packs : World → Outcome PolicyLock
  unfolding compile_selected
  lock_selected_packs w = write_lock w (compile_selected w)
