-- ===== src/Policy/Commands.antt =====
-- The commands that change the cache, the selection or the lock, as steps.
use git_slop.Base.{
  ◌≡◌, inl, inr, refl, Bool, true, false, not, ◌&&◌, ◌||◌, Option, none, some, List, arith, Text,
  codes, text_eq, text_eq_iff, member, Result, ok, err, Result-cases, Bool-cases,
}
use git_slop.Policy.Model.{ResolvedPack, PackLock}
use git_slop.Policy.Manifest.{core_pack_id}
use git_slop.Policy.Compile.{CompileError}
use git_slop.Policy.Store.{
  StoreError, PolicySelection, PolicyLock, World, Outcome, RemoveResult, valid_content_digest,
  installed, install, uninstall,
}
use git_slop.Policy.Lifecycle.{
  read_selection, is_there, differs, written, unlocked, with_pack, after_install, install_selected,
  install_loaded, install_pack, remove_receipt, unselected, remove_selected, remove_pack, lock_of,
  compile_selected, lock_selected_packs,
}
use git_slop.Policy.Changes.{
  Keeps, SameRepository, IsOther, InstallKeeps, install-Keeps, uninstall-Keeps,
}
use git_slop.Policy.Locked.{
  IsLocked, kept-IsLocked, unlocked-IsLocked, read_selection-own, compile_selected-kept,
}

same_content :
    (r : Result StoreError ResolvedPack) (p : ResolvedPack) (digest : Text)
    → r ≡ ok p
    → differs r digest ≡ false
    → text_eq p.content_digest digest ≡ true
same_content (err e) p digest h k = cc
same_content (ok q) p digest h k = let same : q ≡ p = cc in rw (← same) (ground arith)

absent : (o : Option PolicyLock) → is_there o ≡ false → o ≡ none
absent none h = refl
absent (some lock) h = cc

module _ (pack : ResolvedPack) (select : Bool) (w : World) where
  abbrev known : PolicySelection → Bool
  known s = member pack.manifest.id s.packs

  -- A selected pack is another one, or its content did not change.
  unchanged-IsOther :
      (s : PolicySelection)
      → s ≡ w.selection
      → ((select && not (known s))
          || known s && differs (installed pack.manifest.id w) pack.content_digest)
        ≡ false
      → (id : Text) (p : ResolvedPack) → member id w.selection.packs ≡ true
      → installed id w ≡ ok p
      → IsOther pack id p
  unchanged-IsOther s own quiet id p chosen here = elim (Bool-cases (text_eq pack.manifest.id id)) [
    | inr other ↦ inl other
    | inl same ↦
        let path = (text_eq_iff pack.manifest.id id).0 same in
        let found : known s ≡ true = rw (own, path) chosen in
        let quiet' : differs (installed pack.manifest.id w) pack.content_digest ≡ false =
          ground arith in
        inr
          (same_content (installed pack.manifest.id w) p pack.content_digest (rw path here) quiet')
  ]

lock-unlocked : (b : Bool) (w : World) → (b ≡ false → w.lock ≡ none) → (unlocked b w).lock ≡ none
lock-unlocked true w h = refl
lock-unlocked false w h = h refl

lock-written : (b : Bool) (s : PolicySelection) (w : World) → (written b s w).lock ≡ w.lock
lock-written true s w = refl
lock-written false s w = refl

module _ (core : Result CompileError ResolvedPack) (digest : List PackLock → Text) where
  -- A change of the selection or of a selected pack takes the lock away; otherwise it is kept.
  settled-IsLocked :
      (changed content : Bool) (s : PolicySelection) (w' : World)
      → ((changed || content) ≡ false → IsLocked core digest w')
      → IsLocked core digest
          (unlocked ((changed || content) && is_there w'.lock) (written changed s w'))
  settled-IsLocked false false s w' quiet = quiet refl
  settled-IsLocked false true s w' quiet =
      unlocked-IsLocked core digest (unlocked (is_there w'.lock) w')
        (lock-unlocked (is_there w'.lock) w' (absent w'.lock))
  settled-IsLocked true content s w' quiet =
      unlocked-IsLocked core digest (unlocked (is_there w'.lock) (written true s w'))
        (lock-unlocked (is_there w'.lock) (written true s w') (absent w'.lock))

  after_install-IsLocked :
      (pack : ResolvedPack) (select : Bool) (w w' : World) (s : PolicySelection)
      → s ≡ w.selection
      → Keeps (IsOther pack) w w'
      → SameRepository w w'
      → IsLocked core digest w
      → IsLocked core digest (after_install pack select s (installed pack.manifest.id w) w').0
  unfolding after_install
  after_install-IsLocked pack select w w' s own keep same locked =
      let known = member pack.manifest.id s.packs in
      let changed = select && not known in
      settled-IsLocked changed
        ((changed || known) && differs (installed pack.manifest.id w) pack.content_digest)
        (with_pack s pack.manifest.id) w'
        (λ quiet.
          kept-IsLocked core digest (IsOther pack) w w' keep same
            (unchanged-IsOther pack select w s own (ground arith)) locked)

  install_selected-IsLocked :
      (pack : ResolvedPack) (select : Bool) (w : World) (s : PolicySelection)
      (r : Outcome (Unit {0}))
      → s ≡ w.selection
      → InstallKeeps pack w r
      → IsLocked core digest w
      → IsLocked core digest (install_selected pack select s (installed pack.manifest.id w) r).0
  unfolding install_selected
  install_selected-IsLocked pack select w s (w', ok done) own (keep, same) locked =
      after_install-IsLocked pack select w w' s own keep same locked
  install_selected-IsLocked pack select w s (w', err e) own (keep, same) locked =
      kept-IsLocked core digest (λ id p. Unit) w w' keep same (λ id p m i. tt) locked

  install_pack-IsLocked :
      (pack : ResolvedPack) (select : Bool) (w : World)
      → valid_content_digest pack.content_digest ≡ true
      → IsLocked core digest w
      → IsLocked core digest (install_pack (ok pack) select w).0
  unfolding install_pack install_loaded
  install_pack-IsLocked pack select w valid locked = elim (Result-cases (read_selection w)) [
    | inr (e, refused) ↦ rw refused locked
    | inl (s, read) ↦ rw read (
        install_selected-IsLocked pack select w s (install pack w) (read_selection-own w s read)
          (install-Keeps pack w valid) locked)
  ]

  remove_receipt-IsLocked :
      (changed invalidated : Bool) (r : Outcome RemoveResult)
      → IsLocked core digest (r.0)
      → IsLocked core digest (remove_receipt changed invalidated r).0
  remove_receipt-IsLocked changed invalidated (w, err e) h = h
  remove_receipt-IsLocked changed invalidated (w, ok removal) h = h

  not_selected :
      (id other : Text) (ids : List Text)
      → member id ids ≡ false
      → member other ids ≡ true
      → text_eq id other ≡ false
  not_selected id other ids h k = ground (arith, text_eq_iff id other)

  remove_selected-IsLocked :
      (id : Text) (unselect : Bool) (w : World) (s : PolicySelection)
      → s ≡ w.selection
      → IsLocked core digest w
      → IsLocked core digest (remove_selected id unselect w (ok s)).0
  unfolding remove_selected unselected
  remove_selected-IsLocked id unselect w s own locked = elim (Bool-cases (member id s.packs)) [
    | inr other ↦
        let (keep, same) = uninstall-Keeps id w in
        rw other (
          remove_receipt-IsLocked false false (uninstall id w) (
            kept-IsLocked core digest _ w (uninstall id w).0 keep same
              (λ i p chosen here. not_selected id i w.selection.packs (rw (← own) other) chosen)
              locked))
    | inl chosen ↦ elim (Bool-cases unselect) [
      | inr keep ↦ rw (chosen, keep) locked
      | inl drop ↦
          let v = unselected id s w in
          let (keep, same) = uninstall-Keeps id v in
          rw (chosen, drop)
            (remove_receipt-IsLocked true (is_there w.lock) (uninstall id v)
              (unlocked-IsLocked core digest (uninstall id v).0 (same.1)))
    ]
  ]

  remove_pack-IsLocked :
      (id : Text) (unselect : Bool) (w : World)
      → IsLocked core digest w
      → IsLocked core digest (remove_pack id unselect w).0
  unfolding remove_pack
  remove_pack-IsLocked id unselect w locked =
      elim (Bool-cases (text_eq id core_pack_id || text_eq id (codes "core"))) [
        | inl is_core ↦ rw is_core locked
        | inr other ↦ rw other (by_selection (read_selection w) refl)
      ]
    where
      by_selection :
          (r : Result StoreError PolicySelection)
          → read_selection w ≡ r
          → IsLocked core digest (remove_selected id unselect w r).0
      by_selection (err e) h = unfold remove_selected in locked
      by_selection (ok s) h =
          remove_selected-IsLocked id unselect w s (read_selection-own w s h) locked

  lock_selected_packs-IsLocked :
      (w : World)
      → IsLocked core digest w
      → IsLocked core digest (lock_selected_packs core digest w).0
  unfolding lock_selected_packs
  lock_selected_packs-IsLocked w locked = elim (Result-cases (compile_selected core digest w)) [
    | inr (e, failed) ↦ rw failed locked
    | inl (set, compiled) ↦ rw compiled (λ lock there.
        let w' = record w { lock = some (lock_of set) } in
        (
          set,
          compile_selected-kept core digest (λ id p. Unit) w w' set (λ id p any i. i) refl
              (λ id p m i. tt) compiled,
          cc,
        ))
  ]

module _ (core : Result CompileError ResolvedPack) (digest : List PackLock → Text) where
  -- A command, successful or not: what it leaves of the world. The digest of a loaded pack is one.
  pub data Step (w : World) : World → Type 0 where
    installs :
        (pack : ResolvedPack) (select : Bool)
        → valid_content_digest pack.content_digest ≡ true
        → Step w (install_pack (ok pack) select w).0
    removes : (id : Text) (unselect : Bool) → Step w (remove_pack id unselect w).0
    locks : Step w (lock_selected_packs core digest w).0

  pub data Reach (w : World) : World → Type 0 where
    here : Reach w w
    next : {u v : World} → Reach w u → Step u v → Reach w v

  Step-IsLocked : {w v : World} → Step w v → IsLocked core digest w → IsLocked core digest v
  Step-IsLocked {w} (installs pack select valid) locked =
      install_pack-IsLocked core digest pack select w valid locked
  Step-IsLocked {w} (removes id unselect) locked =
      remove_pack-IsLocked core digest id unselect w locked
  Step-IsLocked {w} locks locked = lock_selected_packs-IsLocked core digest w locked

  pub Reach-IsLocked : {w v : World} → Reach w v → IsLocked core digest w → IsLocked core digest v
  Reach-IsLocked here locked = locked
  Reach-IsLocked (next r step) locked = Step-IsLocked step (Reach-IsLocked r locked)
