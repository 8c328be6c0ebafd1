-- ===== src/Policy/Changes.antt =====
-- The changes of the cache that `install` and `uninstall` make, and the packs that they keep.
use git_slop.Base.{
  ◌≡◌, ◌⊎◌, inl, inr, refl, sym, ap, subst, ◌∙◌, Bool, true, false, Option, none, some, [], ◌∷◌,
  arith, any, Text, text_eq, text_eq_iff, BTreeMap, lookup, insert, remove, lookup-insert,
  lookup-remove, Result, ok, err, Result-cases, Bool-cases,
}
use git_slop.Policy.Model.{ResolvedPack}
use git_slop.Policy.Store.{
  StoreError, CacheIndex, Entry, World, Outcome, valid_content_digest, read_index, must_copy,
  copied, publish, copy_and_publish, install, RemoveResult, is_value, drop_entry, drop_digest,
  remove_from, uninstall,
}
use git_slop.Policy.Frame.{
  IsInstalled, IsInstalled-kept, read_index-IsReadable, valid_digests-insert, valid_digests-remove,
}

-- The two files of the repository are as they were.
abbrev pub SameRepository : World → World → Type 0
SameRepository w w' = (w'.selection ≡ w.selection) × (w'.lock ≡ w.lock)

-- Every installed pack of the test's ids is installed as it was.
abbrev pub Keeps : (Text → ResolvedPack → Type 0) → World → World → Type 0
Keeps P w w' = (id : Text) (p : ResolvedPack) → P id p → IsInstalled id w p → IsInstalled id w' p

-- The pack has another id than the installed one, or has its content.
abbrev pub IsOther : ResolvedPack → Text → ResolvedPack → Type 0
IsOther pack id p =
    (text_eq pack.manifest.id id ≡ false) ⊎ (text_eq p.content_digest pack.content_digest ≡ true)

same_digest : (a b c : Text) → text_eq a b ≡ true → text_eq a c ≡ true → b ≡ c
same_digest a b c h k = sym ((text_eq_iff a b).0 h) ∙ (text_eq_iff a c).0 k

module _ (pack : ResolvedPack) where
  -- The entry was there, or there was none of that digest.
  must_copy-new : (o : Option Entry) → must_copy pack o ≡ ok true → o ≡ none
  unfolding must_copy
  must_copy-new none h = refl
  must_copy-new (some entry) h = ground arith

  copied-Keeps :
      (copy : Bool) (w : World)
      → must_copy pack (lookup pack.content_digest w.contents) ≡ ok copy
      → Keeps (λ id p. Unit) w (copied pack copy w)
  copied-Keeps false w h id p any installed = installed
  copied-Keeps true w h id p any installed =
      let free = must_copy-new (lookup pack.content_digest w.contents) h in
      IsInstalled-kept id w (copied pack true w) p (installed.0)
        (λ digest entry known own held. (
          known,
          lookup-insert pack.content_digest digest
                (record { is_symlink = false; loaded = some pack }) w.contents
              ∙ elim (Bool-cases (text_eq pack.content_digest digest)) [
                | inr other ↦ rw other held
                | inl same ↦ cc (free, held, (text_eq_iff pack.content_digest digest).0 same)
              ],
        ))
        installed

  published : World → World
  published w = record w {
    index = record w.index { packs = insert pack.manifest.id pack.content_digest w.index.packs };
  }

  published-Keeps :
      (w : World)
      → valid_content_digest pack.content_digest ≡ true
      → Keeps (IsOther pack) w (published w)
  unfolding published
  published-Keeps w valid id p other installed =
      IsInstalled-kept id w (published w) p
        (
          installed.0.0,
          valid_digests-insert pack.manifest.id pack.content_digest w.index.packs valid
              (installed.0.1),
        )
        (λ digest entry known own held. (
          lookup-insert pack.manifest.id id pack.content_digest w.index.packs
              ∙ elim (Bool-cases (text_eq pack.manifest.id id)) [
                | inr new ↦ rw new known
                | inl same ↦ rw same (elim other [
                  | inl differ ↦ cc
                  | inr content ↦
                      ap some (same_digest p.content_digest pack.content_digest digest content own)
                ])
              ],
          held,
        ))
        installed

  -- A successful install keeps the packs of other ids, and the same pack; a failed one keeps all.
  abbrev pub InstallKeeps : World → Outcome (Unit {0}) → Type 0
  InstallKeeps w (w', ok done) = Keeps (IsOther pack) w w' × SameRepository w w'
  InstallKeeps w (w', err e) = Keeps (λ id p. Unit) w w' × SameRepository w w'

  publish-Keeps :
      (w w' : World) (r : Result StoreError CacheIndex)
      → valid_content_digest pack.content_digest ≡ true
      → Keeps (λ id p. Unit) w w'
      → SameRepository w w'
      → read_index w' ≡ r
      → InstallKeeps w (publish pack w' r)
  unfolding publish published
  publish-Keeps w w' (err e) valid keep same h = (keep, same)
  publish-Keeps w w' (ok index) valid keep same h =
      let own = (read_index-IsReadable w' index h).1 in
      subst (λ i. InstallKeeps w (publish pack w' (ok i))) (sym own)
        (
          (λ id p other installed. published-Keeps w' valid id p other (keep id p tt installed)),
          same,
        )

  copied-SameRepository : (copy : Bool) (w : World) → SameRepository w (copied pack copy w)
  copied-SameRepository true w = (refl, refl)
  copied-SameRepository false w = (refl, refl)

  pub install-Keeps :
      (w : World)
      → valid_content_digest pack.content_digest ≡ true
      → InstallKeeps w (install pack w)
  unfolding install copy_and_publish
  install-Keeps w valid =
      elim (Result-cases (must_copy pack (lookup pack.content_digest w.contents))) [
        | inr (e, refused) ↦ rw refused ((λ id p any installed. installed), (refl, refl))
        | inl (copy, checked) ↦ rw checked (
            publish-Keeps w (copied pack copy w) (read_index (copied pack copy w)) valid
              (copied-Keeps copy w checked) (copied-SameRepository copy w) refl)
      ]

any-lookup :
    (digest id d : Text) (packs : BTreeMap Text)
    → any (is_value digest) packs ≡ false
    → lookup id packs ≡ some d
    → text_eq d digest ≡ false
unfolding lookup
any-lookup digest id d [] h e = cc
any-lookup digest id d ((j, v) ∷ packs) h e = elim (Bool-cases (text_eq j id)) [
  | inl same ↦
      let value : v ≡ d = cc (rw same at e) in
      subst (λ x. text_eq x digest ≡ false) value (ground arith)
  | inr other ↦ any-lookup digest id d packs (ground arith) (rw other at e)
]

module _ (removed : Text) where
  -- Removing a pack keeps those of other ids.
  abbrev pub RemoveKeeps : World → Outcome RemoveResult → Type 0
  RemoveKeeps w (w', result) = Keeps (λ id p. text_eq removed id ≡ false) w w' × SameRepository w w'

  unindexed : World → World
  unindexed w = record w { index = record w.index { packs = remove removed w.index.packs } }

  unindexed-Keeps : (w : World) → Keeps (λ id p. text_eq removed id ≡ false) w (unindexed w)
  unfolding unindexed
  unindexed-Keeps w id p other installed =
      IsInstalled-kept id w (unindexed w) p
        (installed.0.0, valid_digests-remove removed w.index.packs (installed.0.1))
        (λ digest entry known own held.
          (lookup-remove removed id w.index.packs ∙ rw other known, held))
        installed

  -- The entry may go where no other pack of the index has its digest.
  dropped-Keeps :
      (digest : Text) (w : World)
      → any (is_value digest) (remove removed w.index.packs) ≡ false
      → Keeps
          (λ id p. text_eq removed id ≡ false)
          w
          (record (unindexed w) { contents = remove digest w.contents })
  unfolding unindexed
  dropped-Keeps digest w unused id p other installed =
      IsInstalled-kept id w (record (unindexed w) { contents = remove digest w.contents }) p
        (installed.0.0, valid_digests-remove removed w.index.packs (installed.0.1))
        (λ d entry known own held.
          let still = lookup-remove removed id w.index.packs ∙ rw other known in
          let differ = any-lookup digest id d (remove removed w.index.packs) unused still in
          let apart : text_eq digest d ≡ false =
            ground (arith, text_eq_iff digest d, text_eq_iff d digest) in
          (still, lookup-remove digest d w.contents ∙ rw apart held))
        installed

  drop_entry-Keeps :
      (digest : Text) (w : World) (o : Option Entry)
      → any (is_value digest) (remove removed w.index.packs) ≡ false
      → RemoveKeeps w (drop_entry digest (unindexed w) o)
  unfolding drop_entry unindexed
  drop_entry-Keeps digest w none unused = (unindexed-Keeps w, (refl, refl))
  drop_entry-Keeps digest w (some entry) unused = elim (Bool-cases entry.is_symlink) [
    | inl link ↦ rw link (unindexed-Keeps w, (refl, refl))
    | inr directory ↦ rw directory (dropped-Keeps digest w unused, (refl, refl))
  ]

  drop_digest-Keeps :
      (w : World) (o : Option Text) → RemoveKeeps w (drop_digest removed w w.index o)
  unfolding drop_digest unindexed
  drop_digest-Keeps w none = ((λ id p other installed. installed), (refl, refl))
  drop_digest-Keeps w (some digest) =
      elim (Bool-cases (any (is_value digest) (remove removed w.index.packs))) [
        | inl used ↦ rw used (unindexed-Keeps w, (refl, refl))
        | inr unused ↦ rw unused (drop_entry-Keeps digest w (lookup digest w.contents) unused)
      ]

  remove_from-Keeps :
      (w : World) (r : Result StoreError CacheIndex)
      → read_index w ≡ r
      → RemoveKeeps w (remove_from removed w r)
  unfolding remove_from
  remove_from-Keeps w (err e) h = ((λ id p other installed. installed), (refl, refl))
  remove_from-Keeps w (ok index) h =
      let own = (read_index-IsReadable w index h).1 in
      subst (λ i. RemoveKeeps w (drop_digest removed w i (lookup removed i.packs))) (sym own)
        (drop_digest-Keeps w (lookup removed w.index.packs))

  pub uninstall-Keeps : (w : World) → RemoveKeeps w (uninstall removed w)
  unfolding uninstall
  uninstall-Keeps w = remove_from-Keeps w (read_index w) refl
