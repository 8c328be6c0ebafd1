-- ===== src/Policy/Locked.antt =====
-- The commands as steps, and what a lock that is on disk says of the installed packs.
use git_slop.Base.{
  ◌≡◌, inl, inr, refl, sym, subst, ◌∙◌, true, none, some, List, [], ◌∷◌, arith, Text, text_eq_refl,
  member, Result, ok, Result-cases,
}
use git_slop.Policy.Model.{ResolvedPack, PackLock, CompiledPolicySet}
use git_slop.Policy.Compile.{CompileError}
use git_slop.Policy.Store.{PolicySelection, PolicyLock, World, installed}
use git_slop.Policy.Lifecycle.{read_selection, all_selected, lock_of, compile_selected}
use git_slop.Policy.Frame.{IsInstalled-installed, installed-IsInstalled}
use git_slop.Policy.Changes.{Keeps, SameRepository}

-- The ids in the list, as the premise of `Keeps`.
abbrev Selected : List Text → (Text → ResolvedPack → Type 0) → Type 0
Selected ids P = (id : Text) (p : ResolvedPack) → member id ids ≡ true → P id p

all_selected-kept :
    (P : Text → ResolvedPack → Type 0) (w w' : World) (ids : List Text) (packs : List ResolvedPack)
    → Keeps P w w'
    → ((id : Text) (p : ResolvedPack) → member id ids ≡ true → installed id w ≡ ok p → P id p)
    → all_selected w ids ≡ ok packs
    → all_selected w' ids ≡ ok packs
unfolding all_selected member
all_selected-kept P w w' [] packs keep of h = h
all_selected-kept P w w' (id ∷ ids) packs keep of h = elim (Result-cases (installed id w)) [
  | inr (e, missing) ↦ cc (rw missing at h)
  | inl (p, here) ↦
      let here' = IsInstalled-installed id w' p (
        keep id p (of id p (rw (text_eq_refl id) refl) here) (installed-IsInstalled id w p here)) in
      let h' = rw here at h in
      elim (Result-cases (all_selected w ids)) [
        | inr (e, missing) ↦ cc (rw missing at h')
        | inl (ps, rest) ↦
            let rest' =
              all_selected-kept P w w' ids ps keep (λ i q m. of i q (ground arith)) rest in
            rw (here', rest') (rw rest at h')
      ]
]

read_selection-same :
    (w w' : World) → w'.selection ≡ w.selection → read_selection w' ≡ read_selection w
unfolding read_selection
read_selection-same w w' e = rw e refl

pub read_selection-own :
    (w : World) (s : PolicySelection) → read_selection w ≡ ok s → s ≡ w.selection
unfolding read_selection
read_selection-own w s h = ground arith

module _ (core : Result CompileError ResolvedPack) (digest : List PackLock → Text) where
  -- The lock is the one that the selected packs, as they are installed, compile to.
  abbrev pub Matches : World → PolicyLock → Type 0
  Matches w lock =
      (set : CompiledPolicySet) × (compile_selected core digest w ≡ ok set) × (lock ≡ lock_of set)

  -- If there is a lock on disk, it matches.
  abbrev pub IsLocked : World → Type 0
  IsLocked w = (lock : PolicyLock) → w.lock ≡ some lock → Matches w lock

  pub compile_selected-kept :
      (P : Text → ResolvedPack → Type 0) (w w' : World) (set : CompiledPolicySet)
      → Keeps P w w'
      → w'.selection ≡ w.selection
      → ((id : Text) (p : ResolvedPack)
          → member id w.selection.packs ≡ true
          → installed id w ≡ ok p
          → P id p)
      → compile_selected core digest w ≡ ok set
      → compile_selected core digest w' ≡ ok set
  unfolding compile_selected
  compile_selected-kept P w w' set keep same of h = elim (Result-cases (read_selection w)) [
    | inr (e, refused) ↦ cc (rw refused at h)
    | inl (s, read) ↦
        let own = read_selection-own w s read in
        let h' = rw read at h in
        elim (Result-cases (all_selected w s.packs)) [
          | inr (e, missing) ↦ cc (rw missing at h')
          | inl (packs, found) ↦
              let of' =
                subst
                  (λ t.
                    (id : Text) (p : ResolvedPack)
                    → member id t.packs ≡ true
                    → installed id w ≡ ok p
                    → P id p)
                  (sym own) of in
              let found' = all_selected-kept P w w' s.packs packs keep of' found in
              rw (read_selection-same w w' same ∙ read, found') (rw found at h')
        ]
  ]

  pub kept-IsLocked :
      (P : Text → ResolvedPack → Type 0) (w w' : World)
      → Keeps P w w'
      → SameRepository w w'
      → ((id : Text) (p : ResolvedPack)
          → member id w.selection.packs ≡ true
          → installed id w ≡ ok p
          → P id p)
      → IsLocked w
      → IsLocked w'
  kept-IsLocked P w w' keep (selection, lock_file) of locked lock there =
      let (set, compiled, made) = locked lock (sym lock_file ∙ there) in
      (set, compile_selected-kept P w w' set keep selection of compiled, made)

  pub unlocked-IsLocked : (w : World) → w.lock ≡ none → IsLocked w
  unlocked-IsLocked w gone lock there = cc
