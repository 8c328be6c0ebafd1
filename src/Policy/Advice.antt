-- ===== src/Policy/Advice.antt =====
-- The policies of an advice, after any commands and for any request.
use git_slop.Base.{
  ◌≡◌, refl, sym, ap, ◌∙◌, inl, inr, true, none, some, List, [], ◌∷◌, arith, Text, text_eq_refl,
  Result, ok, Result-cases,
}
use git_slop.Policy.Model.{ResolvedPack, EntrypointLock, PackLock, CompiledPolicySet}
use git_slop.Policy.Compile.{CompileError, compile_packs}
use git_slop.Policy.Store.{PolicySelection, PolicyLock, World}
use git_slop.Policy.Lifecycle.{read_selection, all_selected, lifted, lock_of, compile_selected}
use git_slop.Policy.Locked.{unlocked-IsLocked}
use git_slop.Policy.Commands.{Reach, Reach-IsLocked}
use git_slop.Policy.Resolve.{
  same_entrypoints, same_lock, same_locks, lock_matches_schema, read_lock, check_lock,
  choose_requested, resolve_for_advice,
}

same_entrypoints_refl : (es : List EntrypointLock) → same_entrypoints es es ≡ true
unfolding same_entrypoints
same_entrypoints_refl [] = refl
same_entrypoints_refl (e ∷ es) = simp (text_eq_refl, same_entrypoints_refl es)

same_lock_refl : (lock : PackLock) → same_lock lock lock ≡ true
unfolding same_lock
same_lock_refl lock = ground (
  arith,
  text_eq_refl lock.id,
  text_eq_refl lock.version,
  text_eq_refl lock.source_type,
  text_eq_refl lock.source_revision,
  text_eq_refl lock.content_digest,
  same_entrypoints_refl lock.entrypoints,
)

same_locks_refl : (locks : List PackLock) → same_locks locks locks ≡ true
unfolding same_locks
same_locks_refl [] = refl
same_locks_refl (lock ∷ locks) = rw (same_lock_refl lock, same_locks_refl locks) refl

check_lock-lock_of :
    (ids : List Text) (w : World) (set : CompiledPolicySet)
    → w.lock ≡ some (lock_of set)
    → lock_matches_schema (lock_of set) ≡ true
    → check_lock ids w set ≡ ok tt
unfolding check_lock read_lock
check_lock-lock_of [] w set h matches = refl
check_lock-lock_of (id ∷ ids) w set h matches =
    rw (h, matches, same_locks_refl set.packs, text_eq_refl set.resolution_digest) refl

module _ (core : Result CompileError ResolvedPack) (digest : List PackLock → Text) where
  -- The steps that lead to the compiled set.
  record IsCompilation (w : World) (set : CompiledPolicySet) (s : PolicySelection)
      (packs : List ResolvedPack) : Type 0 where
    read : read_selection w ≡ ok s
    found : all_selected w s.packs ≡ ok packs
    compiled : lifted (compile_packs core digest packs) ≡ ok set

  compilation :
      (w : World) (set : CompiledPolicySet)
      → compile_selected core digest w ≡ ok set
      → (s : PolicySelection) × (packs : List ResolvedPack) × IsCompilation w set s packs
  unfolding compile_selected
  compilation w set h = elim (Result-cases (read_selection w)) [
    | inr (e, refused) ↦ cc (rw refused at h)
    | inl (s, read) ↦
        let h' = rw read at h in
        elim (Result-cases (all_selected w s.packs)) [
          | inr (e, missing) ↦ cc (rw missing at h')
          | inl (packs, found) ↦
              (s, packs, record { read = read; found = found; compiled = rw found at h' })
        ]
  ]

  -- From a repository with no lock, after any sequence of installs, removals and locks, each of
  -- which may fail: if there is a lock and it matches the schema that reading it asks for, then
  -- resolving the policies for an advice gives a set, and its packs and its digest are those of the
  -- lock.
  pub Reach-resolves :
      {w v : World} (lock : PolicyLock)
      → Reach core digest w v
      → w.lock ≡ none
      → v.lock ≡ some lock
      → lock_matches_schema lock ≡ true
      → (set : CompiledPolicySet) × (resolve_for_advice core digest [] v ≡ ok set)
        × (set.packs ≡ lock.packs)
        × (set.resolution_digest ≡ lock.resolution_digest)
  unfolding resolve_for_advice choose_requested
  Reach-resolves {w} {v} lock reached start there matches =
      let (set, compiles, made) =
        Reach-IsLocked core digest reached (unlocked-IsLocked core digest w start) lock there in
      let (s, packs, steps) = compilation v set compiles in
      (
        set,
        rw
            (
              steps.read,
              steps.found,
              steps.compiled,
              check_lock-lock_of s.packs v set (there ∙ ap some made)
                  (ap lock_matches_schema (sym made) ∙ matches),
            )
            refl,
        ap (λ l. l.packs) (sym made),
        ap (λ l. l.resolution_digest) (sym made),
      )
