-- ===== src/Artifact/Safety.antt =====
-- Atomic replacement: what `write_artifacts` leaves on every path, and over many writers.
use git_slop.Base.{
  ◌≡◌, ◌⊎◌, inl, inr, refl, ap, ◌∙◌, Option, none, some, List, [], ◌∷◌, Text, ltb, length, lookup,
  Bool-cases,
}
use git_slop.Artifact.Disk.{Pair, Disk, Outcome, ◌>>◌}
use git_slop.Artifact.Write.{
  AdviceRun, run_id, publish_run, publish_latest, write_run, write_digested, write_artifacts,
  unless_exists,
}
use git_slop.Artifact.Calls.{Post, Is, at, touch_lem, then_lem}
use git_slop.Artifact.Staging.{Leaves, written}
use git_slop.Artifact.Atomic.{
  or_backup, recovered, Runs, disk_of, Same, recover_lem, publish_run_lem,
}
use git_slop.Artifact.Published.{publish_latest_lem}

-- Nothing happened, or the run is there and the latest artifact is the old one or the new one.
abbrev pub Aftermath : Option Pair → Runs → Text → Pair → Disk → Type 0
Aftermath l rs id new d =
    Same l rs d ⊎ ((recovered d ≡ l) ⊎ (recovered d ≡ some new)) × (d.runs ≡ (id, new) ∷ rs)

abbrev pub text_or_empty : Option Text → Text
text_or_empty none = []
text_or_empty (some t) = t

or_none : (o : Option Pair) → or_backup o none ≡ o
or_none none = refl
or_none (some p) = refl

module _ (l : Option Pair) (rs : Runs) (run : AdviceRun) (id : Text) where
  abbrev E : Disk → Type 0
  E = Aftermath l rs id (written run)

  publish_lem :
      (os : List Outcome)
      → Leaves E
          (disk_of l none rs none none)
          os
          (do publish_run run id; publish_latest run)
          (disk_of (some (written run)) none ((id, written run) ∷ rs) none none)
  publish_lem os =
      then_lem (Is (disk_of (some (written run)) none ((id, written run) ∷ rs) none none)) E
        (disk_of l none ((id, written run) ∷ rs) none none) _ _
        (publish_run_lem E l rs (λ rt lt. inl (or_none l, refl)) run id os
          (inr (inl (or_none l), refl)))
        (publish_latest_lem l ((id, written run) ∷ rs) run E
          (λ d (l', b, lt, e, same). inr (inl (ap recovered e ∙ same), ap (λ (x : Disk). x.runs) e))
          (λ b. inr (inr refl, refl)))

  unless_exists_lem :
      (o : Option Pair) (os : List Outcome)
      → Leaves E
          (disk_of l none rs none none)
          os
          (unless_exists o (do publish_run run id; publish_latest run))
          (disk_of (some (written run)) none ((id, written run) ∷ rs) none none)
  unfolding unless_exists
  unless_exists_lem none os = publish_lem os
  unless_exists_lem (some p) os = inl (or_none l, refl)

-- A disk's fields, and what a finished writer leaves of them.
abbrev pub Replaced : AdviceRun → Text → Disk → Disk → Type 0
Replaced run id d = Is (disk_of (some (written run)) none ((id, written run) ∷ d.runs) none none)

write_run_lem :
    (run : AdviceRun) (digest : Text) (d : Disk) (os : List Outcome)
    → Post
        (Replaced run (run_id run digest) d)
        (Aftermath (recovered d) d.runs (run_id run digest) (written run))
        (write_run run digest (at d os))
unfolding write_run
write_run_lem run digest d os =
    let l = recovered d in
    let rs = d.runs in
    let id = run_id run digest in
    let A = Aftermath l rs id (written run) in
    let end = disk_of (some (written run)) none ((id, written run) ∷ rs) none none in
    elim (Bool-cases (ltb (length digest) 16)) [
      | inl short ↦ rw short (inl (refl, refl))
      | inr enough ↦ rw enough (
          then_lem (Is end) A d _ _ (touch_lem (Is d) A d os (inl (refl, refl)) refl) λ os₁.
            then_lem (Is end) A (disk_of l none rs none none) _ _
              (recover_lem A l rs (λ rt lt. inl (or_none l, refl)) d.backup d.run_temporary
                d.latest_temporary d.latest os₁ refl (λ e h. inl h))
              (unless_exists_lem l rs run id (lookup id rs)))
    ]

write_digested_lem :
    (o : Option Text) (run : AdviceRun) (d : Disk) (os : List Outcome)
    → let id = run_id run (text_or_empty o) in
      Post
        (Replaced run id d)
        (Aftermath (recovered d) d.runs id (written run))
        (write_digested o run (at d os))
unfolding write_digested
write_digested_lem none run d os = inl (refl, refl)
write_digested_lem (some digest) run d os = write_run_lem run digest d os

-- A writer, whatever its calls of the file system do and wherever its process ends: if it returns
-- with success, its artifact is the latest one and one of the runs, and nothing else is left over;
-- if not, either nothing happened, or the run was added and the artifact that a recovery finds is
-- the old one or the new one. A file that is written in part is never found.
pub write_artifacts-IsAtomic :
    (run : AdviceRun) (d : Disk) (os : List Outcome)
    → let id = run_id run (text_or_empty run.response_sha256) in
      Post
        (Replaced run id d)
        (Aftermath (recovered d) d.runs id (written run))
        (write_artifacts run (at d os))
unfolding write_artifacts
write_artifacts-IsAtomic run d os =
    let id = run_id run (text_or_empty run.response_sha256) in
    let Q = Replaced run id d in
    let A = Aftermath (recovered d) d.runs id (written run) in
    let step = λ (rest : List Outcome). touch_lem (Is d) A d rest (inl (refl, refl)) refl in
    then_lem Q A d _ _ (step os) λ os₁.
      then_lem Q A d _ _ (step os₁)
        λ os₂. then_lem Q A d _ _ (step os₂) λ os₃. write_digested_lem run.response_sha256 run d os₃
