-- ===== src/Artifact/Writers.antt =====
-- Many writers, one after another, each of which may end anywhere; and one that is undisturbed.
use git_slop.Base.{
  ◌≡◌, inl, inr, refl, sym, subst, ap, ◌∙◌, false, Option, none, some, List, [], ◌∷◌, Text, ltb,
  length, lookup, arith,
}
use mathlib.Core.List.{Memᴰ}
use git_slop.Artifact.Disk.{
  Pair, Disk, Outcome, World, Ending, done, failed, died, ◌>>◌, continue, observe, call,
}
use git_slop.Artifact.Write.{
  AdviceRun, unless_exists, recover_advice_state, publish_run, publish_latest, run_id, write_run,
  write_digested, write_artifacts,
}
use git_slop.Artifact.Calls.{Post, at}
use git_slop.Artifact.Staging.{written}
use git_slop.Artifact.Atomic.{or_backup, Runs, recovered, disk_of}
use git_slop.Artifact.Safety.{Replaced, Aftermath, text_or_empty, write_artifacts-IsAtomic}

-- The disks that writers leave, from an empty one.
pub data Attempts : Disk → Type 0 where
  nothing : Attempts (disk_of none none [] none none)
  attempt :
      {d e : Disk}
      → Attempts d
      → (run : AdviceRun) (os : List Outcome) → (write_artifacts run (at d os)).0.disk ≡ e
      → Attempts e

-- The artifact is complete, and one of the runs.
abbrev pub IsSaved : Disk → Pair → Type 0
IsSaved d p = (run : AdviceRun) × (id : Text) × (p ≡ written run) × Memᴰ (id, p) d.runs

abbrev Saves : Disk → Type 0
Saves d = (p : Pair) → recovered d ≡ some p → IsSaved d p

Aftermath-Saves :
    (run : AdviceRun) (id : Text) (d e : Disk)
    → Saves d
    → Aftermath (recovered d) d.runs id (written run) e
    → Saves e
Aftermath-Saves run id d e saves (inl (view, runs)) p own =
    let (r, i, parts, there) = saves p (sym view ∙ own) in
    (r, i, parts, subst (Memᴰ (i, p)) (sym runs) there)
Aftermath-Saves run id d e saves (inr (inl view, runs)) p own =
    let (r, i, parts, there) = saves p (sym view ∙ own) in
    (r, i, parts, subst (Memᴰ (i, p)) (sym runs) (Memᴰ.tail there))
Aftermath-Saves run id d e saves (inr (inr view, runs)) p own =
    let parts : written run ≡ p = cc in
    (
      run,
      id,
      sym parts,
      subst (Memᴰ (id, p)) (sym runs) (Memᴰ.head (ap (λ q. (id, q)) (sym parts))),
    )

after_any :
    (run : AdviceRun) (id : Text) (d : Disk) (r : World × Ending (Unit {0}))
    → Post (Replaced run id d) (Aftermath (recovered d) d.runs id (written run)) r
    → Aftermath (recovered d) d.runs id (written run) (r.0.disk)
after_any run id d (w, done a) h = inr (inr (ap recovered h), ap (λ (x : Disk). x.runs) h)
after_any run id d (w, failed) h = h
after_any run id d (w, died) h = h

-- After any writers, each of which may fail or end at any call, the artifact that is found, if there
-- is one, is what some run wrote, whole, and that run is among the runs.
pub Attempts-IsSaved : {d : Disk} (p : Pair) → Attempts d → recovered d ≡ some p → IsSaved d p
Attempts-IsSaved p nothing own = absurd (cc)
Attempts-IsSaved p (attempt {d} {e} before run os end) own =
    let id = run_id run (text_or_empty run.response_sha256) in
    Aftermath-Saves run id d e (λ q. Attempts-IsSaved q before)
      (subst (Aftermath (recovered d) d.runs id (written run)) end
        (after_any run id d (write_artifacts run (at d os)) (write_artifacts-IsAtomic run d os)))
      p own

undisturbed_recovery :
    (l b rt lt : Option Pair) (rs : Runs)
    → recover_advice_state (at (disk_of l b rs rt lt) [])
      ≡ (at (disk_of (or_backup l b) none rs none none) [], done tt)
unfolding recover_advice_state call
undisturbed_recovery l b rt lt rs = ground arith

module _ (run : AdviceRun) (digest : Text) (enough : ltb (length digest) 16 ≡ false) (rs : Runs)
    (fresh : lookup (run_id run digest) rs ≡ none) where
  undisturbed_publication :
      (l : Option Pair)
      → (do publish_run run (run_id run digest); publish_latest run)
          (at (disk_of l none rs none none) [])
        ≡ (
          at
              (disk_of (some (written run)) none ((run_id run digest, written run) ∷ rs) none none)
              [],
          done tt,
        )
  unfolding publish_run publish_latest call
  undisturbed_publication none = refl
  undisturbed_publication (some p) = refl

  undisturbed_run :
      (l b rt lt : Option Pair)
      → write_digested (some digest) run (at (disk_of l b rs rt lt) []) ≡ (
        at (disk_of (some (written run)) none ((run_id run digest, written run) ∷ rs) none none) [],
        done tt,
      )
  unfolding write_digested write_run call unless_exists
  undisturbed_run l b rt lt = rw enough (
      ap
        (λ r. continue r (λ _. observe (λ e.
          unless_exists (lookup (run_id run digest) e.runs)
            (do publish_run run (run_id run digest); publish_latest run))))
        (undisturbed_recovery l b rt lt rs)
      ∙ rw fresh (undisturbed_publication (or_backup l b)))

-- A writer whose calls all succeed, with a digest of sixteen digits or more and a run that is not
-- there yet, returns with success, whatever earlier writers left: its artifact is the latest one,
-- its run is added to the others, and no backup and no temporary directory is left.
pub write_artifacts_completes :
    (run : AdviceRun) (digest : Text) (d : Disk)
    → run.response_sha256 ≡ some digest
    → ltb (length digest) 16 ≡ false
    → lookup (run_id run digest) d.runs ≡ none
    → write_artifacts run (at d []) ≡ (
      at
          (disk_of (some (written run)) none ((run_id run digest, written run) ∷ d.runs) none none)
          [],
      done tt,
    )
unfolding write_artifacts call
write_artifacts_completes run digest d own enough fresh =
    ap (λ o. write_digested o run (at d [])) own
    ∙ undisturbed_run run digest enough d.runs fresh d.latest d.backup d.run_temporary
        d.latest_temporary
