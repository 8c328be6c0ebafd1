-- ===== src/Artifact/Atomic.antt =====
-- `write_artifacts` as a whole: what its recovery and its two publications leave behind.
use git_slop.Base.{◌≡◌, refl, sym, subst, Option, none, some, List, ◌∷◌, Text}
use git_slop.Artifact.Disk.{
  Pair, Place, run_place, latest_place, Disk, Outcome, ◌>>◌, ignore, on_error, atomic, touch,
  no_files, update, partly_removed, exists,
}
use git_slop.Artifact.Write.{
  AdviceRun, write_pair, remove_temporary, recover_backup, remove_backup, recover_advice_state,
  publish_run, backup_to_latest, temporary_to_runs, make_temporary, remove_stale_advice_temporaries,
}
use git_slop.Artifact.Calls.{
  Is, at, call_lem, atomic_lem, touch_lem, then_lem, handled_lem, weaken_lem,
}
use git_slop.Artifact.Staging.{
  holding, Held, Leaves, written, write_pair_lem, drop_lem, remove_stale_lem,
}

-- The artifact that a recovery would leave as the latest.
abbrev pub or_backup : Option Pair → Option Pair → Option Pair
or_backup none b = b
or_backup (some p) b = some p

abbrev pub recovered : Disk → Option Pair
recovered d = or_backup d.latest d.backup

abbrev pub Runs : Type 0
Runs = List (Text × Pair)

abbrev pub disk_of : (latest backup : Option Pair) → Runs → (run latest' : Option Pair) → Disk
disk_of l b rs rt lt = record {
  latest = l;
  backup = b;
  runs = rs;
  run_temporary = rt;
  latest_temporary = lt;
}

-- The artifact and the runs are as they were.
abbrev pub Same : Option Pair → Runs → Disk → Type 0
Same l rs d = (recovered d ≡ l) × (d.runs ≡ rs)

recover_backup_lem :
    (l b rt lt : Option Pair) (rs : Runs) (os : List Outcome)
    → Leaves
        (Same (or_backup l b) rs)
        (disk_of l b rs rt lt)
        os
        (recover_backup (exists b) (exists l))
        (disk_of (or_backup l b) none rs rt lt)
unfolding recover_backup remove_backup
recover_backup_lem none none rt lt rs os = refl
recover_backup_lem (some p) none rt lt rs os = refl
recover_backup_lem none (some q) rt lt rs os =
    atomic_lem (Is (disk_of (some q) none rs rt lt)) (Same (some q) rs) backup_to_latest
      (disk_of none (some q) rs rt lt) os (refl, refl) refl
recover_backup_lem (some p) (some q) rt lt rs os =
    call_lem (Is (disk_of (some p) none rs rt lt)) (Same (some p) rs)
      (λ n d. record d { backup = update (partly_removed n) d.backup })
      (λ d. some (record d { backup = none })) (disk_of (some p) (some q) rs rt lt) os
      (λ n. (refl, refl)) (refl, refl) refl

module _ (E : Disk → Type 0) (l : Option Pair) (rs : Runs)
    (keep : (rt lt : Option Pair) → E (disk_of l none rs rt lt)) where
  Held-keep :
      (place : Place) (rt lt : Option Pair) (d : Disk)
      → Held place (disk_of l none rs rt lt) d
      → E d
  Held-keep run_place rt lt d (o, e) = subst E (sym e) (keep o lt)
  Held-keep latest_place rt lt d (o, e) = subst E (sym e) (keep rt o)

  stale_lem :
      (rt lt : Option Pair) (os : List Outcome)
      → Leaves E
          (disk_of l none rs rt lt)
          os
          (do
            remove_stale_advice_temporaries latest_place
            remove_stale_advice_temporaries run_place
            touch
            touch)
          (disk_of l none rs none none)
  stale_lem rt lt os =
      let end = disk_of l none rs none none in
      then_lem (Is end) E (disk_of l none rs rt none) _ _
        (weaken_lem (Is (disk_of l none rs rt none)) (Held latest_place (disk_of l none rs rt lt)) E
          (remove_stale_advice_temporaries latest_place (at (disk_of l none rs rt lt) os))
          (Held-keep latest_place rt lt)
          (remove_stale_lem latest_place (disk_of l none rs rt lt) lt os))
        λ os₁.
          then_lem (Is end) E end _ _
            (weaken_lem (Is end) (Held run_place (disk_of l none rs rt none)) E
              (remove_stale_advice_temporaries run_place (at (disk_of l none rs rt none) os₁))
              (Held-keep run_place rt none)
              (remove_stale_lem run_place (disk_of l none rs rt none) rt os₁))
            λ os₂.
              then_lem (Is end) E end _ _ (touch_lem (Is end) E end os₂ (keep none none) refl)
                λ os₃. touch_lem (Is end) E end os₃ (keep none none) refl

  pub recover_lem :
      (b rt lt : Option Pair) (l' : Option Pair) (os : List Outcome)
      → or_backup l' b ≡ l
      → ((d : Disk) → Same l rs d → E d)
      → Leaves E (disk_of l' b rs rt lt) os recover_advice_state (disk_of l none rs none none)
  unfolding recover_advice_state
  recover_lem b rt lt l' os own same =
      let end = disk_of l none rs none none in
      then_lem (Is end) E (disk_of l none rs rt lt) _ _
        (weaken_lem (Is (disk_of l none rs rt lt)) (Same l rs) E
          (recover_backup (exists b) (exists l') (at (disk_of l' b rs rt lt) os)) same
          (subst
            (λ o.
              Leaves (Same o rs) (disk_of l' b rs rt lt) os (recover_backup (exists b) (exists l'))
                (disk_of o none rs rt lt))
            own (recover_backup_lem l' b rt lt rs os)))
        (stale_lem rt lt)

  pub publish_run_lem :
      (run : AdviceRun) (id : Text) (os : List Outcome)
      → E (disk_of l none ((id, written run) ∷ rs) none none)
      → Leaves E
          (disk_of l none rs none none)
          os
          (publish_run run id)
          (disk_of l none ((id, written run) ∷ rs) none none)
  unfolding publish_run
  publish_run_lem run id os added =
      let begin = disk_of l none rs none none in
      let end = disk_of l none ((id, written run) ∷ rs) none none in
      let staged = holding run_place (some no_files) begin in
      let full = holding run_place (some (written run)) begin in
      let H = Held run_place begin in
      then_lem (Is end) E staged _ _
        (atomic_lem (Is staged) E (make_temporary run_place) begin os (keep none none) refl)
        λ os₁.
          then_lem (Is end) E end _ _
            (weaken_lem (Is end) H E
              (on_error (do write_pair run_place run; atomic (temporary_to_runs id))
                (ignore (remove_temporary run_place)) (at staged os₁))
              (Held-keep run_place none none)
              (handled_lem (Is end) H H _ _
                (then_lem (Is end) H full _ _ (write_pair_lem run_place begin run os₁) λ os₂.
                  atomic_lem (Is end) H (temporary_to_runs id) full os₂ (some (written run), refl)
                    refl)
                (λ e h. h) (drop_lem run_place begin)))
            λ os₃. touch_lem (Is end) E end os₃ added refl
