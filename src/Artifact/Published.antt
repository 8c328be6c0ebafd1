-- ===== src/Artifact/Published.antt =====
-- The publication of the latest artifact: the old one is set aside until the new one is in place.
use git_slop.Base.{◌≡◌, refl, sym, subst, ap, Option, none, some, List}
use git_slop.Artifact.Disk.{
  Pair, latest_place, Disk, Outcome, World, ◌>>◌, ignore, on_error, observe, atomic, touch,
  no_files, update, in_temporary, partly_removed, exists,
}
use git_slop.Artifact.Write.{
  AdviceRun, write_pair, remove_temporary, remove_backup, publish_latest, set_aside, put_back,
  discard_backup, backup_to_latest, latest_to_backup, temporary_to_latest, make_temporary,
  without_temporary,
}
use git_slop.Artifact.Calls.{
  Post, Is, at, call_lem, atomic_lem, touch_lem, then_lem, bind_lem, handled_lem, ignored_lem,
  weaken_lem,
}
use git_slop.Artifact.Staging.{Held, Leaves, written, write_pair_lem}
use git_slop.Artifact.Atomic.{or_backup, Runs, disk_of}

module _ (l : Option Pair) (rs : Runs) where
  -- The old artifact is the latest one or set aside.
  abbrev pub Aside : Disk → Type 0
  Aside d =
      (l' : Option Pair) × (b : Option Pair) × (lt : Option Pair) × (d ≡ disk_of l' b rs none lt)
      × (or_backup l' b ≡ l)

  -- It is set aside, and nothing stands in its place.
  abbrev Moved : Disk → Type 0
  Moved d = (lt : Option Pair) × (d ≡ disk_of none l rs none lt)

  Moved-Aside : (d : Disk) → Moved d → Aside d
  Moved-Aside d (lt, e) = (none, l, lt, e, refl)

  Held-Aside : (d : Disk) → Held latest_place (disk_of l none rs none none) d → Aside d
  Held-Aside d (o, e) = (l, none, o, e, go l)
    where
      go : (o : Option Pair) → or_backup o none ≡ o
      go none = refl
      go (some p) = refl

  Aside-in : (f : Pair → Pair) (d : Disk) → Aside d → Aside (in_temporary latest_place f d)
  Aside-in f d (l', b, lt, e, same) = (l', b, update f lt, ap (in_temporary latest_place f) e, same)

  Aside-without : (d : Disk) → Aside d → Aside (without_temporary latest_place d)
  Aside-without d (l', b, lt, e, same) = (l', b, none, ap (without_temporary latest_place) e, same)

  Aside-drop :
      (w : World) → Aside w.disk → Post Aside Aside (ignore (remove_temporary latest_place) w)
  unfolding remove_temporary
  Aside-drop w h = ignored_lem Aside (remove_temporary latest_place w) (
      call_lem Aside Aside (λ n e. in_temporary latest_place (partly_removed n) e)
        (λ e. some (without_temporary latest_place e)) w.disk w.outcomes
        (λ n. Aside-in (partly_removed n) w.disk h) h (Aside-without w.disk h))

  put_back_lem :
      (b lt : Option Pair) (os : List Outcome)
      → b ≡ l
      → Post Aside Aside (put_back (exists b) (at (disk_of none b rs none lt) os))
  unfolding put_back
  put_back_lem none lt os own = (none, none, lt, refl, own)
  put_back_lem (some p) lt os own = ignored_lem Aside _ (
      atomic_lem Aside Aside backup_to_latest (disk_of none (some p) rs none lt) os
        (none, some p, lt, refl, own) (some p, none, lt, refl, own))

  set_aside_lem :
      (o : Option Pair) (lt : Option Pair) (os : List Outcome)
      → o ≡ l
      → Leaves Aside
          (disk_of o none rs none lt)
          os
          (set_aside (exists o))
          (disk_of none l rs none lt)
  unfolding set_aside
  set_aside_lem none lt os own = ap (λ b. disk_of none b rs none lt) own
  set_aside_lem (some p) lt os own =
      let moved = disk_of none (some p) rs none lt in
      then_lem (Is (disk_of none l rs none lt)) Aside moved _ _
        (atomic_lem (Is moved) Aside latest_to_backup (disk_of (some p) none rs none lt) os
          (some p, none, lt, refl, own) refl)
        λ rest.
          touch_lem (Is (disk_of none l rs none lt)) Aside moved rest (none, some p, lt, refl, own)
            (ap (λ b. disk_of none b rs none lt) own)

  -- The handler of the rename that puts the new artifact in its place.
  restore_lem :
      (w : World)
      → Moved w.disk
      → Post Aside Aside ((do observe (λ d. put_back (exists d.backup)); ignore touch) w)
  restore_lem w (lt, e) =
      bind_lem Aside Aside Aside (put_back (exists w.disk.backup) w) (ignore touch)
        (subst (λ (d : Disk). Post Aside Aside (put_back (exists d.backup) (at d w.outcomes)))
          (sym e) (put_back_lem l lt w.outcomes refl))
        λ v h. ignored_lem Aside (touch v) (touch_lem Aside Aside v.disk v.outcomes h h)

  module _ (run : AdviceRun) where
    abbrev in_place : Option Pair → Disk
    in_place b = disk_of (some (written run)) b rs none none

    replace_lem :
        (os : List Outcome)
        → Leaves Aside
            (disk_of l none rs none (some (written run)))
            os
            (do
              observe (λ d. set_aside (exists d.latest))
              on_error
                  (atomic temporary_to_latest)
                  (do observe (λ d. put_back (exists d.backup)); ignore touch))
            (in_place l)
    replace_lem os =
        let moved = disk_of none l rs none (some (written run)) in
        then_lem (Is (in_place l)) Aside moved _ _ (set_aside_lem l (some (written run)) os refl)
          λ rest.
            handled_lem (Is (in_place l)) Aside Moved (atomic temporary_to_latest (at moved rest))
              (do observe (λ d. put_back (exists d.backup)); ignore touch)
              (atomic_lem (Is (in_place l)) Moved temporary_to_latest moved rest
                (some (written run), refl) refl)
              Moved-Aside restore_lem

    module _ (E : Disk → Type 0) (before : (d : Disk) → Aside d → E d)
        (after : (b : Option Pair) → E (in_place b)) where
      discard_lem :
          (b : Option Pair) (os : List Outcome)
          → Leaves E (in_place b) os (discard_backup (exists b)) (in_place none)
      unfolding discard_backup remove_backup
      discard_lem none os = refl
      discard_lem (some p) os =
          then_lem (Is (in_place none)) E (in_place none) _ _
            (call_lem (Is (in_place none)) E
              (λ n d. record d { backup = update (partly_removed n) d.backup })
              (λ d. some (record d { backup = none })) (in_place (some p)) os
              (λ n. after (some (partly_removed n p))) (after (some p)) refl)
            λ rest. touch_lem (Is (in_place none)) E (in_place none) rest (after none) refl

      pub publish_latest_lem :
          (os : List Outcome)
          → Leaves E (disk_of l none rs none none) os (publish_latest run) (in_place none)
      unfolding publish_latest
      publish_latest_lem os =
          let begin = disk_of l none rs none none in
          let staged = disk_of l none rs none (some no_files) in
          let full = disk_of l none rs none (some (written run)) in
          then_lem (Is (in_place none)) E staged _ _
            (atomic_lem (Is staged) E (make_temporary latest_place) begin os
              (before begin (Held-Aside begin (none, refl))) refl)
            λ os₁.
              then_lem (Is (in_place none)) E (in_place l) _ _
                (weaken_lem (Is (in_place l)) Aside E
                  (on_error
                    (do
                      write_pair latest_place run
                      observe (λ d. set_aside (exists d.latest))
                      on_error (atomic temporary_to_latest)
                          (do observe (λ d. put_back (exists d.backup)); ignore touch))
                    (ignore (remove_temporary latest_place)) (at staged os₁))
                  before
                  (handled_lem (Is (in_place l)) Aside Aside _ _
                    (then_lem (Is (in_place l)) Aside full _ _
                      (weaken_lem (Is full) (Held latest_place begin) Aside
                        (write_pair latest_place run (at staged os₁)) Held-Aside
                        (write_pair_lem latest_place begin run os₁))
                      replace_lem)
                    (λ e h. h) Aside-drop))
                λ os₂.
                  then_lem (Is (in_place none)) E (in_place l) _ _
                    (touch_lem (Is (in_place l)) E (in_place l) os₂ (after l) refl) (discard_lem l)
