-- ===== src/Artifact/Staging.antt =====
-- The writing of a temporary directory, which touches neither the latest artifact nor the runs.
use git_slop.Base.{
  ◌≡◌, refl, Option, none, some, List, [], ◌∷◌, ◌++◌, ap, sym, subst, ◌∙◌, take, Text,
}
use git_slop.Artifact.Disk.{
  Pair, File, json_file, markdown_file, Place, run_place, latest_place, Disk, Outcome, World, M,
  ignore, call, set_file, update, in_temporary, no_files, partly_removed, exists,
}
use git_slop.Artifact.Write.{
  AdviceRun, write_private_file, write_pair, remove_temporary, without_temporary,
  remove_stale_advice_temporaries, remove_if, temporary_of,
}
use git_slop.Artifact.Calls.{
  Post, Is, at, call_lem, atomic_lem, touch_lem, then_lem, handled_lem, ignored_lem,
}

-- The disk with that temporary directory.
abbrev pub holding : Place → Option Pair → Disk → Disk
holding run_place o d = record d { run_temporary = o }
holding latest_place o d = record d { latest_temporary = o }

abbrev pub Leaves : (Disk → Type 0) → Disk → List Outcome → M (Unit {0}) → Disk → Type 0
Leaves E d os m e = Post (Is e) E (m (at d os))

-- What is written, as the two files.
abbrev pub written : AdviceRun → Pair
written run = record { json = some (run.artifact ++ 10 ∷ []); markdown = some run.markdown }

-- The disk but for that temporary directory.
abbrev pub Held : Place → Disk → Disk → Type 0
Held place d d' = (o : Option Pair) × (d' ≡ holding place o d)

set_file_twice :
    (file : File) (new old : Option Text) (p : Pair)
    → set_file file new (set_file file old p) ≡ set_file file new p
set_file_twice json_file new old p = refl
set_file_twice markdown_file new old p = refl

module _ (place : Place) (d : Disk) where
  in_holding :
      (f : Pair → Pair) (o : Option Pair)
      → in_temporary place f (holding place o d) ≡ holding place (update f o) d
  in_holding f o = go place
    where
      go : (p : Place) → in_temporary p f (holding p o d) ≡ holding p (update f o) d
      go run_place = refl
      go latest_place = refl

  Held-in : (f : Pair → Pair) (d' : Disk) → Held place d d' → Held place d (in_temporary place f d')
  Held-in f d' (o, e) = (update f o, ap (in_temporary place f) e ∙ in_holding f o)

  -- What a handler clears away stays within the temporary directory.
  tidy_lem :
      (f : Pair → Pair) (w : World)
      → Held place d w.disk
      → Post
          (Held place d)
          (Held place d)
          (ignore (call (λ n e. e) (λ e. some (in_temporary place f e))) w)
  tidy_lem f w h =
      ignored_lem (Held place d) (call (λ n e. e) (λ e. some (in_temporary place f e)) w) (
        atomic_lem (Held place d) (Held place d) (λ e. some (in_temporary place f e)) w.disk
          w.outcomes h (Held-in f w.disk h))

  pub write_private_file_lem :
      (file : File) (text : Text) (p : Pair) (os : List Outcome)
      → Leaves
          (Held place d)
          (holding place (some p) d)
          os
          (write_private_file place file text)
          (holding place (some (set_file file (some text) p)) d)
  unfolding write_private_file
  write_private_file_lem file text p os =
      let fresh = holding place (some (set_file file (some []) p)) d in
      let full = holding place (some (set_file file (some text) p)) d in
      then_lem (Is full) (Held place d) fresh _ _
        (atomic_lem (Is fresh) (Held place d)
          (λ e. some (in_temporary place (set_file file (some [])) e)) (holding place (some p) d) os
          (some p, refl) (in_holding (set_file file (some [])) (some p)))
        (λ rest.
          handled_lem (Is full) (Held place d) (Held place d) _ _
            (call_lem (Is full) (Held place d)
              (λ n e. in_temporary place (set_file file (some (take n text))) e)
              (λ e. some (in_temporary place (set_file file (some text)) e)) fresh rest
              (λ n.
                Held-in (set_file file (some (take n text))) fresh
                  (some (set_file file (some []) p), refl))
              (some (set_file file (some []) p), refl)
              (in_holding (set_file file (some text)) (some (set_file file (some []) p))
                ∙ ap (λ q. holding place (some q) d) (set_file_twice file (some text) (some []) p)))
            (λ e h. h) (λ w h. tidy_lem (set_file file none) w h))

  -- A directory that is written out holds both files.
  pub write_pair_lem :
      (run : AdviceRun) (os : List Outcome)
      → Leaves
          (Held place d)
          (holding place (some no_files) d)
          os
          (write_pair place run)
          (holding place (some (written run)) d)
  unfolding write_pair
  write_pair_lem run os =
      let empty = holding place (some no_files) d in
      let half =
        holding place (some (set_file json_file (some (run.artifact ++ 10 ∷ [])) no_files)) d in
      let full = holding place (some (written run)) d in
      then_lem (Is full) (Held place d) empty _ _
        (touch_lem (Is empty) (Held place d) empty os (some no_files, refl) refl)
        λ os₁.
          then_lem (Is full) (Held place d) half _ _
            (write_private_file_lem json_file (run.artifact ++ 10 ∷ []) no_files os₁)
            λ os₂.
              then_lem (Is full) (Held place d) full _ _
                (handled_lem (Is full) (Held place d) (Held place d) _ _
                  (write_private_file_lem markdown_file run.markdown
                    (set_file json_file (some (run.artifact ++ 10 ∷ [])) no_files) os₂)
                  (λ e h. h) (λ w h. tidy_lem (set_file json_file none) w h))
                λ os₃. touch_lem (Is full) (Held place d) full os₃ (some (written run), refl) refl

  Held-without : (d' : Disk) → Held place d d' → Held place d (without_temporary place d')
  Held-without d' (o, e) = (none, ap (without_temporary place) e ∙ go place)
    where
      go : (p : Place) → without_temporary p (holding p o d) ≡ holding p none d
      go run_place = refl
      go latest_place = refl

  without_holding :
      (o : Option Pair) → without_temporary place (holding place o d) ≡ holding place none d
  without_holding o = go place
    where
      go : (p : Place) → without_temporary p (holding p o d) ≡ holding p none d
      go run_place = refl
      go latest_place = refl

  remove_temporary_lem :
      (o : Option Pair) (os : List Outcome)
      → Leaves (Held place d) (holding place o d) os (remove_temporary place) (holding place none d)
  unfolding remove_temporary
  remove_temporary_lem o os =
      call_lem (Is (holding place none d)) (Held place d)
        (λ n e. in_temporary place (partly_removed n) e) (λ e. some (without_temporary place e))
        (holding place o d) os (λ n. Held-in (partly_removed n) (holding place o d) (o, refl))
        (o, refl) (without_holding o)

  -- A writer that returns with an error removes its temporary directory, or tries to.
  pub drop_lem :
      (w : World)
      → Held place d w.disk
      → Post (Held place d) (Held place d) (ignore (remove_temporary place) w)
  unfolding remove_temporary
  drop_lem w h = ignored_lem (Held place d) (remove_temporary place w) (
      call_lem (Held place d) (Held place d) (λ n e. in_temporary place (partly_removed n) e)
        (λ e. some (without_temporary place e)) w.disk w.outcomes
        (λ n. Held-in (partly_removed n) w.disk h) h (Held-without w.disk h))

  remove_if_lem :
      (o : Option Pair) (os : List Outcome)
      → Leaves
          (Held place d)
          (holding place o d)
          os
          (remove_if (exists o) place)
          (holding place none d)
  unfolding remove_if
  remove_if_lem none os = refl
  remove_if_lem (some p) os = remove_temporary_lem (some p) os

  temporary_of-holding : (o : Option Pair) → temporary_of place (holding place o d) ≡ o
  temporary_of-holding o = go place
    where
      go : (p : Place) → temporary_of p (holding p o d) ≡ o
      go run_place = refl
      go latest_place = refl

  -- A recovery leaves no temporary directory.
  pub remove_stale_lem :
      (o : Option Pair) (os : List Outcome)
      → Leaves
          (Held place d)
          (holding place o d)
          os
          (remove_stale_advice_temporaries place)
          (holding place none d)
  unfolding remove_stale_advice_temporaries
  remove_stale_lem o os =
      then_lem (Is (holding place none d)) (Held place d) (holding place o d) _ _
        (touch_lem (Is (holding place o d)) (Held place d) (holding place o d) os (o, refl) refl)
        λ rest.
          subst
            (λ q.
              Leaves (Held place d) (holding place o d) rest (remove_if (exists q) place)
                (holding place none d))
            (sym (temporary_of-holding o)) (remove_if_lem o rest)
