-- ===== src/Retention/Kept.antt =====
-- What is kept of the runs after the newest one.
use Prim.Native.Nat.{min}
use git_slop.Base.{
  ℕ, zero, suc, ◌+◌, ◌-◌, ◌≤◌, ◌<◌, ◌≡◌, ◌↔◌, ◌⊎◌, inl, inr, refl, sym, ap, subst, ◌∙◌, true, false,
  List, [], ◌∷◌, arith, All, All-map, length, take, Bool-cases, saturating_add, u64_max, Result, ok,
  ◌>>=◌, >>=-ok,
}
use git_slop.Retention.Enforce.{
  Listing, no_more, unreadable, file, directory, RetentionError, retained_directory_size, RunEntry,
  Run, run_with, sized_runs, Removal, removed, left_over, Retention, keep_run, after_removal,
  retains, retain_runs,
}

-- The bytes of all the files, without a bound.
abbrev pub total : Listing → ℕ
total no_more = 0
total unreadable = 0
total (file length rest) = length + total rest
total (directory inner rest) = total inner + total rest

retained_directory_size_lem :
    (bytes : ℕ) (listing : Listing) {n : ℕ}
    → bytes ≤ u64_max
    → retained_directory_size bytes listing ≡ ok n
    → n ≡ min (bytes + total listing) u64_max
unfolding retained_directory_size saturating_add
retained_directory_size_lem bytes no_more {n} le h = let same : bytes ≡ n = cc in ground arith
retained_directory_size_lem bytes unreadable le h = absurd (cc)
retained_directory_size_lem bytes (file length rest) le h =
    let e = retained_directory_size_lem (saturating_add bytes length) rest (ground arith) h in
    ground arith
retained_directory_size_lem bytes (directory inner rest) le h =
    let (length, first, h₁) = >>=-ok (retained_directory_size 0 inner) _ h in
    let e = retained_directory_size_lem 0 inner (ground arith) first in
    let e₁ = retained_directory_size_lem (saturating_add bytes length) rest (ground arith) h₁ in
    ground arith

abbrev pub IsSized : Run → Type 0
IsSized run = run.bytes ≡ min (total run.listing) u64_max

sized_runs_lem :
    (entry : RunEntry) (others : Result RetentionError (List Run)) {runs : List Run}
    → (retained_directory_size 0 entry.listing >>= λ bytes.
        others >>= λ rest. ok (run_with entry bytes ∷ rest))
      ≡ ok runs
    → (run : Run) × (rest : List Run) × (run ∷ rest ≡ runs) × IsSized run × (others ≡ ok rest)
sized_runs_lem entry others {runs} h =
    let (bytes, first, h₁) = >>=-ok (retained_directory_size 0 entry.listing) _ h in
    let (rest, same, h₂) = >>=-ok others _ h₁ in
    (
      run_with entry bytes,
      rest,
      cc,
      ground (arith, retained_directory_size_lem 0 entry.listing (ground arith) first),
      same,
    )

pub sized_runs-IsSized :
    (entries : List RunEntry) {runs : List Run} → sized_runs entries ≡ ok runs → All IsSized runs
unfolding sized_runs
sized_runs-IsSized [] {runs} h = let same : [] ≡ runs = cc in subst (All IsSized) same tt
sized_runs-IsSized (entry ∷ entries) {runs} h = elim (Bool-cases entry.is_directory) [
  | inl d ↦
      let (run, rest, same, sized, others) =
        sized_runs_lem entry (sized_runs entries) (rw d at h) in
      subst (All IsSized) same (sized, sized_runs-IsSized entries others)
  | inr n ↦ sized_runs-IsSized entries (rw n at h)
]

abbrev pub total_of : List Run → ℕ
total_of [] = 0
total_of (run ∷ runs) = total run.listing + total_of runs

abbrev pub IsAmong : Run → List Run → Type 0
IsAmong r [] = ⊥
IsAmong r (run ∷ runs) = (r ≡ run) ⊎ IsAmong r runs

abbrev pub IsTail : ℕ → ℕ → ℕ → List Run → List Run → Type 0
IsTail more max_bytes before runs left =
    (length left ≤ more)
    × ((left ≡ []) ⊎ (min (before + total_of left) u64_max ≤ max_bytes))
    × All (λ r. IsAmong r left ⊎ (max_bytes < before + total_of left + total r.listing))
        (take more runs)
    × All (λ r. IsAmong r runs) left

kept-IsTail :
    (more max_bytes before : ℕ) (run : Run) (runs left : List Run)
    → min (before + total run.listing) u64_max ≤ max_bytes
    → IsTail more max_bytes (before + total run.listing) runs left
    → IsTail (suc more) max_bytes before (run ∷ runs) (run ∷ left)
kept-IsTail more max_bytes before run runs left fits (few, small, full, from) = (
  ground arith,
  inr (elim small [ inl nothing ↦ rw nothing (ground arith) | inr le ↦ ground arith ]),
  (
    inl (inl refl),
    All-map _ _
        (λ r case. elim case [ inl in_left ↦ inl (inr in_left) | inr large ↦ inr (ground arith) ]) _
        full,
  ),
  (inl refl, All-map _ _ (λ r among. inr among) _ from),
)

removed-IsTail :
    (more max_bytes before : ℕ) (run : Run) (runs left : List Run)
    → max_bytes < before + total run.listing
    → IsTail more max_bytes before runs left
    → IsTail (suc more) max_bytes before (run ∷ runs) left
removed-IsTail more max_bytes before run runs left large (few, small, full, from) =
    (ground arith, small, (inr (ground arith), full), All-map _ _ (λ r among. inr among) _ from)

none-IsTail :
    (max_bytes before : ℕ) (run : Run) (runs left : List Run)
    → IsTail 0 max_bytes before runs left
    → IsTail 0 max_bytes before (run ∷ runs) left
none-IsTail max_bytes before run runs left (few, small, full, from) =
    (few, small, tt, All-map _ _ (λ r among. inr among) _ from)

removed_ok :
    (run : Run) (runs : List Run) (removal : Removal) (rest : Retention)
    → (after_removal run runs removal rest).result ≡ ok tt
    → after_removal run runs removal rest ≡ rest
removed_ok run runs removed rest h = refl
removed_ok run runs (left_over listing) rest h = absurd (cc)

empty-IsTail : (more max_bytes before : ℕ) → IsTail more max_bytes before [] []
empty-IsTail zero max_bytes before = (ground arith, inl refl, tt, tt)
empty-IsTail (suc more) max_bytes before = (ground arith, inl refl, tt, tt)

pub added :
    (before bytes size retained : ℕ)
    → retained ≡ min before u64_max
    → bytes ≡ min size u64_max
    → saturating_add retained bytes ≡ min (before + size) u64_max
unfolding saturating_add
added before bytes size retained m e = ground arith

retains_iff :
    (keep max_bytes index retained_bytes : ℕ) (run : Run)
    → (retains keep max_bytes (suc index) retained_bytes run ≡ true)
      ↔ ((suc index < keep) × (min (retained_bytes + run.bytes) u64_max ≤ max_bytes))
unfolding retains saturating_add
retains_iff keep max_bytes index retained_bytes run = ground arith

module _ (remove : Run → Removal) (keep max_bytes : ℕ) where
  pub retain_kept :
      (index retained_bytes : ℕ) (run : Run) (runs : List Run)
      → retains keep max_bytes index retained_bytes run ≡ true
      → keep_run run (
          retain_runs remove keep max_bytes
            (suc index)
            (saturating_add retained_bytes run.bytes)
            runs)
        ≡ retain_runs remove keep max_bytes index retained_bytes (run ∷ runs)
  unfolding retain_runs
  retain_kept index retained_bytes run runs kept = rw kept

  pub retain_removed :
      (index retained_bytes : ℕ) (run : Run) (runs : List Run)
      → retains keep max_bytes index retained_bytes run ≡ false
      → (retain_runs remove keep max_bytes index retained_bytes (run ∷ runs)).result ≡ ok tt
      → retain_runs remove keep max_bytes (suc index) retained_bytes runs
        ≡ retain_runs remove keep max_bytes index retained_bytes (run ∷ runs)
  unfolding retain_runs
  retain_removed index retained_bytes run runs dropped h =
      rw dropped (sym (removed_ok run runs (remove run) _ (rw dropped at h)))

  pub retain_runs-IsTail :
      (index before retained_bytes more : ℕ) (runs : List Run)
      → more ≡ keep - suc index
      → retained_bytes ≡ min before u64_max
      → All IsSized runs
      → (retain_runs remove keep max_bytes (suc index) retained_bytes runs).result ≡ ok tt
      → IsTail more max_bytes before runs
          (retain_runs remove keep max_bytes (suc index) retained_bytes runs).left
  unfolding retain_runs
  retain_runs-IsTail index before retained_bytes more [] e m sized h =
      empty-IsTail more max_bytes before
  retain_runs-IsTail index before retained_bytes zero (run ∷ runs) e m (size, sized) h =
      let dropped : retains keep max_bytes (suc index) retained_bytes run ≡ false =
        ground (arith, retains_iff keep max_bytes index retained_bytes run) in
      let same = retain_removed (suc index) retained_bytes run runs dropped h in
      let rest =
        retain_runs-IsTail (suc index) before retained_bytes zero runs (ground arith) m sized
          (ap (λ out. out.result) same ∙ h) in
      subst (λ out. IsTail 0 max_bytes before (run ∷ runs) out.left) same
        (none-IsTail max_bytes before run runs _ rest)
  retain_runs-IsTail index before retained_bytes (suc more) (run ∷ runs) e m (size, sized) h =
      let test = retains_iff keep max_bytes index retained_bytes run in
      elim (Bool-cases (retains keep max_bytes (suc index) retained_bytes run)) [
        | inl kept ↦
            let same = retain_kept (suc index) retained_bytes run runs kept in
            let (under, fits) = test.0 kept in
            let rest =
              retain_runs-IsTail (suc index) (before + total run.listing)
                (saturating_add retained_bytes run.bytes) more runs (ground arith)
                (added before run.bytes (total run.listing) retained_bytes m size) sized
                (ap (λ out. out.result) same ∙ h) in
            subst (λ out. IsTail (suc more) max_bytes before (run ∷ runs) out.left) same
              (kept-IsTail more max_bytes before run runs _ (ground arith) rest)
        | inr dropped ↦
            let same = retain_removed (suc index) retained_bytes run runs dropped h in
            let rest =
              retain_runs-IsTail (suc index) before retained_bytes more runs (ground arith) m sized
                (ap (λ out. out.result) same ∙ h) in
            subst (λ out. IsTail (suc more) max_bytes before (run ∷ runs) out.left) same
              (removed-IsTail more max_bytes before run runs _ (ground (arith, test)) rest)
      ]
