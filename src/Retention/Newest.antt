-- ===== src/Retention/Newest.antt =====
-- What is left of the runs: the newest ones, as many and as large as was asked for.
use Prim.Native.Nat.{min}
use git_slop.Base.{
  ℕ, zero, suc, ◌+◌, ◌≤◌, ◌<◌, ◌≡◌, ◌⊎◌, inl, inr, refl, sym, ap, subst, ◌∙◌, some, List, [], ◌∷◌,
  arith, All, All-map, All-sort_by, length, take, sort_by, saturating_add, u64_max, ok, >>=-ok,
}
use git_slop.Retention.Enforce.{
  RunEntry, Run, sized_runs, newer, Removal, Retention, retains, retain_runs, enforce_retention,
}
use git_slop.Retention.Kept.{
  total, IsSized, sized_runs-IsSized, total_of, IsAmong, IsTail, added, retain_kept, retain_removed,
  retain_runs-IsTail,
}

-- At most `keep` runs are left. They are no larger than the limit, or only the newest is left, which
-- stays in any case; and each of the `keep` newest is left, or is too large beside those that are.
pub record IsRetained (keep max_bytes : ℕ) (sorted left : List Run) : Type 0 where
  pub few : length left ≤ keep
  pub small : (take 1 sorted ≡ left) ⊎ (min (total_of left) u64_max ≤ max_bytes)
  pub newest : take 1 (take keep sorted) ≡ take 1 left
  pub full :
      All (λ r. IsAmong r left ⊎ (max_bytes < total_of left + total r.listing)) (take keep sorted)
  pub from : All (λ r. IsAmong r sorted) left

empty-IsRetained : (keep max_bytes : ℕ) → IsRetained keep max_bytes [] []
empty-IsRetained zero max_bytes = record {
  few = ground arith;
  small = inl refl;
  newest = refl;
  full = tt;
  from = tt;
}
empty-IsRetained (suc keep) max_bytes = record {
  few = ground arith;
  small = inl refl;
  newest = refl;
  full = tt;
  from = tt;
}

none-IsRetained :
    (max_bytes : ℕ) (run : Run) (runs left : List Run)
    → IsTail 0 max_bytes 0 runs left
    → IsRetained 0 max_bytes (run ∷ runs) left
none-IsRetained max_bytes run runs [] tail = record {
  few = ground arith;
  small = inr (ground arith);
  newest = refl;
  full = tt;
  from = tt;
}
none-IsRetained max_bytes run runs (r ∷ left) (few, small, full, from) = absurd (ground arith)

some-IsRetained :
    (keep max_bytes : ℕ) (run : Run) (runs left : List Run)
    → IsTail keep max_bytes (total run.listing) runs left
    → IsRetained (suc keep) max_bytes (run ∷ runs) (run ∷ left)
some-IsRetained keep max_bytes run runs left (few, small, full, from) = record {
  few = ground arith;
  small = elim small [
    | inl nothing ↦ inl (ap (λ rest. run ∷ rest) (sym nothing))
    | inr le ↦ inr le
  ];
  newest = refl;
  full = (
    inl (inl refl),
    All-map _ _ (λ r case. elim case [ inl among ↦ inl (inr among) | inr large ↦ inr large ]) _
        full,
  );
  from = (inl refl, All-map _ _ (λ r among. inr among) _ from);
}

retain_runs-IsRetained :
    (remove : Run → Removal) (keep max_bytes : ℕ) (runs : List Run)
    → All IsSized runs
    → (retain_runs remove keep max_bytes 0 0 runs).result ≡ ok tt
    → IsRetained keep max_bytes runs (retain_runs remove keep max_bytes 0 0 runs).left
unfolding retain_runs retains
retain_runs-IsRetained remove keep max_bytes [] sized h = empty-IsRetained keep max_bytes
retain_runs-IsRetained remove zero max_bytes (run ∷ runs) (size, sized) h =
    let same = retain_removed remove 0 max_bytes 0 0 run runs refl h in
    subst (λ out. IsRetained 0 max_bytes (run ∷ runs) out.left) same
      (none-IsRetained max_bytes run runs _ (
        retain_runs-IsTail remove 0 max_bytes 0 0 0 0 runs (ground arith) (ground arith) sized
          (ap (λ out. out.result) same ∙ h)))
retain_runs-IsRetained remove (suc keep) max_bytes (run ∷ runs) (size, sized) h =
    let same = retain_kept remove (suc keep) max_bytes 0 0 run runs (ground arith) in
    subst (λ out. IsRetained (suc keep) max_bytes (run ∷ runs) out.left) same
      (some-IsRetained keep max_bytes run runs _ (
        retain_runs-IsTail remove (suc keep) max_bytes 0 (total run.listing)
          (saturating_add 0 run.bytes) keep runs (ground arith)
          (ground (arith, added 0 run.bytes (total run.listing) 0 (ground arith) size)) sized
          (ap (λ out. out.result) same ∙ h)))

-- Where the runs can be read and every removal succeeds, at most as many runs are left as are to be
-- kept. They are together no larger than the limit, or only the newest is left, which stays unless
-- none is to be kept; and each of the newest, as many as are to be kept, is left, or would exceed
-- the limit beside those that are. A run's size is that of all the files below it.
pub enforce_retention-IsRetained :
    (remove : Run → Removal) (entries : List RunEntry) (keep max_bytes : ℕ) {out : Retention}
    → enforce_retention remove (some entries) keep max_bytes ≡ ok out
    → out.result ≡ ok tt
    → (runs : List Run) × (sized_runs entries ≡ ok runs)
      × IsRetained keep max_bytes (sort_by newer runs) out.left
unfolding enforce_retention
enforce_retention-IsRetained remove entries keep max_bytes {out} h done =
    let (runs, sized, h₁) = >>=-ok (sized_runs entries) _ h in
    let same : retain_runs remove keep max_bytes 0 0 (sort_by newer runs) ≡ out = cc in
    (
      runs,
      sized,
      subst (λ o. IsRetained keep max_bytes (sort_by newer runs) o.left) same
          (retain_runs-IsRetained remove keep max_bytes (sort_by newer runs)
            (All-sort_by newer IsSized runs (sized_runs-IsSized entries sized))
            (ap (λ o. o.result) same ∙ done)),
    )

retain_runs_newest :
    (remove : Run → Removal) (keep max_bytes : ℕ) (runs : List Run)
    → take 1 runs ≡ take 1 (retain_runs remove (suc keep) max_bytes 0 0 runs).left
unfolding retain_runs retains
retain_runs_newest remove keep max_bytes [] = refl
retain_runs_newest remove keep max_bytes (run ∷ runs) =
    ap (λ out. take 1 out.left)
      (retain_kept remove (suc keep) max_bytes 0 0 run runs (ground arith))

-- Where a run is to be kept and the runs can be read, the newest run is the first that is left, with
-- all that was in it, however large it is and whatever removal fails.
pub enforce_retention_newest :
    (remove : Run → Removal) (entries : List RunEntry) (keep max_bytes : ℕ) {out : Retention}
    → enforce_retention remove (some entries) (suc keep) max_bytes ≡ ok out
    → (runs : List Run) × (sized_runs entries ≡ ok runs)
      × (take 1 (sort_by newer runs) ≡ take 1 out.left)
unfolding enforce_retention
enforce_retention_newest remove entries keep max_bytes {out} h =
    let (runs, sized, h₁) = >>=-ok (sized_runs entries) _ h in
    let same : retain_runs remove (suc keep) max_bytes 0 0 (sort_by newer runs) ≡ out = cc in
    (
      runs,
      sized,
      retain_runs_newest remove keep max_bytes (sort_by newer runs) ∙ ap (λ o. take 1 o.left) same,
    )
