-- ===== src/Compare/Verdicts.antt =====
-- The regressions of `regression_for_delta` and the counts of `delta_counts`.
use git_slop.Base.{
  ℕ, suc, ◌+◌, ◌<◌, ◌≡◌, ◌≢◌, ◌↔◌, ◌⊎◌, inl, inr, Bool-cases, subst, refl, true, false, none, some,
  List, [], ◌∷◌, arith, length, Text, text_eq, text_eq_iff, ℤ, pos, ◌-ℤ◌, int_lt,
}
use git_slop.Compare.Model.{
  Record, Status, band_rank, band_delta, record_content_identity, record_delta_status,
}
use git_slop.Compare.Delta.{Delta, build_record_delta}
use git_slop.Compare.Regression.{
  CheckConfig, Reason, Regression, regression_for_delta, changed_reason, severity_of, text_or_empty,
  delta_counts, same_status, count, Counts,
}

-- A path whose known content is the same in both reports is no regression, whatever became of its
-- metrics and bands, unless the configuration asks to fail on evidence drift.
pub same_content_no_regression :
    (path : Text) (base head : Record) (fingerprint : Text) (config : CheckConfig)
    → record_content_identity base ≡ some fingerprint
    → record_content_identity head ≡ some fingerprint
    → config.fail_on_evidence_drift ≢ some true
    → regression_for_delta (build_record_delta path (some base) (some head)) config ≡ none
unfolding regression_for_delta build_record_delta record_delta_status
same_content_no_regression path base head f config b h quiet = ground (arith, text_eq_iff f f)

not_equal : (f g : Text) → f ≢ g → text_eq f g ≡ false
not_equal f g h = ground (arith, text_eq_iff f g)

worse_band_reason :
    (delta : Delta) (config : CheckConfig) (d : ℤ)
    → delta.context_band_delta ≡ some d
    → int_lt (pos 0) d ≡ true
    → delta.content_changed ≡ some true
    → changed_reason false delta config ≡ some Reason.worse_band
unfolding changed_reason
worse_band_reason delta config d shown positive changed = ground arith

rise : (m n : ℕ) → m < n → int_lt (pos 0) (pos n -ℤ pos m) ≡ true
unfolding ◌-ℤ◌
rise m n h = ground arith

band_delta-positive :
    (base head : Text)
    → band_rank base < band_rank head
    → (d : ℤ) × (band_delta (some base) (some head) ≡ some d) × (int_lt (pos 0) d ≡ true)
unfolding band_delta
band_delta-positive base head h =
    (pos (band_rank head) -ℤ pos (band_rank base), refl, rise (band_rank base) (band_rank head) h)

worse_band_delta :
    (delta : Delta) (config : CheckConfig) (d : ℤ)
    → delta.status ≡ Status.source_changed
    → delta.context_band_delta ≡ some d
    → int_lt (pos 0) d ≡ true
    → delta.content_changed ≡ some true
    → (r : Regression) × (regression_for_delta delta config ≡ some r)
      × (r.path ≡ delta.path)
      × (r.new ≡ false)
      × (r.reason ≡ Reason.worse_band)
unfolding regression_for_delta
worse_band_delta delta config d status shown positive changed = (
  record {
    path = delta.path;
    new = false;
    reason = Reason.worse_band;
    severity =
        severity_of (text_or_empty delta.head_context_band) (text_or_empty delta.head_slop_band);
    base_slop_score = delta.base_slop_score;
    head_slop_score = delta.head_slop_score;
    slop_score_delta = delta.slop_score_delta;
    context_band = delta.head_context_band;
    slop_band = delta.head_slop_band;
  },
  rw status (rw (worse_band_reason delta config d shown positive changed) refl),
  refl,
  refl,
  refl,
)

-- A path whose known contents differ and whose context band is worse in the head report is a
-- regression for its band, of a path that is not new, whatever the configuration.
pub worse_band_regression :
    (path : Text) (base head : Record) (f g : Text) (b h : Text) (config : CheckConfig)
    → record_content_identity base ≡ some f
    → record_content_identity head ≡ some g
    → f ≢ g
    → base.context_band ≡ some b
    → head.context_band ≡ some h
    → band_rank b < band_rank h
    → (r : Regression) × (regression_for_delta
          (build_record_delta path (some base) (some head))
          config
        ≡ some r)
      × (r.path ≡ path)
      × (r.new ≡ false)
      × (r.reason ≡ Reason.worse_band)
unfolding build_record_delta
worse_band_regression path base head f g b h config p q differ e k worse =
    let (d, shown, positive) = band_delta-positive b h worse in
    let other = not_equal f g differ in
    let delta = build_record_delta path (some base) (some head) in
    worse_band_delta delta config d (unfold record_delta_status in rw (p, q, other) refl)
      (rw (e, k) shown) positive (rw (p, q, other) refl)

same_status_iff : (a b : Status) → (same_status a b ≡ true) ↔ (a ≡ b)
same_status_iff Status.added b = ground arith
same_status_iff Status.removed b = ground arith
same_status_iff Status.unchanged b = ground arith
same_status_iff Status.source_changed b = ground arith
same_status_iff Status.evidence_drift b = ground arith
same_status_iff Status.renamed b = ground arith
same_status_iff Status.aggregate_changed b = ground arith

-- The list has so many deltas of the status.
abbrev pub HasCount : Status → List Delta → ℕ → Type 0
HasCount status [] n = n ≡ 0
HasCount status (d ∷ ds) n =
    ((d.status ≡ status) × (m : ℕ) × (n ≡ suc m) × HasCount status ds m)
    ⊎ ((d.status ≢ status) × HasCount status ds n)

count_zero : (n : ℕ) → n ≡ 0 + n
count_zero n = omega arith

count-HasCount : (status : Status) (items : List Delta) → HasCount status items (count status items)
unfolding count
count-HasCount status [] = refl
count-HasCount status (d ∷ ds) = elim (Bool-cases (same_status d.status status)) [
  | inl same ↦ rw same (
      inl (
        (same_status_iff d.status status).0 same,
        count status ds,
        ground arith,
        count-HasCount status ds,
      ))
  | inr other ↦ rw other (
      inr (
        (λ e. cc (other, (same_status_iff d.status status).1 e)),
        subst (HasCount status ds) (count_zero (count status ds)) (count-HasCount status ds),
      ))
]

-- The counts of a list of deltas: each is the number of the deltas of its status, `changed` is the
-- sum of its three kinds, and the five groups add up to the whole.
pub record AreCounts (items : List Delta) (c : Counts) : Type 0 where
  pub added : HasCount Status.added items c.added
  pub removed : HasCount Status.removed items c.removed
  pub source_changed : HasCount Status.source_changed items c.source_changed
  pub evidence_drift : HasCount Status.evidence_drift items c.evidence_drift
  pub renamed : HasCount Status.renamed items c.renamed
  pub aggregate_changed : HasCount Status.aggregate_changed items c.aggregate_changed
  pub unchanged : HasCount Status.unchanged items c.unchanged
  pub changed : c.changed ≡ c.source_changed + c.evidence_drift + c.aggregate_changed
  pub total : c.added + c.removed + c.changed + c.renamed + c.unchanged ≡ length items

delta_counts_total :
    (items : List Delta)
    → (let c = delta_counts items in c.added + c.removed + c.changed + c.renamed + c.unchanged)
      ≡ length items
unfolding delta_counts
delta_counts_total [] = refl
delta_counts_total (d ∷ ds) = ground (arith, delta_counts_total ds)

-- For every list of deltas, each count is the number of the deltas that have its status, `changed`
-- is the sum of its three kinds, and the five groups add up to the number of the deltas.
pub delta_counts-AreCounts : (items : List Delta) → AreCounts items (delta_counts items)
unfolding delta_counts
delta_counts-AreCounts items = record {
  added = count-HasCount Status.added items;
  removed = count-HasCount Status.removed items;
  source_changed = count-HasCount Status.source_changed items;
  evidence_drift = count-HasCount Status.evidence_drift items;
  renamed = count-HasCount Status.renamed items;
  aggregate_changed = count-HasCount Status.aggregate_changed items;
  unchanged = count-HasCount Status.unchanged items;
  changed = refl;
  total = delta_counts_total items;
}
