-- ===== src/Compare/Coverage.antt =====
-- The paths of two reports and the deltas of `build_record_deltas`.
use git_slop.Base.{
  ◌≡◌, refl, ◌∙◌, ◌↔◌, inl, inr, Bool, true, false, not, ◌&&◌, ◌||◌, Option, none, some, List, [],
  ◌∷◌, ◌++◌, arith, Text, text_eq, text_eq_iff, member, member-insert_key, BTreeMap, keys, any,
  any-append, any-sort_by, filter, Bool-cases,
}
use git_slop.Compare.Model.{Record, Status, union_keys, record_delta_status}
use git_slop.Compare.Delta.{
  Delta, EvidenceStatus, MetricStatus, build_record_delta, build_record_deltas, rename_pairs,
  is_old, is_new, renamed_delta, renamed_deltas, kept_delta, kept_deltas,
}

-- The fields of the delta that `build_record_delta` makes of a path, which `build_record_deltas`
-- keeps for a file that is not renamed, agree with one another: its status is `evidence_drift` exactly when its
-- evidence status is `drifted`, and exactly when the content is known to be the same and the
-- metrics are not.
pub evidence_drift_iff :
    (path : Text) (base head : Option Record)
    → (((build_record_delta path base head).status ≡ Status.evidence_drift)
        ↔ ((build_record_delta path base head).evidence_status ≡ EvidenceStatus.drifted))
      × (((build_record_delta path base head).status ≡ Status.evidence_drift) ↔ (
          ((build_record_delta path base head).content_changed ≡ some false)
          × ((build_record_delta path base head).metric_status ≡ MetricStatus.changed)))
unfolding build_record_delta record_delta_status
evidence_drift_iff path none none = ground arith
evidence_drift_iff path none (some h) = ground arith
evidence_drift_iff path (some b) none = ground arith
evidence_drift_iff path (some b) (some h) = ground arith

abbrev pub is_path_of : Text → Option Text → Bool
is_path_of p none = false
is_path_of p (some q) = text_eq q p

-- A delta speaks of a path: it is the delta's, or the one that it was renamed from.
abbrev pub speaks_of : Text → Delta → Bool
speaks_of p d = text_eq d.path p || is_path_of p d.renamed_from

pub member-union_keys :
    (p : Text) (xs ys : List Text) → member p (union_keys xs ys) ≡ (member p xs || member p ys)
unfolding union_keys member
member-union_keys p [] ys = refl
member-union_keys p (x ∷ xs) ys =
    member-insert_key x p (union_keys xs ys) ∙ ground (arith, member-union_keys p xs ys)

path-kept_delta :
    (folders : Bool) (base head : BTreeMap Record) (p : Text)
    → (kept_delta folders base head p).path ≡ p
unfolding kept_delta build_record_delta
path-kept_delta folders base head p = ground arith

kept_deltas-speak :
    (folders : Bool) (base head : BTreeMap Record) (p : Text) (paths : List Text)
    → member p paths ≡ true
    → any (speaks_of p) (kept_deltas folders base head paths) ≡ true
unfolding kept_deltas member
kept_deltas-speak folders base head p [] h = cc
kept_deltas-speak folders base head p (q ∷ qs) h =
    rw (path-kept_delta folders base head q)
      (ground (arith, kept_deltas-speak folders base head p qs))

renamed_deltas-speak :
    (base head : BTreeMap Record) (p : Text) (pairs : List (Text × Text))
    → (is_old p pairs || is_new p pairs) ≡ true
    → any (speaks_of p) (renamed_deltas base head pairs) ≡ true
unfolding renamed_deltas is_old is_new renamed_delta build_record_delta
renamed_deltas-speak base head p [] h = cc
renamed_deltas-speak base head p ((old, new) ∷ pairs) h =
    ground (arith, renamed_deltas-speak base head p pairs)

member-filter :
    (f : Text → Bool) (p : Text) (xs : List Text)
    → member p xs ≡ true
    → f p ≡ true
    → member p (filter f xs) ≡ true
unfolding member
member-filter f p [] h k = h
member-filter f p (x ∷ xs) h k = ground (arith, member-filter f p xs, text_eq_iff x p)

abbrev stays_in : List (Text × Text) → Text → Bool
stays_in pairs q = not (is_old q pairs) && not (is_new q pairs)

abbrev kept_paths : BTreeMap Record → BTreeMap Record → List (Text × Text) → List Text
kept_paths base head pairs = filter (stays_in pairs) (union_keys (keys base) (keys head))

spoken_of :
    (folders : Bool) (base head : BTreeMap Record) (pairs : List (Text × Text)) (p : Text)
    → (member p (keys base) || member p (keys head)) ≡ true
    → (any (speaks_of p) (kept_deltas folders base head (kept_paths base head pairs))
        || any (speaks_of p) (renamed_deltas base head pairs))
      ≡ true
spoken_of folders base head pairs p h = elim (Bool-cases (is_old p pairs || is_new p pairs)) [
  | inl moved ↦ rw (renamed_deltas-speak base head p pairs moved) (ground arith)
  | inr stays ↦
      let kept : stays_in pairs p ≡ true = ground arith in
      let listed =
        member-filter (stays_in pairs) p (union_keys (keys base) (keys head))
          (member-union_keys p (keys base) (keys head) ∙ h) kept in
      rw (kept_deltas-speak folders base head p (kept_paths base head pairs) listed)
]

-- Every path of either report is spoken of by a delta: by one of its own, or, where its content
-- moved, by that of the path that it was renamed to.
pub build_record_deltas_complete :
    (folders : Bool) (base head : BTreeMap Record) (p : Text)
    → (member p (keys base) || member p (keys head)) ≡ true
    → any (speaks_of p) (build_record_deltas folders base head) ≡ true
unfolding build_record_deltas
build_record_deltas_complete folders base head p h =
    let pairs = rename_pairs base head in
    let kept = kept_deltas folders base head (kept_paths base head pairs) in
    let moved = renamed_deltas base head pairs in
    any-sort_by _ (speaks_of p) (kept ++ moved)
    ∙ any-append (speaks_of p) kept moved
    ∙ spoken_of folders base head pairs p h
