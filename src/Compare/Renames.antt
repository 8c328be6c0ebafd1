-- ===== src/Compare/Renames.antt =====
-- The renames of `build_record_deltas`, and the content that they are found by.
use git_slop.Base.{
  ◌≡◌, refl, subst, ◌⊎◌, inl, inr, Option, none, some, List, [], ◌∷◌, ◌++◌, All, All-append, Text,
  text_eq, text_eq_iff, text_lt, BTreeMap, lookup, insert, Bool-cases, Option-cases,
}
use git_slop.Compare.Model.{Record, record_content_identity}
use git_slop.Compare.Delta.{
  rename_pairs, renames, add_pair, fingerprint_paths, fingerprint_loop, push_path,
}

-- The records hold this entry.
abbrev pub Holds : BTreeMap Record → Text → Record → Type 0
Holds [] p r = ⊥
Holds ((q, s) ∷ m) p r = ((q ≡ p) × (s ≡ r)) ⊎ Holds m p r

-- The path stands in one report only, with this content.
abbrev pub IsOnlyIn : BTreeMap Record → BTreeMap Record → Text → Text → Type 0
IsOnlyIn records other fingerprint p =
    (r : Record) × Holds records p r
    × (record_content_identity r ≡ some fingerprint)
    × (lookup p other ≡ none)

abbrev IsGroup : BTreeMap Record → BTreeMap Record → Text × List Text → Type 0
IsGroup records other entry = All (IsOnlyIn records other (entry.0)) (entry.1)

All-insert :
    {V : Type 0} (P : Text × V → Type 0) (k : Text) (v : V) (m : BTreeMap V)
    → P (k, v)
    → All P m
    → All P (insert k v m)
unfolding insert
All-insert P k v [] p h = (p, tt)
All-insert P k v ((j, w) ∷ m) p h = elim (Bool-cases (text_eq j k)) [
  | inl same ↦ rw same (p, h.1)
  | inr other ↦ rw other (elim (Bool-cases (text_lt k j)) [
    | inl before ↦ rw before (p, h)
    | inr behind ↦ rw behind (h.0, All-insert P k v m p (h.1))
  ])
]

All-lookup :
    {V : Type 0} (P : Text × V → Type 0) (k : Text) (v : V) (m : BTreeMap V)
    → All P m
    → lookup k m ≡ some v
    → P (k, v)
unfolding lookup
All-lookup P k v [] h e = cc
All-lookup P k v ((j, w) ∷ m) h e = elim (Bool-cases (text_eq j k)) [
  | inl same ↦
      let key = (text_eq_iff j k).0 same in
      let value : w ≡ v = cc (rw same at e) in
      subst (λ x. P (x, v)) key (subst (λ y. P (j, y)) value (h.0))
  | inr other ↦ All-lookup P k v m (h.1) (rw other at e)
]

module _ (records other : BTreeMap Record) where
  push_path-IsGroup :
      (f : Option Text) (p : Text) (values : BTreeMap (List Text))
      → ((t : Text) → f ≡ some t → IsOnlyIn records other t p)
      → All (IsGroup records other) values
      → All (IsGroup records other) (push_path f p values)
  push_path-IsGroup none p values only h = h
  push_path-IsGroup (some t) p values only h = by_group (lookup t values) refl
    where
      by_group :
          (o : Option (List Text))
          → lookup t values ≡ o
          → All (IsGroup records other) (elim o [
            | none ↦ insert t (p ∷ []) values
            | some paths ↦ insert t (paths ++ p ∷ []) values
          ])
      by_group none e = All-insert _ t (p ∷ []) values (only t refl, tt) h
      by_group (some paths) e =
          All-insert _ t (paths ++ p ∷ []) values
            (All-append _ paths (p ∷ []) (All-lookup _ t paths values h e) (only t refl, tt)) h

  -- The rest of the records is a part of them all.
  abbrev IsPart : BTreeMap Record → Type 0
  IsPart rest = (p : Text) (r : Record) → Holds rest p r → Holds records p r

  fingerprint_loop-IsGroup :
      (rest : BTreeMap Record) (values : BTreeMap (List Text))
      → IsPart rest
      → All (IsGroup records other) values
      → All (IsGroup records other) (fingerprint_loop rest other values)
  unfolding fingerprint_loop
  fingerprint_loop-IsGroup [] values part h = h
  fingerprint_loop-IsGroup ((p, r) ∷ rest) values part h =
      fingerprint_loop-IsGroup rest _ (λ q s k. part q s (inr k))
        (elim (Option-cases (lookup p other)) [
          | inl missing ↦ rw missing (
              push_path-IsGroup (record_content_identity r) p values
                (λ t e. (r, part p r (inl (refl, refl)), e, missing)) h)
          | inr (s, known) ↦ rw known h
        ])

  fingerprint_paths-IsGroup : All (IsGroup records other) (fingerprint_paths records other)
  unfolding fingerprint_paths
  fingerprint_paths-IsGroup = fingerprint_loop-IsGroup records [] (λ p r h. h) tt

-- The content that the old path had in the base report is at the new path in the head report, and
-- each path is missing from the other report.
abbrev pub IsMove : BTreeMap Record → BTreeMap Record → Text × Text → Type 0
IsMove base head pair =
    (fingerprint : Text) × IsOnlyIn base head fingerprint (pair.0)
    × IsOnlyIn head base fingerprint (pair.1)

module _ (base head : BTreeMap Record) where
  add_pair-IsMove :
      (f : Text) (paths : List Text) (o : Option (List Text)) (pairs : List (Text × Text))
      → All (IsOnlyIn base head f) paths
      → ((l : List Text) → o ≡ some l → All (IsOnlyIn head base f) l)
      → All (IsMove base head) pairs
      → All (IsMove base head) (add_pair paths o pairs)
  add_pair-IsMove f (old ∷ []) (some (new ∷ [])) pairs g k h = ((f, g.0, (k (new ∷ []) refl).0), h)
  add_pair-IsMove f (old ∷ []) _ pairs g k h = h
  add_pair-IsMove f [] _ pairs g k h = h
  add_pair-IsMove f _ _ pairs g k h = h

  renames-IsMove :
      (groups others : BTreeMap (List Text))
      → All (IsGroup base head) groups
      → All (IsGroup head base) others
      → All (IsMove base head) (renames groups others)
  unfolding renames
  renames-IsMove [] others h k = tt
  renames-IsMove ((f, paths) ∷ groups) others h k =
      add_pair-IsMove f paths (lookup f others) (renames groups others) (h.0)
        (λ l e. All-lookup (IsGroup head base) f l others k e)
        (renames-IsMove groups others (h.1) k)

-- Each pair that is reported as a rename is a move: one record with some content stands in the
-- base report at the old path, which the head report lacks, and one with the same content stands
-- in the head report at the new path, which the base report lacks.
pub rename_pairs-IsMove :
    (base head : BTreeMap Record) → All (IsMove base head) (rename_pairs base head)
unfolding rename_pairs
rename_pairs-IsMove base head =
    renames-IsMove base head (fingerprint_paths base head) (fingerprint_paths head base)
      (fingerprint_paths-IsGroup base head) (fingerprint_paths-IsGroup head base)
