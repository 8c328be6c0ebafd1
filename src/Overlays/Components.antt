-- ===== src/Overlays/Components.antt =====
-- The duplicate sets as the connected components of the relationships.
use git_slop.Base.{
  ℕ, suc, ◌+◌, ◌≤◌, ◌≡◌, ◌≢◌, refl, sym, ap, ◌∙◌, inl, inr, Bool, true, false, ◌&&◌, ◌||◌, List, [],
  ◌∷◌, ◌++◌, arith, ltb, if◌then◌else◌, length, any, any-append, any-sort_by, sort_by, insert_by,
  Text, Bool-cases, text_eq, text_eq_iff, text_lt, BTreeMap, lookup, insert, lookup-insert, member,
}
use git_slop.Overlays.Clusters.{
  Relationship, or_default, DuplicateSet, Progress, add_memberships, add_set,
}
use git_slop.Overlays.Graph.{Connected, Connected-trans, Connected-sym}
use git_slop.Overlays.Front.{member-append}
use git_slop.Overlays.Traversal.{IsReached, IsClosed}

abbrev pub has : Text → DuplicateSet → Bool
has a s = member a s.member_paths

-- The two paths are in one set.
abbrev pub together : Text → Text → List DuplicateSet → Bool
together a b sets = any (λ s. has a s && has b s) sets

-- How many sets a path is in.
unfoldable pub holding : Text → List DuplicateSet → ℕ
holding a [] = 0
holding a (s ∷ sets) = let rest = holding a sets in if has a s then suc rest else rest

-- The path is in a set of that name, and the memberships of the path have the name.
abbrev pub in_named : Text → Text → List DuplicateSet → Bool
in_named a id sets = any (λ s. has a s && text_eq s.id id) sets

abbrev pub is_listed : Text → Text → BTreeMap (List Text) → Bool
is_listed a id memberships = member id (or_default (lookup a memberships))

is_listed-insert :
    (p name a id : Text) (m : BTreeMap (List Text))
    → is_listed a id (insert p (or_default (lookup p m) ++ name ∷ []) m)
      ≡ (is_listed a id m || (text_eq p a && text_eq name id))
unfolding member
is_listed-insert p name a id m =
    let named = or_default (lookup p m) ++ name ∷ [] in
    elim (Bool-cases (text_eq p a)) [
      | inl same ↦
          rw (lookup-insert p a named m, same)
            (rw ((text_eq_iff p a).0 same)
              (member-append id (or_default (lookup a m)) (name ∷ []) ∙ ground arith))
      | inr other ↦ rw (lookup-insert p a named m, other) (ground arith)
    ]

add_memberships_lem :
    (name : Text) (paths : List Text) (m : BTreeMap (List Text)) (a id : Text)
    → is_listed a id (add_memberships name paths m)
      ≡ (is_listed a id m || (member a paths && text_eq name id))
unfolding add_memberships member
add_memberships_lem name [] m a id = ground arith
add_memberships_lem name (p ∷ paths) m a id =
    add_memberships_lem name paths (insert p (or_default (lookup p m) ++ name ∷ []) m) a id
    ∙ ground (arith, is_listed-insert p name a id m)

member-any : (x : Text) (xs : List Text) → member x xs ≡ any (λ y. text_eq y x) xs
unfolding member
member-any x [] = refl
member-any x (y ∷ xs) = ground (arith, member-any x xs)

member-sort_by : (x : Text) (xs : List Text) → member x (sort_by text_lt xs) ≡ member x xs
member-sort_by x xs =
    member-any x (sort_by text_lt xs)
    ∙ any-sort_by text_lt (λ y. text_eq y x) xs
    ∙ sym (member-any x xs)

-- Two members that differ make a set.
two_members :
    (a b : Text) (xs : List Text)
    → member a xs ≡ true
    → member b xs ≡ true
    → a ≢ b
    → ltb (length xs) 2 ≡ false
unfolding member
two_members a b [] h k differ = cc
two_members a b (x ∷ []) h k differ =
    let no : ⊥ =
      differ (cc ((text_eq_iff x a).0 (ground arith), (text_eq_iff x b).0 (ground arith))) in
    elim no [ ]
two_members a b (x ∷ y ∷ xs) h k differ = ground arith

holding-append :
    (a : Text) (xs ys : List DuplicateSet) → holding a (xs ++ ys) ≡ holding a xs + holding a ys
unfolding holding
holding-append a [] ys = omega arith
holding-append a (x ∷ xs) ys = ground (arith, holding-append a xs ys)

holding-none : (a : Text) (xs : List DuplicateSet) → any (has a) xs ≡ false → holding a xs ≡ 0
unfolding holding
holding-none a [] h = refl
holding-none a (x ∷ xs) h = ground (arith, holding-none a xs)

holding-insert_by :
    (a : Text) (before : DuplicateSet → DuplicateSet → Bool) (x : DuplicateSet)
    (xs : List DuplicateSet)
    → holding a (insert_by before x xs) ≡ holding a (x ∷ xs)
unfolding holding insert_by
holding-insert_by a before x [] = refl
holding-insert_by a before x (y ∷ xs) = ground (arith, holding-insert_by a before x xs)

pub holding-sort_by :
    (a : Text) (before : DuplicateSet → DuplicateSet → Bool) (xs : List DuplicateSet)
    → holding a (sort_by before xs) ≡ holding a xs
unfolding holding sort_by
holding-sort_by a before [] = refl
holding-sort_by a before (x ∷ xs) =
    holding-insert_by a before x (sort_by before xs) ∙ ground (arith, holding-sort_by a before xs)

pub any-has :
    (a b : Text) (sets : List DuplicateSet) → together a b sets ≡ true → any (has a) sets ≡ true
any-has a b [] h = cc
any-has a b (s ∷ sets) h = ground (arith, any-has a b sets)

module _ (rs : List Relationship) where
  pub record IsExplored (p : Progress) : Type 0 where
    pub closed : IsClosed rs p.visited
    pub sound : (a b : Text) → together a b p.duplicate_sets ≡ true → Connected rs a b
    pub inside : (a : Text) → any (has a) p.duplicate_sets ≡ true → member a p.visited ≡ true
    pub complete :
        (a b : Text)
        → member a p.visited ≡ true
        → Connected rs a b
        → a ≢ b
        → together a b p.duplicate_sets ≡ true
    pub once : (a : Text) → holding a p.duplicate_sets ≤ 1
    pub indexed : (a id : Text) → is_listed a id p.memberships ≡ in_named a id p.duplicate_sets

  module _ {start : Text} {found seen : List Text} (p : Progress) (old : IsExplored p)
      (reached : IsReached rs start p.visited found seen) where
    IsClosed-seen : IsClosed rs seen
    IsClosed-seen x y h link = elim (Bool-cases (member x found)) [
      | inl new ↦
          let path = reached.complete y (Connected.next (reached.reached x new) link) in
          ground (arith, reached.seen y)
      | inr other ↦ ground (arith, reached.seen x, reached.seen y, old.closed x y)
    ]

    pub single :
        ltb (length (sort_by text_lt found)) 2 ≡ true → IsExplored (record p { visited = seen })
    single small = record {
      closed = IsClosed-seen;
      sound = old.sound;
      inside = λ a h. ground (arith, old.inside a h, reached.seen a);
      complete = λ a b h path differ. elim (Bool-cases (member a found)) [
        | inl new ↦
            let b_new = reached.complete b (Connected-trans (reached.reached a new) path) in
            let large =
              two_members a b (sort_by text_lt found) (member-sort_by a found ∙ new)
                (member-sort_by b found ∙ b_new) differ in
            cc
        | inr other ↦ old.complete a b (ground (arith, reached.seen a)) path differ
      ];
      once = old.once;
      indexed = old.indexed;
    }

    pub added :
        (s : DuplicateSet) → s.member_paths ≡ sort_by text_lt found → IsExplored (add_set seen s p)
    unfolding holding
    added s own =
        let member_s = λ (a : Text). ap (member a) own ∙ member-sort_by a found in
        let split =
          λ (a b : Text). any-append (λ t. has a t && has b t) p.duplicate_sets (s ∷ []) in
        record {
          closed = IsClosed-seen;
          sound = λ a b h. elim (Bool-cases (together a b p.duplicate_sets)) [
            | inl had ↦ old.sound a b had
            | inr new ↦
                Connected-trans
                  (Connected-sym (reached.reached a (ground (arith, split a b, member_s a))))
                  (reached.reached b (ground (arith, split a b, member_s b)))
          ];
          inside = λ a h. ground (
            arith,
            any-append (has a) p.duplicate_sets (s ∷ []),
            member_s a,
            old.inside a,
            reached.seen a,
          );
          complete = λ a b h path differ. elim (Bool-cases (member a found)) [
            | inl new ↦
                let b_new = reached.complete b (Connected-trans (reached.reached a new) path) in
                ground (arith, split a b, member_s a, member_s b)
            | inr other ↦
                let had = old.complete a b (ground (arith, reached.seen a)) path differ in
                ground (arith, split a b)
          ];
          once = λ a. ground (
            arith,
            holding-append a p.duplicate_sets (s ∷ []),
            old.once a,
            member_s a,
            reached.fresh a,
            old.inside a,
            holding-none a p.duplicate_sets,
          );
          indexed = λ a id.
              add_memberships_lem s.id s.member_paths p.memberships a id
              ∙ ground (
                arith,
                old.indexed a id,
                any-append (λ t. has a t && text_eq t.id id) p.duplicate_sets (s ∷ []),
              );
        }
