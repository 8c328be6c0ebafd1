-- ===== src/Overlays/Partition.antt =====
-- `build_clusters` as a whole: its loop over the paths and the sets that it leaves.
use git_slop.Base.{
  ℕ, ◌≤◌, ◌≡◌, ◌≢◌, ◌↔◌, refl, sym, ap, subst, ◌∙◌, inl, inr, true, ◌&&◌, some, List, [], ◌∷◌,
  arith, ltb, length, any-sort_by, sort_by, lookup, Text, Bool-cases, text_eq, text_eq_iff,
  text_eq_refl, text_lt, keys, member, All,
}
use git_slop.Overlays.Clusters.{
  Relationship, Graph, add_relationships, no_graph, Progress, Clusters, add_set, duplicate_set,
  finish_start, explore_start, explore, sets_before, clusters_of, build_clusters,
}
use git_slop.Overlays.Graph.{links-sym, Connected, Connected-sym, links-member-keys}
use git_slop.Overlays.Traversal.{IsReached, traverse_lem}
use git_slop.Overlays.Components.{
  has, together, holding, holding-sort_by, IsExplored, single, added, is_listed, in_named,
}

pub record IsPartition (rs : List Relationship) (c : Clusters) : Type 0 where
  pub joined : (a b : Text) → a ≢ b → (together a b c.duplicate_sets ≡ true) ↔ Connected rs a b
  pub once : (a : Text) → holding a c.duplicate_sets ≤ 1
  pub indexed : (a id : Text) → is_listed a id c.memberships ≡ in_named a id c.duplicate_sets

module _ (digest : Text → List ℕ) (rs : List Relationship) where
  abbrev graph : Graph
  graph = add_relationships rs no_graph

  finish_start-IsExplored :
      {start : Text} {found seen : List Text} (p : Progress)
      → IsExplored rs p
      → IsReached rs start p.visited found seen
      → (q : Progress) × (finish_start digest graph p (some (found, seen)) ≡ some q)
        × (q.visited ≡ seen)
        × IsExplored rs q
  unfolding finish_start duplicate_set
  finish_start-IsExplored {start} {found} {seen} p old reached =
      elim (Bool-cases (ltb (length (sort_by text_lt found)) 2)) [
        | inl small ↦
            rw small (record p { visited = seen }, refl, refl, single rs p old reached small)
        | inr large ↦
            let set = duplicate_set digest graph.relation_by_pair (sort_by text_lt found) in
            rw large (add_set seen set p, refl, refl, added rs p old reached set refl)
      ]

  abbrev Later : Progress → Progress → Type 0
  Later p q = (x : Text) → member x p.visited ≡ true → member x q.visited ≡ true

  explore_start-IsExplored :
      (start : Text) (p : Progress)
      → IsExplored rs p
      → member start (keys graph.adjacency) ≡ true
      → (q : Progress) × (explore_start digest (length (keys graph.adjacency)) graph start p
          ≡ some q)
        × (member start q.visited ≡ true)
        × Later p q
        × IsExplored rs q
  unfolding explore_start
  explore_start-IsExplored start p old keyed = elim (Bool-cases (member start p.visited)) [
    | inl seen ↦ rw seen (p, refl, seen, λ x h. h, old)
    | inr new ↦
        let (found, seen, runs, reached) = traverse_lem rs start p.visited old.closed new keyed in
        let (q, ends, own, explored) = finish_start-IsExplored p old reached in
        let whole = λ (x : Text). ap (member x) own ∙ reached.seen x in
        let began : member start q.visited ≡ true =
          ground (arith, whole start, reached.complete start Connected.here) in
        rw (new, runs) (q, ends, began, λ x h. ground (arith, whole x), explored)
  ]

  explore-IsExplored :
      (starts : List Text) (p : Progress)
      → IsExplored rs p
      → All (λ s. member s (keys graph.adjacency) ≡ true) starts
      → (q : Progress) × (explore digest (length (keys graph.adjacency)) graph starts (some p)
          ≡ some q)
        × All (λ s. member s q.visited ≡ true) starts
        × Later p q
        × IsExplored rs q
  unfolding explore
  explore-IsExplored [] p old keyed = (p, refl, tt, λ x h. h, old)
  explore-IsExplored (start ∷ starts) p old (key, keyed) =
      let (q, runs, seen, later, explored) = explore_start-IsExplored start p old key in
      let (r, ends, rest, last, done) = explore-IsExplored starts q explored keyed in
      (
        r,
        ap (explore digest (length (keys graph.adjacency)) graph starts) runs ∙ ends,
        (last start seen, rest),
        λ x h. last x (later x h),
        done,
      )

  All-member :
      (ks js : List Text)
      → ((x : Text) → member x ks ≡ true → member x js ≡ true)
      → All (λ s. member s js ≡ true) ks
  unfolding member
  All-member [] js h = tt
  All-member (k ∷ ks) js h =
      (h k (rw (text_eq_refl k) refl), All-member ks js (λ x m. h x (ground arith)))

  member-All : (P : Text → Type 0) (x : Text) (ks : List Text) → All P ks → member x ks ≡ true → P x
  unfolding member
  member-All P x [] h m = cc
  member-All P x (k ∷ ks) (p, h) m = elim (Bool-cases (text_eq k x)) [
    | inl same ↦ subst P ((text_eq_iff k x).0 same) p
    | inr other ↦ member-All P x ks h (ground arith)
  ]

  abbrev start_of_all : Progress
  start_of_all = record { visited = []; duplicate_sets = []; memberships = [] }

  nothing-IsExplored : IsExplored rs start_of_all
  unfolding member holding lookup
  nothing-IsExplored = record {
    closed = λ x y h l. cc;
    sound = λ a b h. cc;
    inside = λ a h. cc;
    complete = λ a b h path differ. cc;
    once = λ a. omega arith;
    indexed = λ a id. refl;
  }

  -- A path that is reached from another one is a key.
  reached-key : {a b : Text} → Connected rs b a → b ≢ a → member a (keys graph.adjacency) ≡ true
  reached-key Connected.here differ = let no : ⊥ = differ refl in elim no [ ]
  reached-key {a} (Connected.next {b} path link) differ =
      links-member-keys rs a b (links-sym rs a b ∙ link)

  module _ (p : Progress) (done : IsExplored rs p)
      (seen : All (λ s. member s p.visited ≡ true) (keys graph.adjacency)) where
    together-sets :
        (a b : Text)
        → together a b (sort_by sets_before p.duplicate_sets) ≡ together a b p.duplicate_sets
    together-sets a b = any-sort_by sets_before (λ s. has a s && has b s) p.duplicate_sets

    explored-IsPartition :
        (c : Clusters) × (clusters_of digest (some p) ≡ some c) × IsPartition rs c
    unfolding clusters_of
    explored-IsPartition = (
      _,
      refl,
      record {
        joined = λ a b differ. (
          (λ h. done.sound a b (sym (together-sets a b) ∙ h)),
          λ path.
              let key = reached-key (Connected-sym path) (λ same. differ (sym same)) in
              let visited =
                member-All (λ s. member s p.visited ≡ true) a (keys graph.adjacency) seen key in
              together-sets a b ∙ done.complete a b visited path differ,
        );
        once = λ a. omega (arith, holding-sort_by a sets_before p.duplicate_sets, done.once a);
        indexed = λ a id.
            done.indexed a id
            ∙ sym (any-sort_by sets_before (λ s. has a s && text_eq s.id id) p.duplicate_sets);
      },
    )

  -- The search for duplicate sets ends for any relationships, with as many pops for each start as
  -- there are paths. Two different paths are in a common set exactly when they are connected by
  -- relationships, no path is in more than one set, and the memberships of a path name the sets
  -- that it is in.
  pub build_clusters-IsPartition :
      (c : Clusters) × (build_clusters digest rs ≡ some c) × IsPartition rs c
  unfolding build_clusters clusters_of
  build_clusters-IsPartition =
      let ks = keys graph.adjacency in
      let (p, runs, seen, later, done) =
        explore-IsExplored ks start_of_all nothing-IsExplored (All-member ks ks (λ x m. m)) in
      let (c, ends, parts) = explored-IsPartition p done seen in
      (c, ap (clusters_of digest) runs ∙ ends, parts)
