-- ===== src/Overlays/Traversal.antt =====
-- What `traverse` reaches from a path, and that it ends.
use git_slop.Base.{
  ℕ, zero, suc, ◌+◌, ◌≤◌, ◌≡◌, refl, sym, subst, ◌∙◌, inl, inr, true, false, ◌||◌, some, List, [],
  ◌∷◌, ◌++◌, arith, length, Text, Bool-cases, text_eq, text_eq_iff, text_eq_refl, BTreeMap, keys,
  member, insert_key, member-insert_key,
}
use git_slop.Overlays.Clusters.{
  Relationship, Front, visit_reversed, traverse, add_relationships, no_graph,
}
use git_slop.Overlays.Graph.{
  links, links-sym, Connected, neighbors, neighbors_lem, links-member-keys,
}
use git_slop.Overlays.Front.{
  member-append, unseen, unseen-le, unseen-insert_key_lt, member-visited, member-stack,
  size-visit_reversed,
}

module _ (rs : List Relationship) where
  abbrev adjacency : BTreeMap (List Text)
  adjacency = (add_relationships rs no_graph).adjacency

  -- The traversal from the start, over what had been seen by then.
  record Invariant (start : Text) (old members visited stack : List Text) : Type 0 where
    seen : (x : Text) → member x visited ≡ (member x old || (member x members || member x stack))
    reached : (x : Text) → (member x members || member x stack) ≡ true → Connected rs start x
    closed : (x y : Text) → member x members ≡ true → links rs x y ≡ true → member y visited ≡ true
    fresh : (x : Text) → (member x members || member x stack) ≡ true → member x old ≡ false

  Invariant-pop :
      {start : Text} {old members visited stack : List Text} (p : Text)
      → Invariant start old members visited (p ∷ stack)
      → let next =
          visit_reversed (record { visited = visited; stack = stack }) (neighbors adjacency p) in
        Invariant start old (members ++ p ∷ []) next.visited next.stack
  unfolding member
  Invariant-pop {start} {old} {members} {visited} {stack} p i =
      let front : Front = record { visited = visited; stack = stack } in
      let near = neighbors adjacency p in
      let split = λ (x : Text). member-append x members (p ∷ []) in
      let whole = λ (x : Text). member-visited front near x in
      let pushed = λ (x : Text). member-stack front near x in
      let link = λ (x : Text). neighbors_lem rs p x in
      let top : Connected rs start p = i.reached p (rw (text_eq_refl p) (ground arith)) in
      record {
        seen = λ x. ground (arith, split x, whole x, pushed x, i.seen x);
        reached = λ x h. elim (Bool-cases (member x members || (text_eq p x || member x stack))) [
          | inl had ↦ i.reached x had
          | inr new ↦ Connected.next top (ground (arith, split x, pushed x, link x))
        ];
        closed = λ x y h l. elim (Bool-cases (member x members)) [
          | inl had ↦ ground (arith, whole y, i.closed x y had l)
          | inr new ↦
              let same : p ≡ x = (text_eq_iff p x).0 (ground (arith, split x)) in
              let l' : links rs p y ≡ true = rw same l in ground (arith, whole y, link y)
        ];
        fresh = λ x h. elim (Bool-cases (member x members || (text_eq p x || member x stack))) [
          | inl had ↦ i.fresh x had
          | inr new ↦ ground (arith, split x, pushed x, i.seen x)
        ];
      }

  -- What a finished traversal is: the paths connected to the start, and no other.
  pub record IsReached (start : Text) (old members visited : List Text) : Type 0 where
    pub seen : (x : Text) → member x visited ≡ (member x old || member x members)
    pub reached : (x : Text) → member x members ≡ true → Connected rs start x
    pub complete : (x : Text) → Connected rs start x → member x members ≡ true
    pub fresh : (x : Text) → member x members ≡ true → member x old ≡ false

  abbrev pub IsClosed : List Text → Type 0
  IsClosed visited =
      (x y : Text) → member x visited ≡ true → links rs x y ≡ true → member y visited ≡ true

  connected-member :
      {start : Text} {old members visited : List Text}
      → IsClosed old
      → member start old ≡ false
      → member start visited ≡ true
      → Invariant start old members visited []
      → (x : Text) → Connected rs start x
      → member x members ≡ true
  unfolding member
  connected-member {start} shut new began i x Connected.here = ground (arith, i.seen start)
  connected-member {start} shut new began i x (Connected.next {b} path link) =
      let inside = connected-member shut new began i b path in
      ground (arith, i.seen x, i.closed b x inside link, i.fresh b, shut x b, links-sym rs b x)

  Invariant-IsReached :
      {start : Text} {old members visited : List Text}
      → IsClosed old
      → member start old ≡ false
      → member start visited ≡ true
      → Invariant start old members visited []
      → IsReached start old members visited
  unfolding member
  Invariant-IsReached shut new began i = record {
    seen = λ x. ground (arith, i.seen x);
    reached = λ x h. i.reached x (ground arith);
    complete = λ x path. connected-member shut new began i x path;
    fresh = λ x h. i.fresh x (ground arith);
  }

  -- With fuel for the stack and all unseen keys, the traversal ends.
  traverse-Invariant :
      (fuel : ℕ) {start : Text} {old : List Text} (members visited stack : List Text)
      → IsClosed old
      → member start old ≡ false
      → member start visited ≡ true
      → Invariant start old members visited stack
      → length stack + unseen visited (keys adjacency) ≤ fuel
      → (found seen : List Text) × (traverse adjacency fuel members visited stack
          ≡ some (found, seen))
        × IsReached start old found seen
  unfolding traverse
  traverse-Invariant fuel members visited [] shut new began i enough =
      (members, visited, refl, Invariant-IsReached shut new began i)
  traverse-Invariant zero members visited (p ∷ stack) shut new began i enough =
      let no : ⊥ = omega (arith, enough) in elim no [ ]
  traverse-Invariant (suc fuel) {start} members visited (p ∷ stack) shut new began i enough =
      let near = neighbors adjacency p in
      let front : Front = record { visited = visited; stack = stack } in
      let next = visit_reversed front near in
      let keyed = λ (x : Text) (h : member x near ≡ true).
        links-member-keys rs x p (links-sym rs x p ∙ sym (neighbors_lem rs p x) ∙ h) in
      traverse-Invariant fuel (members ++ p ∷ []) next.visited next.stack shut new
        (rw (member-visited front near start, began) refl) (Invariant-pop p i)
        (omega (arith, enough, size-visit_reversed front near (keys adjacency) keyed))

  -- From a new key, with fuel for every key, the traversal gives the paths connected to it.
  pub traverse_lem :
      (start : Text) (old : List Text)
      → IsClosed old
      → member start old ≡ false
      → member start (keys adjacency) ≡ true
      → (found seen : List Text) × (traverse adjacency
            (length (keys adjacency))
            []
            (insert_key start old)
            (start ∷ [])
          ≡ some (found, seen))
        × IsReached start old found seen
  unfolding member
  traverse_lem start old shut new keyed =
      traverse-Invariant (length (keys adjacency)) [] (insert_key start old) (start ∷ []) shut new
        (rw (member-insert_key start start old, text_eq_refl start) refl)
        (record {
          seen = λ x. ground (arith, member-insert_key start x old);
          reached = λ x h.
              subst (Connected rs start) ((text_eq_iff start x).0 (ground arith)) Connected.here;
          closed = λ x y h l. cc;
          fresh = λ x h. ground (arith, text_eq_iff start x);
        })
        (omega (
          arith,
          unseen-insert_key_lt start old (keys adjacency) new keyed,
          unseen-le old (keys adjacency),
        ))
