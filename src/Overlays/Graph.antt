-- ===== src/Overlays/Graph.antt =====
-- The adjacency of the relationships, and the paths that they connect.
use git_slop.Base.{
  ◌≡◌, ◌≢◌, refl, ◌∙◌, inl, inr, Bool, true, false, ◌&&◌, ◌||◌, Option, none, some, List, [], ◌∷◌,
  arith, any, Text, Bool-cases, text_eq, text_eq_iff, BTreeMap, lookup, lookup-insert, keys, member,
  insert_key, member-insert_key,
}
use git_slop.Overlays.Clusters.{
  Relationship, Graph, or_default, add_neighbor, add_pair, add_relationships, no_graph,
}

-- The relationship has the two paths as its ends.
abbrev pub joins_ends : Option Text → Option Text → Text → Text → Bool
joins_ends none target a b = false
joins_ends (some source) none a b = false
joins_ends (some source) (some target) a b =
    (text_eq source a && text_eq target b) || (text_eq target a && text_eq source b)

abbrev pub links : List Relationship → Text → Text → Bool
links rs a b = any (λ r. joins_ends r.source_path r.target_path a b) rs

-- The second path is reached from the first over relationships, each in either direction.
pub data Connected (rs : List Relationship) (a : Text) : Text → Type 0 where
  here : Connected rs a a
  next : {b c : Text} → Connected rs a b → links rs b c ≡ true → Connected rs a c

pub Connected-trans :
    {rs : List Relationship} {a b c : Text} → Connected rs a b → Connected rs b c → Connected rs a c
Connected-trans p Connected.here = p
Connected-trans p (Connected.next q link) = Connected.next (Connected-trans p q) link

joins_ends-sym : (s t : Option Text) (a b : Text) → joins_ends s t a b ≡ joins_ends s t b a
joins_ends-sym none t a b = refl
joins_ends-sym (some source) none a b = refl
joins_ends-sym (some source) (some target) a b = ground arith

pub links-sym : (rs : List Relationship) (a b : Text) → links rs a b ≡ links rs b a
links-sym [] a b = refl
links-sym (r ∷ rs) a b =
    ground (arith, joins_ends-sym r.source_path r.target_path a b, links-sym rs a b)

pub Connected-sym : {rs : List Relationship} {a b : Text} → Connected rs a b → Connected rs b a
Connected-sym Connected.here = Connected.here
Connected-sym {rs} (Connected.next {b} {c} q link) =
    Connected-trans (Connected.next Connected.here (links-sym rs c b ∙ link)) (Connected-sym q)

abbrev pub neighbors : BTreeMap (List Text) → Text → List Text
neighbors adjacency path = or_default (lookup path adjacency)

member-add_neighbor :
    (p n a b : Text) (adjacency : BTreeMap (List Text))
    → member b (neighbors (add_neighbor p n adjacency) a)
      ≡ (member b (neighbors adjacency a) || (text_eq p a && text_eq n b))
member-add_neighbor p n a b adjacency = elim (Bool-cases (text_eq p a)) [
  | inl same ↦
      let path = (text_eq_iff p a).0 same in
      rw (lookup-insert p a (insert_key n (neighbors adjacency p)) adjacency, same)
        (rw (member-insert_key n b (neighbors adjacency p), path) (ground arith))
  | inr other ↦
      rw (lookup-insert p a (insert_key n (neighbors adjacency p)) adjacency, other) (ground arith)
]

member-add_pair :
    (s t i : Option Text) (g : Graph) (a b : Text)
    → member b (neighbors ((add_pair s t i g).adjacency) a)
      ≡ (member b (neighbors g.adjacency a) || joins_ends s t a b)
unfolding add_pair
member-add_pair none t i g a b = ground arith
member-add_pair (some source) none i g a b = ground arith
member-add_pair (some source) (some target) i g a b =
    member-add_neighbor target source a b (add_neighbor source target g.adjacency)
    ∙ ground (arith, member-add_neighbor source target a b g.adjacency)

member-add_relationships :
    (rs : List Relationship) (g : Graph) (a b : Text)
    → member b (neighbors ((add_relationships rs g).adjacency) a)
      ≡ (member b (neighbors g.adjacency a) || links rs a b)
unfolding add_relationships
member-add_relationships [] g a b = ground arith
member-add_relationships (r ∷ rs) g a b =
    member-add_relationships rs (add_pair r.source_path r.target_path r.id g) a b
    ∙ ground (arith, member-add_pair r.source_path r.target_path r.id g a b)

-- The neighbours of a path are those that a relationship links to it.
pub neighbors_lem :
    (rs : List Relationship) (a b : Text)
    → member b (neighbors ((add_relationships rs no_graph).adjacency) a) ≡ links rs a b
unfolding member lookup
neighbors_lem rs a b = member-add_relationships rs no_graph a b

member-keys : (m : BTreeMap (List Text)) (a : Text) → lookup a m ≢ none → member a (keys m) ≡ true
unfolding lookup keys member
member-keys [] a h = elim (h refl) [ ]
member-keys ((j, s) ∷ m) a h = elim (Bool-cases (text_eq j a)) [
  | inl same ↦ rw same refl
  | inr other ↦ rw other (member-keys m a (λ empty. h (rw other empty)))
]

-- A path that is linked is a key.
pub links-member-keys :
    (rs : List Relationship) (a b : Text)
    → links rs a b ≡ true
    → member a (keys ((add_relationships rs no_graph).adjacency)) ≡ true
unfolding member
links-member-keys rs a b h =
    member-keys ((add_relationships rs no_graph).adjacency) a
      (λ missing. cc (neighbors_lem rs a b ∙ h))
