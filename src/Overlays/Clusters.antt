-- ===== src/Overlays/Clusters.antt =====
-- src/overlays/clusters.rs: `build_clusters`, the sets of files that duplicates join. The traversal
-- runs on fuel, a number of pops. A relationship has its fields where they are strings. The two
-- sections that are always empty are left out.
use git_slop.Base.{
  ℕ, zero, suc, ◌*◌, Bool, ◌&&◌, ◌||◌, Option, none, some, List, [], ◌∷◌, ◌++◌, ltb, ◌==◌,
  if◌then◌else◌, length, Text, codes, text_eq, text_lt, BTreeMap, lookup, insert, keys, member,
  insert_key, sort_by,
}
use Prim.Native.Nat.{min}
use git_slop.Overlays.Common.{analysis_version, stable_id, top_level_root}

pub record Relationship : Type 0 where
  pub source_path : Option Text
  pub target_path : Option Text
  pub id : Option Text

abbrev pub Pair : Type 0
Pair = Text × Text

pub record Graph : Type 0 where
  pub adjacency : BTreeMap (List Text)
  pub relation_by_pair : List (Pair × Text)

-- `unwrap_or_default`.
abbrev pub id_or_default : Option Text → Text
id_or_default none = []
id_or_default (some s) = s

-- `entry(..).or_default()`.
abbrev pub or_default : Option (List Text) → List Text
or_default none = []
or_default (some s) = s

abbrev pub add_neighbor : Text → Text → BTreeMap (List Text) → BTreeMap (List Text)
add_neighbor path neighbor adjacency =
    insert path (insert_key neighbor (or_default (lookup path adjacency))) adjacency

abbrev pub pair_eq : Pair → Pair → Bool
pair_eq (a, b) (c, d) = text_eq a c && text_eq b d

abbrev pub pair_lt : Pair → Pair → Bool
pair_lt (a, b) (c, d) = text_lt a c || (text_eq a c && text_lt b d)

unfoldable pub insert_pair : Pair → Text → List (Pair × Text) → List (Pair × Text)
insert_pair k v [] = (k, v) ∷ []
insert_pair k v ((j, w) ∷ m) =
    let rest = insert_pair k v m in
    if pair_eq j k then (k, v) ∷ m else if pair_lt k j then (k, v) ∷ (j, w) ∷ m else (j, w) ∷ rest

unfoldable pub add_pair : Option Text → Option Text → Option Text → Graph → Graph
add_pair none target id g = g
add_pair (some source) none id g = g
add_pair (some source) (some target) id g = record {
  adjacency = add_neighbor target source (add_neighbor source target g.adjacency);
  relation_by_pair = insert_pair (source, target) (id_or_default id) g.relation_by_pair;
}

unfoldable pub add_relationships : List Relationship → Graph → Graph
unfolding add_pair
add_relationships [] g = g
add_relationships (r ∷ rs) g = add_relationships rs (add_pair r.source_path r.target_path r.id g)

abbrev pub no_graph : Graph
no_graph = record { adjacency = []; relation_by_pair = [] }

-- The paths that were seen, and the stack from its top.
pub record Front : Type 0 where
  pub visited : List Text
  pub stack : List Text

abbrev pub visit : Front → Text → Front
visit front path =
    if member path front.visited
    then front
    else record { visited = insert_key path front.visited; stack = path ∷ front.stack }

-- The neighbours from the last to the first.
unfoldable pub visit_reversed : Front → List Text → Front
visit_reversed front [] = front
visit_reversed front (path ∷ paths) = visit (visit_reversed front paths) path

-- What is reached from the stack, and all that was seen by then.
unfoldable pub traverse :
    BTreeMap (List Text)
    → ℕ
    → List Text
    → (visited stack : List Text) → Option (List Text × List Text)
unfolding visit_reversed
traverse adjacency fuel members visited [] = some (members, visited)
traverse adjacency zero members visited (path ∷ stack) = none
traverse adjacency (suc fuel) members visited (path ∷ stack) =
    let next =
      visit_reversed (record { visited = visited; stack = stack })
        (or_default (lookup path adjacency)) in
    traverse adjacency fuel (members ++ path ∷ []) next.visited next.stack

pub record DuplicateSet : Type 0 where
  pub id : Text
  pub kind : Text
  pub candidate_type : Text
  pub member_count : ℕ
  pub member_paths : List Text
  pub top_level_roots : List Text
  pub evidence_score : ℕ
  pub source_relationship_ids : List Text

unfoldable pub relationships_within : List Text → List (Pair × Text) → List Text
relationships_within members [] = []
relationships_within members (((left, right), id) ∷ relations) =
    let rest = relationships_within members relations in
    if member left members && member right members then id ∷ rest else rest

unfoldable pub roots_of : List Text → List Text
unfolding top_level_root
roots_of [] = []
roots_of (path ∷ paths) = insert_key (top_level_root path) (roots_of paths)

-- A fifth for each relationship, one at most, in millionths.
abbrev pub evidence_score_of : ℕ → ℕ
evidence_score_of count = min (count * 200000) 1000000

unfoldable pub add_memberships : Text → List Text → BTreeMap (List Text) → BTreeMap (List Text)
add_memberships id [] memberships = memberships
add_memberships id (path ∷ paths) memberships =
    add_memberships id paths
      (insert path (or_default (lookup path memberships) ++ id ∷ []) memberships)

pub record Progress : Type 0 where
  pub visited : List Text
  pub duplicate_sets : List DuplicateSet
  pub memberships : BTreeMap (List Text)

abbrev pub sets_before : DuplicateSet → DuplicateSet → Bool
sets_before a b =
    ltb b.evidence_score a.evidence_score
    || (a.evidence_score == b.evidence_score && text_lt a.id b.id)

abbrev pub as_candidate : DuplicateSet → DuplicateSet
as_candidate s = record s { kind = codes "consolidation_candidate" }

unfoldable pub as_candidates : List DuplicateSet → List DuplicateSet
as_candidates [] = []
as_candidates (s ∷ sets) = as_candidate s ∷ as_candidates sets

pub record Clusters : Type 0 where
  pub analysis_status : Text
  pub version : ℕ
  pub duplicate_sets : List DuplicateSet
  pub consolidation_candidates : List DuplicateSet
  pub memberships : BTreeMap (List Text)

abbrev pub add_set : List Text → DuplicateSet → Progress → Progress
add_set visited set p = record {
  visited = visited;
  duplicate_sets = p.duplicate_sets ++ set ∷ [];
  memberships = add_memberships set.id set.member_paths p.memberships;
}

-- The digest of the identifiers is an argument.
module _ (digest : Text → List ℕ) where
  unfoldable pub duplicate_set : List (Pair × Text) → List Text → DuplicateSet
  unfolding stable_id relationships_within roots_of
  duplicate_set relations members =
      let ids = relationships_within members relations in
      record {
        id = stable_id digest (codes "duplicate_set") members;
        kind = codes "duplicate_set";
        candidate_type = codes "consolidate_duplicate_knowledge";
        member_count = length members;
        member_paths = members;
        top_level_roots = roots_of members;
        evidence_score = evidence_score_of (length ids);
        source_relationship_ids = ids;
      }

  -- One start of the loop, whose path was not seen before.
  unfoldable pub finish_start : Graph → Progress → Option (List Text × List Text) → Option Progress
  unfolding duplicate_set add_memberships
  finish_start g p none = none
  finish_start g p (some (members, visited)) =
      let sorted = sort_by text_lt members in
      if ltb (length sorted) 2
      then some (record p { visited = visited })
      else some (add_set visited (duplicate_set g.relation_by_pair sorted) p)

  unfoldable pub explore_start : ℕ → Graph → Text → Progress → Option Progress
  unfolding traverse finish_start
  explore_start fuel g start p =
      if member start p.visited
      then some p
      else finish_start g p (traverse g.adjacency fuel [] (insert_key start p.visited) (start ∷ []))

  unfoldable pub explore : ℕ → Graph → List Text → Option Progress → Option Progress
  unfolding explore_start
  explore fuel g starts none = none
  explore fuel g [] (some p) = some p
  explore fuel g (start ∷ starts) (some p) = explore fuel g starts (explore_start fuel g start p)

  unfoldable pub clusters_of : Option Progress → Option Clusters
  unfolding as_candidates
  clusters_of none = none
  clusters_of (some p) = some (record {
    analysis_status = codes "experimental";
    version = analysis_version;
    duplicate_sets = sort_by sets_before p.duplicate_sets;
    consolidation_candidates = sort_by sets_before (as_candidates p.duplicate_sets);
    memberships = p.memberships;
  })

  unfoldable pub build_clusters : List Relationship → Option Clusters
  unfolding add_relationships explore clusters_of keys
  build_clusters relationships =
      let g = add_relationships relationships no_graph in
      let starts = keys g.adjacency in
      clusters_of (
        explore (length starts) g starts
          (some (record { visited = []; duplicate_sets = []; memberships = [] })))
