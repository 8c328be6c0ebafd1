-- ===== src/Examples/Overlays.antt =====
-- `build_clusters` on two chains of duplicates and a file that is its own.
use git_slop.Base.{
  ℕ, ◌≡◌, refl, Option, some, none, List, [], ◌∷◌, map, Text, codes, text_eq, text_lt, lookup,
  insert, keys, member, insert_key, sort_by, insert_by, split, split_from, trim_start, trim_end,
}
use git_slop.Overlays.Common.{top_level_root, stable_id}
use git_slop.Overlays.Clusters.{
  Relationship, Clusters, DuplicateSet, build_clusters, insert_pair, visit_reversed, traverse,
}
use git_slop.Overlays.Partition.{IsPartition, build_clusters-IsPartition}

abbrev duplicate : Text → Text → Relationship
duplicate a b = record { source_path = some a; target_path = some b; id = some (codes "r") }

abbrev relationships : List Relationship
relationships =
    duplicate (codes "b/x") (codes "a/y")
    ∷ duplicate (codes "b/x") (codes "c")
    ∷ duplicate (codes "d") (codes "d")
    ∷ record { source_path = some (codes "e"); target_path = none; id = none }
    ∷ duplicate (codes "f") (codes "g")
    ∷ []

abbrev bytes : Text → List ℕ
bytes s = 1 ∷ 35 ∷ 69 ∷ 103 ∷ 137 ∷ 171 ∷ 205 ∷ []

abbrev paths_of : Option Clusters → List (List Text)
paths_of none = []
paths_of (some c) = map (λ (s : DuplicateSet). s.member_paths) c.duplicate_sets

abbrev ids_of : Option Clusters → List Text
ids_of none = []
ids_of (some c) = map (λ (s : DuplicateSet). s.id) c.duplicate_sets

found_sets :
    paths_of (build_clusters bytes relationships)
    ≡ (codes "a/y" ∷ codes "b/x" ∷ codes "c" ∷ []) ∷ (codes "f" ∷ codes "g" ∷ []) ∷ []
unfolding build_clusters insert_pair visit_reversed traverse text_eq text_lt lookup insert keys
    member insert_key sort_by insert_by split split_from trim_start trim_end
found_sets = refl

roots_trimmed : top_level_root (codes "//src/main.rs") ≡ codes "src"
unfolding top_level_root split split_from trim_start trim_end
roots_trimmed = refl

id_is_hex : stable_id bytes (codes "k") [] ≡ codes "k-0123456789ab"
unfolding stable_id
id_is_hex = refl

build_clusters-IsPartition_example :
    (c : Clusters) × (build_clusters bytes relationships ≡ some c) × IsPartition relationships c
build_clusters-IsPartition_example = build_clusters-IsPartition bytes relationships
