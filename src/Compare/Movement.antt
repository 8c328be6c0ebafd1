-- ===== src/Compare/Movement.antt =====
-- The places of a path in two queues, and its movement.
use git_slop.Base.{
  ℕ, ◌+◌, ◌<◌, ◌≡◌, ◌↔◌, refl, ap, ◌∙◌, inl, inr, ◌||◌, Option, none, some, List, [], ◌∷◌, arith,
  ltb, if◌then◌else◌, Text, BTreeMap, lookup, insert, lookup-insert, keys, member, ℤ, pos, ◌-ℤ◌,
  All, All-sort_by, any, any-sort_by, text_eq, text_eq_iff, Option-cases, Bool-cases,
}
use git_slop.Compare.Model.{union_keys}
use git_slop.Compare.Delta.{is_known}
use git_slop.Compare.Coverage.{member-union_keys}
use git_slop.Compare.Queue.{
  queue_loop, queue_positions, MovementStatus, Movement, movement_status, movement_of,
  movement_before, movements, build_queue_movement,
}

-- Where a path first stands in the queue, counted on from the index.
abbrev pub first_place : ℕ → Text → List (Option Text) → Option ℕ
first_place index path [] = none
first_place index path (none ∷ items) = first_place (index + 1) path items
first_place index path (some p ∷ items) =
    let later = first_place (index + 1) path items in
    if text_eq p path then some (index + 1) else later

abbrev or_later : Option ℕ → Option ℕ → Option ℕ
or_later none later = later
or_later (some place) later = some place

lookup-queue_loop :
    (items : List (Option Text)) (index : ℕ) (positions : BTreeMap ℕ) (path : Text)
    → lookup path (queue_loop index positions items)
      ≡ or_later (lookup path positions) (first_place index path items)
unfolding queue_loop
lookup-queue_loop [] index positions path = ground arith
lookup-queue_loop (none ∷ items) index positions path =
    lookup-queue_loop items (index + 1) positions path
lookup-queue_loop (some p ∷ items) index positions path = elim (Option-cases (lookup p positions)) [
  | inl new ↦ rw new (
      lookup-queue_loop items (index + 1) (insert p (index + 1) positions) path
      ∙ ground (arith, lookup-insert p path (index + 1) positions, text_eq_iff p path))
  | inr (place, old) ↦
      rw old
        (lookup-queue_loop items (index + 1) positions path ∙ ground (arith, text_eq_iff p path))
]

lookup-queue_positions :
    (queue : List (Option Text)) (path : Text)
    → lookup path (queue_positions queue) ≡ first_place 0 path queue
unfolding queue_positions lookup
lookup-queue_positions queue path = lookup-queue_loop queue 0 [] path

member-keys : (path : Text) (m : BTreeMap ℕ) → member path (keys m) ≡ is_known (lookup path m)
unfolding member keys lookup
member-keys path [] = refl
member-keys path ((k, v) ∷ m) = ground (arith, member-keys path m)

-- The status and the shift are those of the two places.
abbrev IsStatusOf : Option ℕ → Option ℕ → MovementStatus × Option ℤ → Type 0
IsStatusOf none none (status, shift) = status ≡ MovementStatus.unchanged_position
IsStatusOf none (some h) (status, shift) = (status ≡ MovementStatus.newly_queued) × (shift ≡ none)
IsStatusOf (some b) none (status, shift) =
    (status ≡ MovementStatus.dropped_from_queue) × (shift ≡ none)
IsStatusOf (some b) (some h) (status, shift) =
    ((status ≡ MovementStatus.moved_up) ↔ (h < b))
    × ((status ≡ MovementStatus.moved_down) ↔ (b < h))
    × ((status ≡ MovementStatus.unchanged_position) ↔ (h ≡ b))
    × (shift ≡ some (pos h -ℤ pos b))

no_shift : (n : ℕ) → pos 0 ≡ (pos n -ℤ pos n)
unfolding ◌-ℤ◌
no_shift n = ground arith

shift_of : (b h : ℕ) → (movement_status (some b) (some h)).1 ≡ some (pos h -ℤ pos b)
unfolding movement_status
shift_of b h = elim (Bool-cases (ltb h b)) [
  | inl up ↦ rw up refl
  | inr not_up ↦ rw not_up (elim (Bool-cases (ltb b h)) [
    | inl down ↦ rw down refl
    | inr not_down ↦
        let same : b ≡ h = ground arith in
        rw not_down (ap some (no_shift b ∙ ap (λ n. pos n -ℤ pos b) same))
  ])
]

movement_status-IsStatusOf : (b h : Option ℕ) → IsStatusOf b h (movement_status b h)
unfolding movement_status
movement_status-IsStatusOf none none = refl
movement_status-IsStatusOf none (some h) = (refl, refl)
movement_status-IsStatusOf (some b) none = (refl, refl)
movement_status-IsStatusOf (some b) (some h) =
    (ground arith, ground arith, ground arith, shift_of b h)

-- What a movement says of the two queues: the first place of its path in each, and the status and
-- the shift of these.
abbrev pub IsMovement : List (Option Text) → List (Option Text) → Movement → Type 0
IsMovement base head m =
    (m.base_position ≡ first_place 0 m.path base)
    × (m.head_position ≡ first_place 0 m.path head)
    × IsStatusOf m.base_position m.head_position (m.status, m.position_delta)

module _ (base head : List (Option Text)) where
  movement_of-IsMovement :
      (path : Text)
      → IsMovement base head (movement_of (queue_positions base) (queue_positions head) path)
  unfolding movement_of
  movement_of-IsMovement path = (
    lookup-queue_positions base path,
    lookup-queue_positions head path,
    movement_status-IsStatusOf (lookup path (queue_positions base))
        (lookup path (queue_positions head)),
  )

  movements-IsMovement :
      (paths : List Text)
      → All (IsMovement base head) (movements (queue_positions base) (queue_positions head) paths)
  unfolding movements
  movements-IsMovement [] = tt
  movements-IsMovement (path ∷ paths) = (movement_of-IsMovement path, movements-IsMovement paths)

any-movements :
    (base head : BTreeMap ℕ) (path : Text) (paths : List Text)
    → any (λ m. text_eq m.path path) (movements base head paths) ≡ member path paths
unfolding movements member
any-movements base head path [] = refl
any-movements base head path (p ∷ paths) = ground (arith, any-movements base head path paths)

is_known-first_place :
    (queue : List (Option Text)) (path : Text)
    → member path (keys (queue_positions queue)) ≡ is_known (first_place 0 path queue)
is_known-first_place queue path =
    member-keys path (queue_positions queue) ∙ ap is_known (lookup-queue_positions queue path)

-- The movement of the queue has every path that stands in either queue, and no other; and each
-- movement gives the first places of its path, the status that follows from their order, and, where
-- there are two, the difference of the places.
pub build_queue_movement_lem :
    (base head : List (Option Text))
    → ((path : Text)
        → any (λ m. text_eq m.path path) (build_queue_movement base head)
          ≡ (is_known (first_place 0 path base) || is_known (first_place 0 path head)))
      × All (IsMovement base head) (build_queue_movement base head)
unfolding build_queue_movement
build_queue_movement_lem base head =
    let paths = union_keys (keys (queue_positions base)) (keys (queue_positions head)) in
    let all = movements (queue_positions base) (queue_positions head) paths in
    (
      (λ path.
          any-sort_by movement_before (λ m. text_eq m.path path) all
          ∙ any-movements (queue_positions base) (queue_positions head) path paths
          ∙ member-union_keys path (keys (queue_positions base)) (keys (queue_positions head))
          ∙ rw (is_known-first_place base path, is_known-first_place head path) refl),
      All-sort_by movement_before (IsMovement base head) all (movements-IsMovement base head paths),
    )
