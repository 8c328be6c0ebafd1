-- ===== src/Compare/Queue.antt =====
-- src/report_ops/compare/delta.rs: the movement of the action queue between two reports.
use git_slop.Base.{
  ℕ, ◌+◌, Bool, ◌&&◌, ◌||◌, Option, none, some, List, [], ◌∷◌, ◌==◌, ltb, if◌then◌else◌, Text,
  text_lt, BTreeMap, lookup, insert, keys, ℤ, pos, ◌-ℤ◌, sort_by,
}
use git_slop.Compare.Model.{union_keys}

-- The items of the queue stand as their paths, `none` where an item has none. An item's index is
-- counted from one, and a path keeps its first.
unfoldable pub queue_loop : ℕ → BTreeMap ℕ → List (Option Text) → BTreeMap ℕ
queue_loop index positions [] = positions
queue_loop index positions (none ∷ items) = queue_loop (index + 1) positions items
queue_loop index positions (some path ∷ items) =
    queue_loop (index + 1)
      (elim (lookup path positions) [
        | none ↦ insert path (index + 1) positions
        | some first ↦ positions
      ])
      items

unfoldable pub queue_positions : List (Option Text) → BTreeMap ℕ
unfolding queue_loop
queue_positions action_queue = queue_loop 0 [] action_queue

pub data MovementStatus : Type 0 where
  newly_queued moved_up moved_down dropped_from_queue unchanged_position : MovementStatus

pub record Movement : Type 0 where
  pub path : Text
  pub status : MovementStatus
  pub base_position : Option ℕ
  pub head_position : Option ℕ
  pub position_delta : Option ℤ

unfoldable pub movement_status : Option ℕ → Option ℕ → MovementStatus × Option ℤ
movement_status none (some head) = (MovementStatus.newly_queued, none)
movement_status (some base) none = (MovementStatus.dropped_from_queue, none)
movement_status (some base) (some head) =
    if ltb head base
    then (MovementStatus.moved_up, some (pos head -ℤ pos base))
    else if ltb base head
    then (MovementStatus.moved_down, some (pos head -ℤ pos base))
    else (MovementStatus.unchanged_position, some (pos 0))
movement_status none none = (MovementStatus.unchanged_position, some (pos 0))

unfoldable pub movement_of : BTreeMap ℕ → BTreeMap ℕ → Text → Movement
unfolding movement_status
movement_of base head path =
    let status = movement_status (lookup path base) (lookup path head) in
    record {
      path = path;
      status = status.0;
      base_position = lookup path base;
      head_position = lookup path head;
      position_delta = status.1;
    }

abbrev pub status_rank : MovementStatus → ℕ
status_rank MovementStatus.newly_queued = 0
status_rank MovementStatus.moved_up = 1
status_rank MovementStatus.moved_down = 2
status_rank MovementStatus.dropped_from_queue = 3
status_rank MovementStatus.unchanged_position = 4

abbrev pub sort_position : Option ℕ → Option ℕ → ℕ
sort_position (some head) base = head
sort_position none (some base) = base
sort_position none none = 10000

abbrev pub position_of : Movement → ℕ
position_of m = sort_position m.head_position m.base_position

unfoldable pub movement_before : Movement → Movement → Bool
movement_before a b =
    ltb (status_rank a.status) (status_rank b.status)
    || (status_rank a.status == status_rank b.status
        && (ltb (position_of a) (position_of b)
            || (position_of a == position_of b && text_lt a.path b.path)))

unfoldable pub movements : BTreeMap ℕ → BTreeMap ℕ → List Text → List Movement
unfolding movement_of
movements base head [] = []
movements base head (path ∷ paths) = movement_of base head path ∷ movements base head paths

unfoldable pub build_queue_movement : List (Option Text) → List (Option Text) → List Movement
unfolding queue_positions union_keys movements movement_before
build_queue_movement base head =
    let base_positions = queue_positions base in
    let head_positions = queue_positions head in
    sort_by movement_before (
      movements base_positions head_positions
        (union_keys (keys base_positions) (keys head_positions)))
