-- ===== src/Moves/Samples.antt =====
-- The theorem on moves at work on a small board.
use taskboard.Board.Queries.{
  get_task, insert_event, list_dependencies, list_items, list_requirements, list_runs, load_task,
}
use taskboard.Board.Settings.{defer_active}
use taskboard.Common.{[], false, ok, order_by, refl, true, ◌*◌, ◌∷◌, ◌≡◌, ◌≢◌, ◌⊎◌}
use taskboard.Fixtures.{task, board, call, settings}
use taskboard.Model.{Board, Task, TaskStatus}
use taskboard.Moves.{MoveRequest, move_task, swap_with}
use taskboard.Moves.Swap.{Swapped, Unmoved, move_task-Swapped}
use taskboard.Stamp.{minute, stamp_before}
use taskboard.Text.{default_actor, to_lower, trim_space}

abbrev three_tasks : Board
three_tasks = record board {
  tasks =
      record task { sort_order = 1024 }
      ∷ record task { id = "t2"; sort_order = 2048 }
      ∷ record task { id = "t3"; sort_order = 3072 }
      ∷ [];
}

abbrev up_request : MoveRequest
up_request = record { direction = "Up"; expected_version = 1 }

sample_moved :
    (p : Board × Task) × (move_task settings call three_tasks "t3" up_request "ann" ≡ ok p)
unfolding move_task swap_with load_task to_lower trim_space order_by stamp_before default_actor
    insert_event get_task list_items list_runs list_dependencies list_requirements defer_active
sample_moved = (_, refl)

move_task-Swapped_example :
    (current : Task) × (load_task three_tasks (trim_space "t3") ≡ ok current)
    × (current.version ≡ 1)
    × (current.status ≢ TaskStatus.done)
    × (current.status ≢ TaskStatus.cancelled)
    × (((to_lower (trim_space "Up") ≡ "down")
          × (Unmoved three_tasks current true sample_moved.0.0
              ⊎ ((other : Task) × Swapped three_tasks current other true
                    (100 * minute)
                    sample_moved.0.0)))
        ⊎ ((to_lower (trim_space "Up") ≡ "up")
            × (Unmoved three_tasks current false sample_moved.0.0
                ⊎ ((other : Task) × Swapped three_tasks current other false
                      (100 * minute)
                      sample_moved.0.0))))
move_task-Swapped_example =
    move_task-Swapped settings call three_tasks sample_moved.0.0 "t3" up_request "ann"
      sample_moved.0.1 sample_moved.1
