-- ===== src/Dependencies/Samples.antt =====
-- The theorems on dependencies at work on a small board.
use taskboard.Access.{can_mutate, can_view}
use taskboard.Access.Principals.{can, human_principal}
use taskboard.Board.Queries.{
  TaskView, get_task, insert_event, list_dependencies, list_items, list_requirements, list_runs,
  load_task,
}
use taskboard.Board.Settings.{defer_active}
use taskboard.Claim.{get_for}
use taskboard.Common.{List, String, [], ok, order_by, refl, true, ◌↔◌, ◌∷◌, ◌≡◌}
use taskboard.Dependencies.{add_task_dependency_for, chain, close, write_dependency}
use taskboard.Dependencies.Acyclic.{DependencyCall, DependencyCall-IsAcyclic, IsAcyclic}
use taskboard.Dependencies.Chain.{Blocks, chain-Blocks}
use taskboard.Fixtures.{ann, board, call, settings, task}
use taskboard.Model.{Board, Dependency}
use taskboard.Text.{contains, trim_space}

abbrev row : String → String → Dependency
row task_id blocked_by = record {
  task_id = task_id;
  blocked_by = blocked_by;
  created_by = "ann";
  created_at = 0;
}

abbrev two_rows : List Dependency
two_rows = row "t1" "t2" ∷ row "t2" "t3" ∷ []

tests_chain :
    (chain two_rows "t1" ≡ "t2" ∷ "t3" ∷ [])
    × (chain two_rows "t3" ≡ [])
    × (chain (row "t3" "t1" ∷ two_rows) "t1" ≡ "t2" ∷ "t3" ∷ "t1" ∷ [])
unfolding chain close contains
tests_chain = (refl, refl, refl)

chain-Blocks_example : (contains "t3" (chain two_rows "t1") ≡ true) ↔ Blocks two_rows "t1" "t3"
chain-Blocks_example = chain-Blocks two_rows "t1" "t3"

abbrev two_tasks : Board
two_tasks = record board { tasks = task ∷ record task { id = "t2" } ∷ [] }

sample_added :
    (p : Board × TaskView) × (add_task_dependency_for settings call two_tasks "t1" "t2" 1 ann
      ≡ ok p)
unfolding add_task_dependency_for write_dependency chain close contains get_for get_task load_task
    can can_view can_mutate human_principal trim_space insert_event list_items list_runs
    list_dependencies list_requirements defer_active order_by
sample_added = (_, refl)

none_blocked : IsAcyclic two_tasks.dependencies
unfolding IsAcyclic
none_blocked x (Blocks.direct d m from to) = m
none_blocked x (Blocks.further walk d m from to) = m

DependencyCall-IsAcyclic_example : IsAcyclic sample_added.0.0.dependencies
DependencyCall-IsAcyclic_example =
    DependencyCall-IsAcyclic two_tasks sample_added.0.0
      (DependencyCall.added settings call "t1" "t2" 1 ann sample_added.0.1 sample_added.1)
      none_blocked
