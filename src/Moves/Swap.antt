-- ===== src/Moves/Swap.antt =====
-- The two rows that `Move` writes.
use taskboard.Board.Queries.{get_task, insert_event, load_task}
use taskboard.Board.Settings.{Call, Settings}
use taskboard.Board.Writes.{load_task-found, load_task-intro}
use taskboard.Common.{
  >>=-eq-ok, Bool, Bool-cases, In, In-update, Option-cases, String, ap, arith, eq_iff, false, find,
  find-update, find-update_other, inl, inr, length, length-update, ltb, nat_beq_iff, nat_eq, not,
  ok, ok_injective, refl, refuse_if-eq-ok, some, string_eq, subst, sym, true, update, validation, ℕ,
  ◌&&◌, ◌+◌, ◌==◌, ◌||◌, ◌∙◌, ◌≡◌, ◌≢◌, ◌⊎◌,
}
use taskboard.Controls.{one_row}
use taskboard.Controls.Complete.{versioned}
use taskboard.Controls.Completed.{load_task-named}
use taskboard.Controls.Frame.{one_row-eq-ok}
use taskboard.Model.{
  Board, Task, TaskStatus, control_kind_eq, control_status_eq, escalation_eq, item_eq, message_eq,
  status_beq_iff, status_eq, visibility_eq,
}
use taskboard.Moves.{
  MoveRequest, at_order, is_terminal_row, move_task, moved_row, neighbour, swap_with,
}
use taskboard.Moves.Nearest.{
  Candidate, IsNear, may_swap-Candidate, may_swap-Candidate_intro, neighbour-nearest,
  neighbour-none,
}
use taskboard.Stamp.{Time}
use taskboard.Text.{to_lower, trim_space}

-- A move with a neighbour.
pub record Swapped (b : Board) (current other : Task) (down : Bool) (now : Time) (b' : Board)
    : Type 0 where
  pub stored : In other b.tasks
  pub candidate : Candidate down current other
  pub nearest :
      (t : Task) → In t b.tasks → Candidate down current t → (t ≡ other) ⊎ IsNear down other t
  pub placed : In (record other { sort_order = current.sort_order; updated_at = now }) b'.tasks
  pub moved :
      load_task b' current.id
      ≡ ok (record current {
        sort_order = other.sort_order;
        version = current.version + 1;
        updated_at = now;
      })
  pub rest : length b'.tasks ≡ length b.tasks

-- No task to change places with.
pub record Unmoved (b : Board) (current : Task) (down : Bool) (b' : Board) : Type 0 where
  pub same : b' ≡ b
  pub alone : (t : Task) → In t b.tasks → ¬ Candidate down current t

-- The task of the move stays where a search by its identifier finds it.
swap_with-Swapped :
    (settings : Settings) (call : Call) (b b' : Board) (current other : Task) (down : Bool)
    (expected : ℕ) (actor : String) (task : Task)
    → load_task b current.id ≡ ok current
    → current.version ≡ expected
    → neighbour down b.tasks current ≡ some other
    → swap_with settings call b current down expected actor (some other) ≡ ok (b', task)
    → Swapped b current other down call.now b'
unfolding swap_with insert_event
swap_with-Swapped settings call b b' current other down expected actor task loaded version near h =
    let (stored, may, nearest) = neighbour-nearest down b.tasks current other near in
    let hit_other = λ (t : Task). t.id == other.id in
    let put_other = at_order current.sort_order call.now in
    let placed = update hit_other put_other b.tasks in
    let here = versioned current.id expected in
    let change = moved_row other.sort_order call.now in
    let mine = λ (t : Task). t.id == current.id in
    let (tasks, one, h1) = >>=-eq-ok (one_row here change placed) _ h in
    let (view, seen, h2) = >>=-eq-ok (get_task settings call _ current.id) _ h1 in
    let rows : b'.tasks ≡ update here change placed =
      sym (ap (λ (p : Board × Task). p.0.tasks) (ok_injective h2))
      ∙ (one_row-eq-ok here change placed tasks one).1 in
    let apart : (other.id == current.id) ≡ false = ground (arith, may) in
    let found_current = load_task-found b current.id current loaded in
    let kept : find mine placed ≡ some current =
      find-update_other hit_other mine put_other b.tasks (λ t k. (
        ground (
          arith,
          k,
          apart,
          eq_iff t.id other.id,
          eq_iff t.id current.id,
          eq_iff other.id current.id,
        ),
        refl,
      ))
      ∙ found_current in
    let hit : here current ≡ true =
      ground (arith, version, nat_beq_iff current.version expected, eq_iff current.id current.id) in
    let other_hit : hit_other other ≡ true = (eq_iff other.id other.id).1 refl in
    let put_in : In (put_other other) placed =
      subst (λ x. In x placed) (rw other_hit refl)
        (In-update hit_other put_other other b.tasks stored) in
    let missed : here (put_other other) ≡ false = ground (arith, apart) in
    record {
      stored = stored;
      candidate = may_swap-Candidate down current other may;
      nearest = λ t m c. nearest t m (may_swap-Candidate_intro down current t c);
      placed =
          subst (λ ts. In (put_other other) ts) (sym rows)
            (subst (λ x. In x (update here change placed)) (rw missed refl)
              (In-update here change (put_other other) placed put_in));
      moved = load_task-intro b' current.id (change current) (
          subst (λ ts. find mine ts ≡ some (change current)) (sym rows)
            (find-update here mine change placed current (λ t k. refl) kept ∙ ap some (rw hit)));
      rest =
          ap length rows
          ∙ length-update here change placed
          ∙ length-update hit_other put_other b.tasks;
    }

swap_with-outcome :
    (settings : Settings) (call : Call) (b b' : Board) (current : Task) (down : Bool) (expected : ℕ)
    (actor : String) (task : Task)
    → load_task b current.id ≡ ok current
    → current.version ≡ expected
    → swap_with settings call b current down expected actor (neighbour down b.tasks current)
      ≡ ok (b', task)
    → Unmoved b current down b' ⊎ ((other : Task) × Swapped b current other down call.now b')
unfolding swap_with
swap_with-outcome settings call b b' current down expected actor task loaded version h =
    elim (Option-cases (neighbour down b.tasks current)) [
      | inl alone ↦
          let go = rw alone at h in
          inl (record {
            same = sym (ap (λ (p : Board × Task). p.0) (ok_injective go));
            alone = λ t m. neighbour-none down b.tasks current t alone m;
          })
      | inr (other, near) ↦
          let go : swap_with settings call b current down expected actor (some other)
              ≡ ok (b', task) =
            subst (λ o. swap_with settings call b current down expected actor o ≡ ok (b', task))
              near h in
          inr (
            other,
            swap_with-Swapped settings call b b' current other down expected actor task loaded
                version near go,
          )
    ]

-- A move succeeds only on a task that is not terminal, at the expected version, in the direction
-- down or up. Either no other open task of its section lies on that side, by its place, and the
-- board stays unchanged, or the task exchanges places with the nearest such task: the neighbour
-- takes the place of the task, the task takes that of the neighbour with the next version, and the
-- number of tasks stays.
pub move_task-Swapped :
    (settings : Settings) (call : Call) (b b' : Board) (id : String) (request : MoveRequest)
    (actor : String) (task : Task)
    → move_task settings call b id request actor ≡ ok (b', task)
    → (current : Task) × (load_task b (trim_space id) ≡ ok current)
      × (current.version ≡ request.expected_version)
      × (current.status ≢ TaskStatus.done)
      × (current.status ≢ TaskStatus.cancelled)
      × (((to_lower (trim_space request.direction) ≡ "down")
            × (Unmoved b current true b'
                ⊎ ((other : Task) × Swapped b current other true call.now b')))
          ⊎ ((to_lower (trim_space request.direction) ≡ "up")
              × (Unmoved b current false b'
                  ⊎ ((other : Task) × Swapped b current other false call.now b'))))
unfolding move_task
move_task-Swapped settings call b b' id request actor task h =
    let task_id = trim_space id in
    let direction = to_lower (trim_space request.direction) in
    let expected = request.expected_version in
    let (c0, h1) =
      refuse_if-eq-ok
        (task_id == "" || ltb expected 1 || not (direction == "up") && not (direction == "down"))
        validation _ h in
    let (current, loaded, h2) = >>=-eq-ok (load_task b task_id) _ h1 in
    let (same, h3) = refuse_if-eq-ok (not (current.version == expected)) _ _ h2 in
    let (c1, h4) = refuse_if-eq-ok (is_terminal_row current) validation _ h3 in
    let version : current.version ≡ expected = ground (arith, same) in
    let named = load_task-named b task_id current loaded in
    let loaded_here = subst (λ i. load_task b i ≡ ok current) (sym named) loaded in
    let outcome = swap_with-outcome settings call b b' current in
    (
      current,
      loaded,
      version,
      λ e. ground (arith, c1, (status_beq_iff current.status TaskStatus.done).1 e),
      λ e. ground (arith, c1, (status_beq_iff current.status TaskStatus.cancelled).1 e),
      elim (Bool-cases (direction == "down")) [
        | inl down ↦ inl (
          (eq_iff direction "down").0 down,
          outcome true expected actor task loaded_here version (let go = rw down at h4 in go),
        )
        | inr up ↦ inr (
          (eq_iff direction "up").0 (ground (arith, c0, up)),
          outcome false expected actor task loaded_here version (let go = rw up at h4 in go),
        )
      ],
    )
