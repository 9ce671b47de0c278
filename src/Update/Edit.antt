-- ===== src/Update/Edit.antt =====
-- The request of an update, trimmed and checked before the database is read.
use Prim.Native.String.{len}
use taskboard.Board.Settings.{Settings}
use taskboard.Checklist.{bad_label}
use taskboard.Common.{
  Bool, Option, Result, String, any, err, false, if◌then◌else◌, is_none, length, ltb, map, nat_eq,
  none, not, ok, or_else, refuse_if, some, string_eq, suc, true, validation, ℕ, ◌&&◌, ◌==◌, ◌>>=◌,
  ◌>>◌, ◌||◌,
}
use taskboard.Model.{
  Priority, TaskStatus, TaskType, UpdateRequest, Visibility, control_kind_eq, control_status_eq,
  escalation_eq, is_priority, is_task_status, is_task_type, is_task_visibility, item_eq,
  normalized_priority, read_task_type, read_visibility, status_eq, visibility_eq,
}
use taskboard.Text.{normalized_recurrence, normalized_section, trim_space}

-- A request with its texts trimmed, and its type, lane and priority read.
pub record Edit : Type 0 where
  pub request : UpdateRequest
  pub task_type : Option TaskType
  pub visibility : Option Visibility
  pub priority : Option Priority

abbrev pub when_set {ℓ} : {A : Type ℓ} → (A → Bool) → Option A → Bool
when_set p none = false
when_set p (some a) = p a

abbrev mapped {ℓ κ} : {A : Type ℓ} {B : Type κ} → (A → B) → Option A → Option B
mapped f none = none
mapped f (some a) = some (f a)

-- A link to a kept task cancels the task.
mark_duplicate : UpdateRequest → String → Result UpdateRequest
mark_duplicate r value =
    let status = if r.status == TaskStatus.unset then TaskStatus.cancelled else r.status in
    if value == ""
    then ok (record r { duplicate_of = some "" })
    else if status == TaskStatus.cancelled
    then ok (record r { duplicate_of = some value; status = status })
    else err validation

read_duplicate : UpdateRequest → Option String → Result UpdateRequest
unfolding mark_duplicate
read_duplicate r none = ok r
read_duplicate r (some value) = mark_duplicate r (trim_space value)

-- utf8.RuneCountInString
runes : String → ℕ
runes String.[] = 0
runes (String.◌∷◌ c s) = suc (runes s)

abbrev max_status_note_runes : ℕ
max_status_note_runes = 300

long_note : Option String → Bool
unfolding runes
long_note note = when_set (λ s. ltb max_status_note_runes (runes (trim_space s))) note

-- validateStatusNotes
validate_status_notes : UpdateRequest → Result (Unit {0})
unfolding long_note
validate_status_notes r = do
  refuse_if (long_note r.current_note) validation
  refuse_if (long_note r.blocker) validation
  refuse_if (long_note r.waiting_for) validation

blank : Option String → Bool
blank none = true
blank (some value) = trim_space value == ""

-- normalizedDeferUntil
unfoldable pub normalized_defer_until : Settings → String → String
normalized_defer_until settings value =
    or_else (settings.normalize_defer_until (trim_space value)) (trim_space value)

-- validatePlanning
unfoldable pub validate_planning :
    Settings → Priority → String → String → String → Result (Unit {0})
validate_planning settings priority due_date defer_until recurrence = do
  refuse_if (not (is_priority priority)) validation
  refuse_if (not (due_date == "") && not (settings.is_date due_date)) validation
  refuse_if (is_none (settings.normalize_defer_until defer_until)) validation
  refuse_if
      (not (recurrence == "")
        && not (recurrence == "daily")
        && not (recurrence == "weekly")
        && not (recurrence == "monthly"))
      validation

-- The texts of the request, trimmed and normalised.
trimmed : Settings → UpdateRequest → UpdateRequest
unfolding normalized_defer_until
trimmed settings r = record r {
  title = mapped trim_space r.title;
  summary = mapped trim_space r.summary;
  owner = mapped trim_space r.owner;
  section = mapped normalized_section r.section;
  project = mapped trim_space r.project;
  repository = mapped trim_space r.repository;
  due_date = mapped trim_space r.due_date;
  defer_until = mapped (λ s. normalized_defer_until settings (trim_space s)) r.defer_until;
  recurrence = mapped (λ s. normalized_recurrence (trim_space s)) r.recurrence;
  checklist = mapped (map trim_space) r.checklist;
}

-- The fixed type of the instance drops the type of the request.
asked_type : Settings → UpdateRequest → Option TaskType
asked_type settings r = elim settings.fixed_type [
  | TaskType.unset ↦ mapped read_task_type r.task_type
  | _ ↦ none
]

-- The limits on a trimmed request.
check_texts : UpdateRequest → Result (Unit {0})
check_texts r = do
  refuse_if (when_set (λ items. ltb 100 (length items) || any bad_label items) r.checklist)
      validation
  refuse_if (when_set (λ s. ltb 100 (len s)) r.owner) validation
  refuse_if (when_set (λ s. ltb 80 (len s)) r.section) validation
  refuse_if (when_set (λ s. s == "" || ltb 200 (len s)) r.title) validation
  refuse_if
      (when_set (λ s. ltb 2000 (len s)) r.summary
        || when_set (λ s. ltb 120 (len s)) r.project
        || when_set (λ s. ltb 300 (len s)) r.repository)
      validation

-- The checks on what a status needs, and on the lists of items.
check_status : UpdateRequest → Result (Unit {0})
unfolding blank
check_status r = do
  refuse_if (not (r.status == TaskStatus.unset) && not (is_task_status r.status)) validation
  refuse_if (r.status == TaskStatus.blocked && blank r.blocker) validation
  refuse_if (r.status == TaskStatus.waiting && blank r.waiting_for) validation
  refuse_if (ltb 0 (length r.skip_item_ids) && trim_space r.skip_reason == "") validation
  refuse_if (ltb 50 (length r.add_items)) validation

-- Update, up to the start of its transaction. Every refusal here is a validation error, so the
-- order of the checks does not show.
unfoldable pub edit_of : Settings → UpdateRequest → Result Edit
unfolding read_duplicate validate_status_notes validate_planning trimmed asked_type check_texts
    check_status
edit_of settings request = do
  r ← read_duplicate request request.duplicate_of
  validate_status_notes r
  check_status r
  let task_type = asked_type settings r
  let visibility = mapped read_visibility r.visibility
  let priority = mapped normalized_priority r.priority
  refuse_if (when_set (λ t. not (is_task_type t)) task_type) validation
  refuse_if (when_set (λ v. not (is_task_visibility v)) visibility) validation
  let r' = trimmed settings r
  check_texts r'
  validate_planning settings (or_else priority Priority.normal) (or_else r'.due_date "")
      (or_else r'.defer_until "") (or_else r'.recurrence "")
  ok (record { request = r'; task_type = task_type; visibility = visibility; priority = priority })
