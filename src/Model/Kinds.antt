-- ===== src/Model/Kinds.antt =====
-- The string types of internal/model/model.go. `unset` is the empty string and `unknown` is any
-- string that is no constant of the type.
use taskboard.Common.{
  Bool, Eq, String, arith, false, if◌then◌else◌, nat_eq, string_eq, true, ℕ, ◌==◌, ◌↔◌, ◌≡◌,
}
use taskboard.Text.{to_lower, trim_space}

pub data TaskStatus : Type 0 where
  queued active waiting blocked stale done cancelled unset unknown : TaskStatus

pub data ItemStatus : Type 0 where
  todo active done skipped : ItemStatus

pub data TaskType : Type 0 where
  personal work unset unknown : TaskType

pub data Visibility : Type 0 where
  private team agent unset unknown : Visibility

pub data Priority : Type 0 where
  low normal high urgent unset unknown : Priority

abbrev status_code : TaskStatus → ℕ
status_code TaskStatus.queued = 0
status_code TaskStatus.active = 1
status_code TaskStatus.waiting = 2
status_code TaskStatus.blocked = 3
status_code TaskStatus.stale = 4
status_code TaskStatus.done = 5
status_code TaskStatus.cancelled = 6
status_code TaskStatus.unset = 7
status_code TaskStatus.unknown = 8

abbrev status_beq : TaskStatus → TaskStatus → Bool
status_beq a b = status_code a == status_code b

pub status_beq_iff : (a b : TaskStatus) → (status_beq a b ≡ true) ↔ (a ≡ b)
status_beq_iff a b = ground arith

instance abbrev pub status_eq : Eq TaskStatus
status_eq = record { same = status_beq; same_iff = status_beq_iff }

abbrev item_code : ItemStatus → ℕ
item_code ItemStatus.todo = 0
item_code ItemStatus.active = 1
item_code ItemStatus.done = 2
item_code ItemStatus.skipped = 3

abbrev item_beq : ItemStatus → ItemStatus → Bool
item_beq a b = item_code a == item_code b

pub item_beq_iff : (a b : ItemStatus) → (item_beq a b ≡ true) ↔ (a ≡ b)
item_beq_iff a b = ground arith

instance abbrev pub item_eq : Eq ItemStatus
item_eq = record { same = item_beq; same_iff = item_beq_iff }

abbrev visibility_code : Visibility → ℕ
visibility_code Visibility.private = 0
visibility_code Visibility.team = 1
visibility_code Visibility.agent = 2
visibility_code Visibility.unset = 3
visibility_code Visibility.unknown = 4

abbrev visibility_beq : Visibility → Visibility → Bool
visibility_beq a b = visibility_code a == visibility_code b

pub visibility_beq_iff : (a b : Visibility) → (visibility_beq a b ≡ true) ↔ (a ≡ b)
visibility_beq_iff a b = ground arith

instance abbrev pub visibility_eq : Eq Visibility
visibility_eq = record { same = visibility_beq; same_iff = visibility_beq_iff }

abbrev pub is_task_status : TaskStatus → Bool
is_task_status TaskStatus.unset = false
is_task_status TaskStatus.unknown = false
is_task_status _ = true

abbrev pub is_priority : Priority → Bool
is_priority Priority.unset = false
is_priority Priority.unknown = false
is_priority _ = true

abbrev pub is_task_type : TaskType → Bool
is_task_type TaskType.personal = true
is_task_type TaskType.work = true
is_task_type _ = false

abbrev pub is_task_visibility : Visibility → Bool
is_task_visibility Visibility.private = true
is_task_visibility Visibility.team = true
is_task_visibility Visibility.agent = true
is_task_visibility _ = false

-- `TaskVisibility(strings.ToLower(strings.TrimSpace(…)))`, and so for the other two types.
unfoldable pub read_visibility : String → Visibility
read_visibility value =
    let v = to_lower (trim_space value) in
    if v == "private"
    then Visibility.private
    else if v == "team"
    then Visibility.team
    else if v == "agent"
    then Visibility.agent
    else if v == ""
    then Visibility.unset
    else Visibility.unknown

unfoldable pub read_task_type : String → TaskType
read_task_type value =
    let v = to_lower (trim_space value) in
    if v == "personal"
    then TaskType.personal
    else if v == "work"
    then TaskType.work
    else if v == ""
    then TaskType.unset
    else TaskType.unknown

unfoldable pub read_priority : String → Priority
read_priority value =
    let v = to_lower (trim_space value) in
    if v == "low"
    then Priority.low
    else if v == "normal"
    then Priority.normal
    else if v == "high"
    then Priority.high
    else if v == "urgent"
    then Priority.urgent
    else if v == ""
    then Priority.unset
    else Priority.unknown

abbrev or_default : Visibility → Visibility → Visibility
or_default Visibility.unset fallback = fallback
or_default v fallback = v

unfoldable pub normalized_visibility : String → Visibility → Visibility
unfolding read_visibility
normalized_visibility value fallback = or_default (read_visibility value) fallback

abbrev or_personal : TaskType → TaskType
or_personal TaskType.unset = TaskType.personal
or_personal t = t

unfoldable pub normalized_task_type : String → TaskType
unfolding read_task_type
normalized_task_type value = or_personal (read_task_type value)

abbrev or_normal : Priority → Priority
or_normal Priority.unset = Priority.normal
or_normal p = p

unfoldable pub normalized_priority : String → Priority
unfolding read_priority
normalized_priority value = or_normal (read_priority value)
