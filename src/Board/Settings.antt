-- ===== src/Board/Settings.antt =====
-- What a call reads besides the database: the service's configuration, the clock, the identifiers
-- that it draws, and the functions of other packages that it relies on.
use taskboard.Common.{Bool, List, Option, String, false, ltb, none, some, ℕ}
use taskboard.Model.{TaskType}
use taskboard.Stamp.{Time}

pub record Settings : Type 0 where
  pub lease_duration : Time
  -- `unset` when tasks choose their own type
  pub fixed_type : TaskType
  pub default_requirements : List String
  -- the digest of a session key (SHA-256 in hexadecimal)
  pub key_hash : String → String
  -- model.DeferStart in the instance's timezone
  pub defer_start : String → Option Time
  -- model.NormalizeDeferUntil; `none` is its error
  pub normalize_defer_until : String → Option String
  -- time.Parse("2006-01-02", …) succeeds
  pub is_date : String → Bool
  -- the date, or the time when it is empty, after AddDate(0, months, days)
  pub add_date : String → Time → (months days : ℕ) → String

-- One call: its time, the store clock's time, and the identifiers it draws.
pub record Call : Type 0 where
  pub now : Time
  pub store_now : Time
  pub new_id : ℕ → String

-- model.DeferActive
unfoldable pub defer_active : Settings → String → Time → Bool
defer_active settings value now = elim (settings.defer_start value) [
  | none ↦ false
  | some start ↦ ltb now start
]

abbrev fixed_or : TaskType → TaskType → TaskType
fixed_or TaskType.unset given = given
fixed_or fixed given = fixed

-- Service.taskType
unfoldable pub instance_task_type : Settings → TaskType → TaskType
instance_task_type settings given = fixed_or settings.fixed_type given
