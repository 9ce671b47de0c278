-- ===== src/Access/Principals.antt =====
-- Principals, roles, permissions and agent capabilities of internal/service/service.go.
use taskboard.Common.{
  Bool, Option, String, false, if◌then◌else◌, nat_eq, none, not, some, string_eq, true, ℕ, ◌&&◌,
  ◌*◌, ◌==◌,
}
use taskboard.Model.{Task, item_eq, status_eq, visibility_eq}
use taskboard.Stamp.{Time, minute}
use taskboard.Text.{trim_space}

-- The capabilities of an agent policy, which the source names by strings.
pub data Capability : Type 0 where
  task_read task_create task_claim task_update task_message task_escalate : Capability
  task_control task_reference task_handoff task_evidence task_validate task_session : Capability
  task_usage task_complete task_skip task_sensitive worker_advertise : Capability
  template_read template_manage : Capability

pub data Role : Type 0 where
  owner admin member viewer agent unset unknown : Role

pub data Permission : Type 0 where
  task_read task_write task_message template_read template_manage event_stream : Permission
  push_manage : Permission

-- A limit of zero is no limit.
pub record AgentPolicy : Type 0 where
  pub capabilities : Capability → Bool
  pub max_concurrent_runs : ℕ
  pub max_pickups_per_minute : ℕ
  pub max_run_duration : Time
  pub require_idempotency : Bool
  pub allowed_requirements : String → Bool

-- The fields of `Principal` that are read of a person an agent acts for.
pub record Identity : Type 0 where
  pub id : String
  pub agent : Bool
  pub role : Role
  pub policy : AgentPolicy

pub record Principal : Type 0 where
  pub identity : Identity
  pub open identity use *
  pub on_behalf_of : Option Identity
  pub operator : String

-- DefaultAgentPolicy: every known capability but two.
unfoldable pub default_capabilities : Capability → Bool
default_capabilities Capability.task_sensitive = false
default_capabilities Capability.task_validate = false
default_capabilities _ = true

abbrev pub default_agent_policy : AgentPolicy
default_agent_policy = record {
  capabilities = default_capabilities;
  max_concurrent_runs = 8;
  max_pickups_per_minute = 30;
  max_run_duration = 480 * minute;
  require_idempotency = false;
  allowed_requirements = λ _. false;
}

abbrev no_policy : AgentPolicy
no_policy = record {
  capabilities = λ _. false;
  max_concurrent_runs = 0;
  max_pickups_per_minute = 0;
  max_run_duration = 0;
  require_idempotency = false;
  allowed_requirements = λ _. false;
}

abbrev pub is_human_role : Role → Bool
is_human_role Role.owner = true
is_human_role Role.admin = true
is_human_role Role.member = true
is_human_role Role.viewer = true
is_human_role _ = false

abbrev human_role : Role → Role
human_role role = if is_human_role role then role else Role.viewer

unfoldable pub human_principal : String → Role → Principal
human_principal id role = record {
  identity = record {
    id = trim_space id;
    agent = false;
    role = human_role role;
    policy = no_policy;
  };
  on_behalf_of = none;
  operator = "";
}

unfoldable pub agent_principal : String → AgentPolicy → Principal
agent_principal id policy = record {
  identity = record { id = trim_space id; agent = true; role = Role.agent; policy = policy };
  on_behalf_of = none;
  operator = "";
}

unfoldable pub has_capability : Identity → Capability → Bool
has_capability p capability = p.agent && p.policy.capabilities capability

abbrev agent_can : Identity → Permission → Bool
agent_can p Permission.task_read = has_capability p Capability.task_read
agent_can p Permission.task_write = has_capability p Capability.task_update
agent_can p Permission.task_message = has_capability p Capability.task_message
agent_can p Permission.template_read = has_capability p Capability.template_read
agent_can p Permission.template_manage = has_capability p Capability.template_manage
agent_can p _ = false

abbrev role_or_viewer : Role → Role
role_or_viewer Role.unset = Role.viewer
role_or_viewer role = role

abbrev may_write : Role → Bool
may_write Role.owner = true
may_write Role.admin = true
may_write Role.member = true
may_write _ = false

abbrev pub may_manage : Role → Bool
may_manage Role.owner = true
may_manage Role.admin = true
may_manage _ = false

abbrev human_can : Role → Permission → Bool
human_can role Permission.task_write = may_write role
human_can role Permission.task_message = may_write role
human_can role Permission.template_manage = may_manage role
human_can role _ = is_human_role role

unfoldable pub can : Identity → Permission → Bool
unfolding has_capability
can p permission =
    if p.agent then agent_can p permission else human_can (role_or_viewer p.role) permission

-- `principal.OnBehalfOf != nil && task.CreatedBy != "" && task.CreatedBy == …ID`
abbrev pub acts_for_creator : Task → Option Identity → Bool
acts_for_creator task none = false
acts_for_creator task (some person) = not (task.created_by == "") && task.created_by == person.id
