-- ===== src/Update.antt =====
-- Editing a task: `Update` and what it calls in internal/service/service.go,
-- internal/service/duplicates.go and internal/service/matching.go.
pub mod Edit
pub mod Guards
pub mod Row
pub mod Effects
pub mod Handler
pub mod Agents
pub mod Allowed
pub mod Items
pub mod Steps
pub mod Done
pub mod Single
pub mod Version
pub mod Lost
mod Samples
