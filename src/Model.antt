-- ===== src/Model.antt =====
-- The data of internal/model/model.go: task and item states, the tables of the database (the
-- schema of internal/store/migrations.go) and the requests of the service.
mod Kinds
mod Controls
mod Messages
mod NewTasks
mod Tables
mod Requests
unfoldable pub use Kinds.*
pub use Controls.*
pub use Messages.*
pub use NewTasks.*
pub use Tables.*
pub use Requests.*
