-- ===== src/Auth.antt =====
-- Who may call the control panel: control-panel-django/core/authentication.py, permissions.py,
-- middleware.py and decorators.py, and the order in which a view puts them together.
mod Defs
mod Views
pub mod Keys
pub mod Doors
pub mod Origin
mod Examples
pub use Defs.*
pub use Views.*
