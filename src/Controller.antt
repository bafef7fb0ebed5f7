-- ===== src/Controller.antt =====
-- controller/internal/controller: the reconciler, its watches and the decision watcher.
mod World
mod Helpers
pub mod Weights
mod Issues
pub mod Steps
pub mod Reconcile
pub mod Watches
pub mod Decisions
pub use World.*
unfoldable pub use Helpers.*
unfoldable pub use Weights.*
unfoldable pub use Issues.*
unfoldable pub use Steps.*
unfoldable pub use Reconcile.*
