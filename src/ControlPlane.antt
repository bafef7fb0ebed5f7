-- ===== src/ControlPlane.antt =====
-- controller/internal/controlplane: the client's messages, and the in-memory control plane.
pub mod Wire
pub mod Fake
pub mod Sessions
pub mod Store
pub mod Client
mod Defs
unfoldable pub use Defs.*
