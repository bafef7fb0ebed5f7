-- ===== src/Proxy.antt =====
-- controller/internal/proxy: from the routing model to HAProxy's configuration, and its delivery.
mod Contract
mod Base
mod Render
mod Normalize
pub mod HaProxy
pub mod Delivery
pub mod Order
pub mod Normal
pub mod Fake
pub mod Genconfig
pub mod Reading
pub mod Options
pub use Contract.*
unfoldable pub use Base.*
unfoldable pub use Render.*
unfoldable pub use Normalize.*
