-- ===== src/Delivery.antt =====
-- internal/delivery: the dispatcher (Dispatch), its senders, and what a success means.
mod Dispatch
pub mod Senders
unfoldable pub use Dispatch.*
