-- ===== src/Order.antt =====
-- Strict total orders given by a Boolean test, and `Array.prototype.sort` with a comparator of
-- which a test `before` says when the first argument goes first.
mod Sort
mod Unique
unfoldable pub use Sort.*
pub use Unique.*
