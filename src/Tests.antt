-- ===== src/Tests.antt =====
-- Runs at concrete inputs, and the theorems applied to them.
pub mod World
pub mod Log
pub mod Circuit
pub mod Protocols
pub mod Recovering
pub mod Choice
pub mod Statistics
pub mod Warehouse
pub mod Messaging
pub mod Wallet
pub mod Checkout
pub mod Settings
pub mod Orders
pub mod Shopping
pub mod Connected
