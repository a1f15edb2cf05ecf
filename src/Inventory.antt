-- ===== src/Inventory.antt =====
-- apps/inventory-grpc: the inventory service.
pub mod Errors
pub mod Uuid
pub mod Config
pub mod Request
pub mod Store
pub mod Stock
pub mod Ledger
pub mod Messages
pub mod Status
pub mod Handlers
pub mod Logging
pub mod Health
pub mod Tests
