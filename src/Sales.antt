-- ===== src/Sales.antt =====
-- apps/sales-api: the sales service.
pub mod Errors
pub mod Translation
pub mod Gateway
pub mod Guard
pub mod Validation
pub mod Config
pub mod Filter
pub mod Orders
pub mod Customers
pub mod Tests
