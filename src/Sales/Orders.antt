-- ===== src/Sales/Orders.antt =====
-- apps/sales-api/src/orders/orders.service.ts with order.mapper.ts: orders, their idempotency keys and the
-- reservations that they hold in the inventory.
pub mod Views
pub mod Tables
pub mod Sample
pub mod Service
pub mod Queries
pub mod Routes
