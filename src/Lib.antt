-- ===== src/Lib.antt =====
-- RepuestosSur: an inventory service behind gRPC and a sales API behind REST, in TypeScript.
--
-- The inventory (apps/inventory-grpc) keeps parts with their stock and a ledger of one operation per
-- order. ReserveStock takes the stock of all items of an order or of none; ReleaseStock gives it back;
-- both are idempotent by the order's id. The sales service (apps/sales-api) creates an order under an
-- idempotency key: it claims the key, reserves the stock through a gateway, writes the order and
-- confirms the key in one transaction, and recovers what it may have reserved when that fails.
--
-- The parts and their modules:
--   Inventory/Errors, Uuid, Request   src/common and src/stock/stock-request.ts of the inventory: the
--     errors with their texts, the test for UUIDs, parseReserveRequest, parseReleaseRequest and
--     requestFingerprint.
--   Inventory/Store, Store/Tables     the tables of the inventory database, as an interface with the
--     documented effect of each statement, and lists for which the interface holds.
--   Inventory/Stock                   src/stock/stock.service.ts: `reserve` and `release`, one
--     transaction each. Stock/Results has their results; Stock/Taking, Reserving and Reserve follow
--     the reservation, Stock/Returning and Release the release; Stock/Lifecycle and Stock/Undo have
--     both, Stock/Rejecting the refusals.
--   Inventory/Ledger                  histories of calls of both, as a relation, and what the orders hold
--     over them.
--   Inventory/Config, Sales/Config    src/config/app-config.ts of each service.
--   Inventory/Logging                 src/logging: the line of each call, and redactSecrets.
--   Inventory/Messages, Status, Handlers   src/grpc, src/parts and the controllers: timestamps, the
--     table from errors to gRPC statuses, and the four RPCs with the filter around them.
--   Inventory/Health                  src/health/health.service.ts, as steps.
--   Sales/Errors, Translation, Filter src/common and src/inventory/inventory-error.ts of the sales
--     service: API errors, what a failed call of the inventory becomes, the envelope of errors.
--   Sales/Gateway                     src/inventory: the interface of the inventory and its
--     implementation over the generated client.
--   Sales/Guard, Sales/Validation     src/auth/api-key.guard.ts, and validationDetails of src/main.ts.
--   Sales/Orders                      src/orders: Views has the mapper and the stored responses,
--     Tables the tables as an interface, Sample lists for which it holds, Service/Requests the pure
--     parts of `create`, Service `create` with `recoverFailedCreate`, Queries `list`, `get` and
--     `cancel`, Routes the creating route. Service/Claiming has the claim of a new key, Replay,
--     Rejection, Recovery and Confirmation a key that is there, Outcomes both.
--   Sales/Customers                   src/customers: the service, its mapper and the creating route, over
--     a table as an interface.
--   System                            both services together: what the messages of
--     contracts/grpc/repuestossur/inventory/v1/inventory.proto carry from one to the other, and what a
--     call through the generated client may come to.
--   Prelude, Text, Js, Sort, Json, Grpc   what both services use: results, transactions, texts as
--     lists of UTF-16 units, maps made from arrays, a stable sort, JSON.stringify, gRPC statuses.
--
-- How the code is modelled. A transaction of the inventory is a function from the tables to a result
-- and new tables; a throw takes its writes back. How it ends is a parameter, `Fate`: it commits, the
-- database takes it back, or it commits and the caller sees an error. In the sales service the state
-- has the database, the inventory behind the gateway and the two variables that the body of the
-- transaction sets; a throw takes back the database only. The locks that each body takes first
-- serialise it against the others, so that a body is one step. Numbers are natural numbers: prices do
-- not occur, quantities are bounded by the parsers, and the stock is below 2 ^ 31, the range of its
-- column. A loop is structural recursion over the items; the fuel of
-- `decimal`, which writes a number n with n + 1 digits at most, and that of `redact`, the length of
-- the text, are enough.
--
-- Parameters: SHA-256, the clock, random UUIDs, the text of a date, the databases and the generated
-- gRPC client, Number, URL, resolve and existsSync. What is assumed of the databases is `StoreLaws`,
-- `TablesLaws` and `CustomerTableLaws`.
--
-- Not modelled: seed data and the wiring of both services, which are not the core, the rules of
-- class-validator, the routes of orders that only pass their arguments on, and transactions of two
-- requests to the sales service that interleave.
pub mod Prelude
pub mod Text
pub mod Js
pub mod Sort
pub mod Json
pub mod Grpc
pub mod Inventory
pub mod Sales
pub mod System
