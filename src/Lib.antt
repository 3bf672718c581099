-- ===== src/Lib.antt =====
-- The B46 ordering backend: two Go services around one order.
--
-- The ordering service (services/ordering) prices a checkout, stores the order with an outbox message,
-- and lets a cashier move it through its fulfilment. Its worker sends each message to the inventory
-- adapter (services/inventory-adapter), which checks and deducts the stock of the point of sale and
-- keeps a receipt, and then applies the answer to the order. Both services speak to PostgreSQL.
--
-- Base            shared tests, lists, 64-bit integers, texts, `(value, error)` results, tables with
--                 unique keys, and sorts.
-- Ordering        services/ordering/internal/ordering.
--   Domain        domain/order.go: CustomerState, NextAction, ValidateFulfillmentTarget.
--   Checkout      application/service.go: PlaceOrder up to the store, in its loops (collect_lines,
--                 price_lines, build_lines), validUUID and checkoutFingerprint.
--   Service       application/service.go: the other handlers, and the notifications they send.
--   Worker        application/worker.go: ProcessOnce, retryDelay, safeInventoryErrorCode, Run.
--   Store         adapters/postgres/store.go. Tables has the rows and the transactions, Load the
--                 queries, Place PlaceOrder, Fulfil MarkCashierRead and AdvanceFulfillment, Outbox
--                 ClaimInventoryWork, ApplyInventoryResult and RetryInventoryWork, WellFormed the
--                 invariant of the tables, and Reach the calls in any order.
-- Inventory       services/inventory-adapter/internal/inventory.
--   Domain        domain/commit.go and domain/catalog.go.
--   Service       application/service.go: Commit and Catalog.
--   Tables, Demand, Store
--                 adapters/postgres/store.go: the rows, the availability decision, and commitOnce
--                 with the retries of Commit.
-- Identity        services/ordering/internal/identity.
--   Domain        domain/identity.go and domain/registration.go.
--   Tables        the rows, and the transactions of adapters/postgres.
--   Sessions, OAuth, Accounts
--                 adapters/postgres/store.go: sessions and refresh families, intents, and users.
--   Cashiers      adapters/postgres/cashiers.go.
--   Registration  adapters/postgres/registration.go.
--   CashierRegistration
--                 adapters/postgres/cashier_registration.go.
--   Service       application/service.go, with its OAuth calls, cashiers.go and registration.go below
--                 it.
--   Ended, Reach  the store's calls in any order, as far as they read or change sessions.
-- Catalog         services/ordering/internal/catalog: Domain is domain/product.go, Service
--                 application/service.go, and Store adapters/postgres/store.go.
-- Tests           runs on concrete data.
--
-- The state of a store is its tables as lists of rows, and each operation is a function from the
-- tables to a result and the tables after it. What a database decides in a call is a record `Env`:
-- which statements fail for a technical reason (a broken connection, a value out of the range of its
-- column, a foreign key or CHECK), whether a COMMIT that reported an error took effect, the clock and
-- the uuids drawn. The unique constraints that the code relies on are tests on the tables. A body
-- that fails is rolled back. What other transactions commit in the middle of a call is an argument,
-- `between`; a serializable transaction sees one state. Row locks are not modelled beyond that.
--
-- Texts are valid UTF-8 and ids are canonical texts of uuids. Times are nanoseconds. JSON payloads are
-- kept as values, SHA-256 and the formats of times and numbers are arguments. Go's `int64` and `int`
-- wrap around at 64 bits. Go maps are lists of entries. All loops are structural recursion; the three
-- attempts of Store.Commit are counted down, so there is no fuel to run out.
--
-- A call of the identity service is a function of the tables over a record `World`, which has the
-- answers of what the service calls: the password hasher, the token and code generators, the clock, the
-- OAuth verifier, the digests, uuid.Parse and unicode.ToLower. A transaction of the identity store is
-- one step, as its statements lock the rows that they decide on, and its body says whether the call
-- answers with an error whose writes are kept, such as a wrong code that is counted. A message that
-- the registration service sends is part of its answer; that a delivery fails is only logged.
--
-- The loop of Service.Sync in the catalog runs over the list of the source's answers, one for each page
-- that it asks for; where the list ends, the source has not answered yet.
--
-- Simplified: a time is kept to the nanosecond, where the tables keep microseconds. `ORDER BY product_id`
-- of an order's lines compares bytes, where the database uses its collation.
--
-- Not modelled: the HTTP transports, the inventory client, the adapters of identity for passwords,
-- tokens, OAuth and mail, the catalog's HTTP source, the platform packages and the commands.
pub mod Base
pub mod Ordering
pub mod Inventory
pub mod Identity
pub mod Catalog
pub mod Tests
