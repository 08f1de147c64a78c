-- ===== src/Lib.antt =====
-- A verification library for ceoma-api, the API of a coffee trading house: lots are bought, allocated
-- to contracts, and shipped, by several organizations that share one PostgreSQL database.
--
-- The program's parts and where they are modelled (paths from the repository's root):
--   * Store (Store/Rows, Store/Transactions): the trading tables of prisma/schema.prisma with the
--     columns that the services use, and `withTransaction` of src/db/pool.ts. A service's method is a
--     term of the monad `Tx`: statements in the order of the code, an error ends it, and
--     `with_transaction` puts the store back as it was. `FOR UPDATE` locks the rows that matter, so
--     that a transaction is one step.
--   * Sql: `SELECT`, `UPDATE` and `SUM` on a table as a list of rows, with their laws. An `INSERT` checks
--     the primary key and the unique constraints of the table; a clash is the error 23505.
--   * DbHelpers: src/common/dbHelpers.ts. Errors: src/common/errors/ApiError.ts and the status that
--     src/common/middleware/errorHandler.ts answers.
--   * Inventory, Contracts, Shipments, Procurement: the methods of src/modules/<name>/<name>.service.ts
--     that write: `adjust_stock`, `create_contract`, `allocate_lot`, `create_shipment`,
--     `update_status`, `create_auction_lot`, `create_direct_agreement`, `create_direct_delivery`.
--     Each draws UUIDs, which are arguments here. What a method hands to a notification after its
--     transaction is part of its result.
--   * Books: the invariants that these share, `IsSound` and `IsBalanced`.
--   * Http, Idempotency, Access: the request as the middleware reads it, and
--     src/common/middleware/idempotency.ts, auth.ts, planGuard.ts, ensureOrgActive.ts,
--     csrfProtection.ts, with src/common/security/csrf.ts. What the database keeps of the body of
--     a response in the record of its key, if it takes it, is a parameter.
--   * Sessions: `login`, `refresh` and `logout` of src/modules/auth/auth.service.ts on the tables of users
--     and sessions. Each is taken as one step: the statements of `refresh` stand in no transaction, and
--     two refreshes that run at once are not modelled. Its children Users and Keys are
--     `updateUserStatus`, `createApiKey` and `revokeApiKey`, with the policies of row level security for
--     these tables: an argument says whether the database role bypasses them.
--   * Finance: `createCostEntry` of src/modules/finance/finance.service.ts.
--   * Trading: any sequence of calls of the services above, from any users, on one database.
--   * Texts, Pagination: JavaScript's operations on texts, and src/common/pagination.ts: the parsing of a
--     list query, the pages of a listing, and the escaping of a search term, against `ILIKE`.
--   * Imports: src/modules/master/master.bulkImport.ts with the configurations of master.service.ts.
--     A sheet comes as rows of cells, as the xlsx library reads it. Its insert fails on a UUID that is
--     in use and on a row that the database refuses, which is a parameter.
--   * Master: the creation, update, deletion and listing of suppliers, buyers, warehouses, grades and bag
--     types in src/modules/master/master.service.ts, with the foreign keys of prisma/migrations.
--   * Documents: `generate_documents` and `list_documents` of shipments.service.ts on the store and a
--     table of documents; its child Trace is src/modules/traceability/traceability.service.ts.
--   * Sanitize: src/common/middleware/sanitizeInput.ts on values of JSON. Express 5 parses the query
--     at each read, so that what the middleware writes to it is lost.
--   * Notifications: src/modules/notifications: Html and Templates write the mails, Events says to whom
--     each goes, Cron chooses what the daily alerts are about. A service's result is the payload of its
--     notice; the model does not join the two.
--   * Tenants: organizations, subscriptions and users: Creation has `createOrganization` of
--     src/modules/internal/internal.service.ts and `register` of auth.service.ts, Admin and Revenue the
--     rest of the former and src/common/middleware/superAdminAuth.ts.
--   * Prelude, Quantity: shared names, integers over the native numbers, and quantities. Tests: the
--     theorems at concrete data.
--
-- Bounds and units. A UUID is a number, a date a number of days, a time a number of milliseconds. A
-- weight or an amount, in JavaScript a double and in the database a DECIMAL, is an integer of
-- millionths, one of which is `EPSILON`; an input is taken to be such a multiple, and sums of doubles
-- are taken as exact, which they are to well under a millionth for weights of a warehouse. What a
-- column DECIMAL(12, 3) keeps is rounded to whole grams as PostgreSQL rounds; that a number has more
-- digits than the column is not modelled. Loops are recursions on lists: no fuel is used.
--
-- Taken as parameters: signing and checking a JWT, password hashes, SHA-256, the HMAC, the text of a
-- UUID, the clock, `toLowerCase` where a text is not compared with a fixed one, `Number(text)`, the xlsx
-- library, the schemas of zod, and the order that PostgreSQL gives a listing. Row level security is
-- modelled for users, sessions and API keys only; elsewhere a statement selects rows by the conditions
-- that its text has, which in the trading services name the organization wherever the model does.
-- The mail provider, the time at which a date begins where the process runs, the texts of numbers and of
-- dates, and the quotient of two amounts are parameters too. Not modelled: routes and controllers, which check that there is a user, parse the input and call
-- one service; the dashboards and the data for forms (`getReferenceData`), which read and format; the
-- reports of finance; the conditions of the lists other than those of master data and documents; the
-- registration of the daily tasks; the seeding that follows a new organization; logging, rate limits,
-- configuration.
pub mod Prelude
pub mod Errors
pub mod Sql
pub mod Quantity
pub mod Store
pub mod DbHelpers
pub mod Books
pub mod Inventory
pub mod Contracts
pub mod Shipments
pub mod Procurement
pub mod Finance
pub mod Documents
pub mod Trading
pub mod Texts
pub mod Pagination
pub mod Imports
pub mod Master
pub mod Tenants
pub mod Http
pub mod Idempotency
pub mod Access
pub mod Sessions
pub mod Sanitize
pub mod Notifications
mod Tests
