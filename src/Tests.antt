-- ===== src/Tests.antt =====
-- A small database in which every operation of the trading modules is tried: one lot of a tonne, of
-- which 600 kg are allocated to a contract for 900 kg.
mod Data
mod Contracts
mod Shipments
mod Stock
mod Web
mod Sessions
mod Trading
mod Pages
mod Imports
mod Tenants
mod Users
mod Sanitize
mod Notices
mod Master
mod Documents
