-- ===== src/Tests.antt =====
-- The published examples, and the theorems applied to concrete inputs.
mod Fixtures
mod Keys
mod Stores
mod Servers
mod Clients
mod Systems
mod Workloads
mod Reports
mod Rounds
mod Mains
mod Loops
mod Tables
mod Interleavings
mod Workers
mod Handlers
mod Serving
mod NocacheServing
mod Exchanges
mod Names
