-- ===== src/Server.antt =====
-- server.c, the worker thread: the data preparation, the requests of each protocol, and the loop.
pub mod Memory
pub mod Startup
pub mod Worker
pub mod Window
pub mod Values
pub mod Loop
pub mod Report
pub mod Load
pub mod Nocache
pub mod Netcache
pub mod Orbitcache
