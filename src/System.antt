-- ===== src/System.antt =====
-- Client and server together, over a network that delivers each datagram as it was sent.
pub mod Items
pub mod Requests
pub mod Exchange
pub mod NocacheRequests
pub mod Worker
pub mod Ports
pub mod Read
pub mod Collision
