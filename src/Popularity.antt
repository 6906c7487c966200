-- ===== src/Popularity.antt =====
-- The popularity report of a server (header.h, `hash2` to `resetReport`): a count-min sketch of the
-- keys and the ten most popular ones. server.c calls it where `DYNAMIC` is set.
pub mod Sketch
pub mod TopK
