-- ===== src/Packet.antt =====
-- The headers of the three protocols (header.h), as packed structs: `pack` gives the bytes of a
-- struct in memory, `unpack` reads them. Words lie in memory with the lowest byte first.
-- `recvfrom` writes a datagram over the front of the struct and leaves the rest of it as it was;
-- `sendto` sends the first bytes of the struct.
pub mod Endian
pub mod Overwrite
pub mod Orbitcache
pub mod Netcache
pub mod Nocache
use orbit_cache_public.Prelude.{ℕ, List, [], ◌∷◌, ◌++◌, to_bytes, of_bytes, take, drop}

abbrev pub max_value_size : ℕ
max_value_size = 1416

abbrev pub small_value : ℕ
small_value = 64

abbrev pub large_value : ℕ
large_value = 1024

abbrev pub lastack : ℕ
lastack = 255

-- The operation types.
abbrev pub op_read : ℕ
op_read = 0

abbrev pub op_r_reply : ℕ
op_r_reply = 1

abbrev pub op_write : ℕ
op_write = 2

abbrev pub op_w_reply : ℕ
op_w_reply = 3

abbrev pub op_crctn : ℕ
op_crctn = 4

abbrev pub op_fetch : ℕ
op_fetch = 5

abbrev pub op_f_reply : ℕ
op_f_reply = 6

abbrev pub fetching : ℕ
fetching = 1

abbrev pub missed : ℕ
missed = 2

-- The bytes of `k`-byte words that follow one another.
abbrev pub words : List (ℕ × ℕ) → List ℕ
words [] = []
words ((k, x) ∷ rest) = to_bytes k x ++ words rest

-- The word of `k` bytes at offset `i`.
abbrev pub word_at : ℕ → ℕ → List ℕ → ℕ
word_at i k bytes = of_bytes (take k (drop i bytes))
