-- ===== src/Routing.antt =====
-- Which server and which of its workers a key belongs to: the expressions that client.c (`tx_t`)
-- and server.c (`worker_t`) share, and the addresses of header.h.
pub mod Laws
use orbit_cache_public.Prelude.{ℕ, ◌+◌, ◌%◌, List, [], ◌∷◌, u8, u64, get_elem?, Option}
use orbit_cache_public.Hash.{fnv1_16_str, hash64_str}
use orbit_cache_public.Key.{codes}

abbrev pub num_srv : ℕ
num_srv = 4

abbrev pub max_workers : ℕ
max_workers = 16

-- The comma after the seventh string is missing, so the compiler joins it with the eighth, and the
-- last element of the array of eight is NULL.
abbrev pub dst_ip : List (List ℕ)
dst_ip =
    codes "10.0.1.108"
    ∷ codes "10.0.1.107"
    ∷ codes "10.0.1.106"
    ∷ codes "10.0.1.105"
    ∷ codes "10.0.1.104"
    ∷ codes "10.0.1.103"
    ∷ codes "10.0.1.10210.0.1.101"
    ∷ []

abbrev pub orbitcache_base_port : ℕ
orbitcache_base_port = 3000

abbrev pub nocache_base_port : ℕ
nocache_base_port = 2000

abbrev pub netcache_base_port : ℕ
netcache_base_port = 1000

-- `fnv1_16_str(key) % NUM_SRV`
unfoldable pub dst_addr : List ℕ → ℕ
dst_addr key = fnv1_16_str key % num_srv

-- `(hkey_hi + 0x12345678) % g_num_srv_workers`, stored in a `uint8_t`
unfoldable pub partition_of : ℕ → List ℕ → ℕ
partition_of num_srv_workers key = u8 (u64 (hash64_str key + 0x12345678) % num_srv_workers)
