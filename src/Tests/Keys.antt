-- ===== src/Tests/Keys.antt =====
-- The keys and hashes that README.md shows for the controller's log, and instances.
use orbit_cache_public.Prelude.{
  ℕ, ◌+◌, ◌≤◌, ◌<◌, ◌≡◌, refl, arith, List, [], ◌∷◌, replicate, length, take,
}
use orbit_cache_public.Text.{until_nul, overwrite}
use orbit_cache_public.Hash.{hash64_str, hash64_str2}
use orbit_cache_public.Key.{codes, tostring_key}
use orbit_cache_public.Key.Laws.{tostring_key-injective}
use orbit_cache_public.Packet.Orbitcache.{
  blank_orbitcache, orbitcache_head, send_orbitcache, recv_orbitcache,
  recv_orbitcache-send_orbitcache,
}
use orbit_cache_public.Popularity.Sketch.{hash_functions, get_popularity, empty_sketch, int_max}
use orbit_cache_public.Popularity.Sketch.Laws.{
  update_all, hits, column, occurrences, get_popularity-update_all,
}
use orbit_cache_public.Tests.Fixtures.{blank_fits}

abbrev blank : List ℕ
blank = replicate 16 0

key_0 : until_nul (tostring_key 0 blank) ≡ codes "AAAAAAAAAAAAFGP"
unfolding tostring_key
key_0 = refl

key_1 : until_nul (tostring_key 1 blank) ≡ codes "AAAAAAAAAAAAJdU"
unfolding tostring_key
key_1 = refl

key_127 : until_nul (tostring_key 127 blank) ≡ codes "AAAAAAAAAAAJCXe"
unfolding tostring_key
key_127 = refl

hashes_0 :
    (hash64_str (codes "AAAAAAAAAAAAFGP") ≡ 13833500700839145416)
    × (hash64_str2 (codes "AAAAAAAAAAAAFGP") ≡ 305149963468443528)
unfolding hash64_str hash64_str2
hashes_0 = (refl, refl)

hashes_127 :
    (hash64_str (codes "AAAAAAAAAAAJCXe") ≡ 15573036772515772950)
    × (hash64_str2 (codes "AAAAAAAAAAAJCXe") ≡ 14982745974005649426)
unfolding hash64_str hash64_str2
hashes_127 = (refl, refl)

tostring_key-injective_example :
    (length (until_nul (tostring_key 3 blank)) ≡ 15)
    × (length (tostring_key 3 blank) ≡ 16)
    × (until_nul (tostring_key 3 blank) ≡ until_nul (tostring_key (100 + 27) blank) → 3 ≡ 100 + 27)
tostring_key-injective_example =
    tostring_key-injective 3 (100 + 27) blank blank refl refl (omega arith) (omega arith)

recv_orbitcache-send_orbitcache_example :
    recv_orbitcache (send_orbitcache (orbitcache_head + 2) blank_orbitcache) blank_orbitcache
    ≡ record blank_orbitcache {
      value = overwrite (take 2 blank_orbitcache.value) blank_orbitcache.value;
    }
recv_orbitcache-send_orbitcache_example =
    recv_orbitcache-send_orbitcache blank_orbitcache blank_orbitcache 2 blank_fits blank_fits
      (omega arith)

get_popularity-update_all_example :
    (get_popularity (update_all empty_sketch (codes "AB" ∷ codes "C" ∷ [])) (codes "C")
      ≡ hits (column (codes "C")) (codes "AB" ∷ codes "C" ∷ []))
    × (occurrences (codes "C") (codes "AB" ∷ codes "C" ∷ [])
        ≤ get_popularity (update_all empty_sketch (codes "AB" ∷ codes "C" ∷ [])) (codes "C"))
    × ((row c : ℕ)
        → row < hash_functions
        → update_all empty_sketch (codes "AB" ∷ codes "C" ∷ []) row c ≤ int_max)
get_popularity-update_all_example =
    get_popularity-update_all (codes "AB" ∷ codes "C" ∷ []) (codes "C") (omega arith)
