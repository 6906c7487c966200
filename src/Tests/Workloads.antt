-- ===== src/Tests/Workloads.antt =====
-- The searches on a distribution of eight keys, and the preload of 128 keys.
use orbit_cache_public.Prelude.{◌≡◌, refl, false, leb, arith}
use orbit_cache_public.Workload.{key_search}
use orbit_cache_public.Workload.Laws.{IsCumulative, refused}

search_5 : key_search (λ i. leb 5 i) 8 ≡ 5
unfolding key_search
search_5 = refl

search_none : key_search (λ i. false) 8 ≡ 8
unfolding key_search
search_none = refl

from_5 : IsCumulative (λ i. leb 5 i)
from_5 i j le h = ground arith

up_to_2 : IsCumulative (refused (λ i. leb i 2))
up_to_2 i j le h = ground arith
