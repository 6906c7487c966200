-- ===== src/Tests/Stores.antt =====
-- The theorems on the store at a table that keeps its history.
use orbit_cache_public.Prelude.{◌≡◌, [], ◌∷◌, true, some, if◌then◌else◌}
use orbit_cache_public.Text.{str_eq}
use orbit_cache_public.Store.HashTable.{list_tommy}
use orbit_cache_public.Store.Assoc.{IsUnique}
use orbit_cache_public.Store.{tommy_put, tommy_get, tommy_hashlin_init}
use orbit_cache_public.Store.Laws.{IsValid, tommy_get-tommy_put}
use orbit_cache_public.Tests.Fixtures.{one_store, one-IsValid, empty_store, k7}

tommy_get-tommy_put_example :
    IsValid list_tommy (tommy_put list_tommy true one_store k7 (65 ∷ 66 ∷ []))
    × (tommy_get list_tommy (tommy_put list_tommy true one_store k7 (65 ∷ 66 ∷ [])) (67 ∷ []) ≡ (
        if str_eq k7 (67 ∷ [])
        then some (65 ∷ 66 ∷ [])
        else tommy_get list_tommy one_store (67 ∷ [])))
tommy_get-tommy_put_example =
    tommy_get-tommy_put list_tommy one_store k7 (65 ∷ 66 ∷ []) one-IsValid (67 ∷ [])

empty-IsUnique : IsUnique empty_store.heap
unfolding tommy_hashlin_init
empty-IsUnique = tt
