-- ===== src/Tests/Reports.antt =====
-- The theorems on the report of popular keys at small reports.
use orbit_cache_public.Prelude.{
  ℕ, zero, suc, ◌-◌, ◌/◌, ◌<◌, ◌≤◌, ◌≡◌, refl, List, [], ◌∷◌, some, arith, replicate,
}
use orbit_cache_public.Popularity.Sketch.{CountMinSketch, get_popularity}
use orbit_cache_public.Popularity.TopK.{
  top_k_size, TopKItem, blank_item, TopK, find_key, update_top_k,
}
use orbit_cache_public.Popularity.TopK.Laws.{IsReport}
use orbit_cache_public.Popularity.TopK.Heap.{IsHeap, IsHeapBut, popularity_at}
use orbit_cache_public.Popularity.TopK.Order.{Has, updated, update_top_k-IsHeap}

abbrev item : ℕ → TopKItem
item n = record { key = 65 ∷ []; popularity = n }

-- The first item is more popular than its children.
abbrev three : List TopKItem
three = item 9 ∷ item 4 ∷ item 6 ∷ []

three-IsHeapBut : IsHeapBut 3 (popularity_at three) 0
three-IsHeapBut = record {
  order = λ j pos lt differ. absurd (omega arith);
  over = λ j pos pos' lt e. absurd (omega arith);
}

abbrev empty_report : TopK
empty_report = record { items = replicate top_k_size blank_item; count = 0 }

empty-IsReport : IsReport empty_report
empty-IsReport = record { room = refl; used = omega arith }

-- Ten keys that have been seen once each, and a sketch that has counted seven of everything.
abbrev full_report : TopK
full_report = record { items = replicate top_k_size (item 1); count = 10 }

abbrev sevens : CountMinSketch
sevens row column = 7

full-IsReport : IsReport full_report
full-IsReport = record { room = refl; used = omega arith }

seen_once : (n k : ℕ) → k < n → popularity_at (replicate n (item 1)) k ≡ 1
seen_once zero k h = absurd (omega arith)
seen_once (suc n) zero h = refl
seen_once (suc n) (suc k) h = ground (arith, seen_once n k)

full-IsHeap : IsHeap 10 (popularity_at full_report.items)
full-IsHeap j pos lt = omega (arith, seen_once 10 j lt, seen_once 10 ((j - 1) / 2) (omega arith))

no_key :
    (i : ℕ)
    → find_key 10 0 full_report.items (66 ∷ []) ≡ some i
    → popularity_at full_report.items i ≤ get_popularity sevens (66 ∷ [])
no_key i e = absurd (ground arith)

update_top_k-IsHeap_example :
    IsHeap
      (update_top_k sevens full_report (66 ∷ [])).count
      (popularity_at (update_top_k sevens full_report (66 ∷ [])).items)
    × Has full_report
        (updated
          (get_popularity sevens (66 ∷ []))
          full_report
          (66 ∷ [])
          (find_key 10 0 full_report.items (66 ∷ [])))
        (update_top_k sevens full_report (66 ∷ []))
update_top_k-IsHeap_example =
    update_top_k-IsHeap sevens full_report (66 ∷ []) full-IsReport refl full-IsHeap no_key
