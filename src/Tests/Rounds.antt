-- ===== src/Tests/Rounds.antt =====
-- The rounds of a worker's loop, and its report, on small inputs.
use orbit_cache_public.Prelude.{ℕ, ◌≡◌, List, [], ◌∷◌, map, take, replicate, arith}
use orbit_cache_public.Popularity.Sketch.{get_popularity}
use orbit_cache_public.Popularity.TopK.{TopKItem, blank_item}
use orbit_cache_public.Server.Report.{report_of, report_bytes, Hot, report_hot}
use orbit_cache_public.Server.Report.Laws.{popular, report_hot_lem}

abbrev item : ℕ → TopKItem
item n = record { key = 65 ∷ []; popularity = n }

abbrev hot : Hot
hot = record {
  cms = λ row column. 200;
  top_k = record { items = item 200 ∷ item 7 ∷ item 300 ∷ replicate 7 blank_item; count = 3 };
  start_time_dynamic = 0;
}

report_hot_lem_example :
    ((report_hot 1000000001 1000000002 hot).0
      ≡ map (λ i. report_bytes (report_of i)) (popular (take 3 hot.top_k.items)))
    × ((key : List ℕ) → get_popularity (report_hot 1000000001 1000000002 hot).1.cms key ≡ 0)
    × ((report_hot 1000000001 1000000002 hot).1.top_k.count ≡ 0)
    × ((report_hot 1000000001 1000000002 hot).1.start_time_dynamic ≡ 1000000002)
report_hot_lem_example = report_hot_lem 1000000001 1000000002 hot (omega arith) (omega arith)
