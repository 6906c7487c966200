-- ===== src/Popularity/TopK.antt =====
-- The ten most popular keys (header.h, `TopKItem`, `heapify`, `updateTopK`, `resetReport`): an array
-- of ten items of which the first `topKCount` are in use, meant as a heap with the least popular
-- key in front. A key is its string; keys have at most 15 characters.
pub mod Laws
pub mod Heap
pub mod Order
use orbit_cache_public.Prelude.{
  ℕ, zero, suc, ◌+◌, ◌*◌, List, [], ◌∷◌, Bool, ◌&&◌, ◌==◌, ltb, Option, none, some, if◌then◌else◌,
  get_or, set, replicate, ◌-◌,
}
use orbit_cache_public.Text.{str_eq}
use orbit_cache_public.Popularity.Sketch.{CountMinSketch, empty_sketch, get_popularity}

abbrev pub top_k_size : ℕ
top_k_size = 10

pub record TopKItem : Type 0 where
  pub key : List ℕ
  pub popularity : ℕ

abbrev pub blank_item : TopKItem
blank_item = record { key = []; popularity = 0 }

abbrev pub item_at : List TopKItem → ℕ → TopKItem
item_at top_k i = get_or top_k i blank_item

abbrev pub swap : List TopKItem → ℕ → ℕ → List TopKItem
swap top_k i j = set (set top_k i (item_at top_k j)) j (item_at top_k i)

-- The least popular of `i` and its two children.
unfoldable pub smallest_of : List TopKItem → ℕ → ℕ → ℕ
smallest_of top_k count i =
    let left = 2 * i + 1 in
    let right = 2 * i + 2 in
    let smallest =
      if ltb left count && ltb (item_at top_k left).popularity (item_at top_k i).popularity
      then left
      else i in
    if ltb right count && ltb (item_at top_k right).popularity (item_at top_k smallest).popularity
    then right
    else smallest

-- The index grows with each call, so the count is enough fuel.
unfoldable pub heapify_loop : ℕ → List TopKItem → ℕ → ℕ → List TopKItem
heapify_loop zero top_k count i = top_k
heapify_loop (suc fuel) top_k count i =
    let smallest = smallest_of top_k count i in
    let sifted = heapify_loop fuel (swap top_k i smallest) count smallest in
    if smallest == i then top_k else sifted

unfoldable pub heapify : List TopKItem → ℕ → ℕ → List TopKItem
heapify top_k count i = heapify_loop count top_k count i

-- The first index from `i` on, of the `left` to go, whose item has the key.
abbrev pub find_key : ℕ → ℕ → List TopKItem → List ℕ → Option ℕ
find_key zero i top_k key = none
find_key (suc left) i top_k key =
    let later = find_key left (i + 1) top_k key in
    if str_eq (item_at top_k i).key key then some i else later

pub record TopK : Type 0 where
  pub items : List TopKItem
  pub count : ℕ

-- The key is not in use: it is added while there is room, and then it takes the first place if it
-- is more popular than the item there.
unfoldable pub add_key : ℕ → TopK → List ℕ → TopK
add_key freq t key =
    let item : TopKItem = record { key = key; popularity = freq } in
    if ltb t.count top_k_size
    then record {
      items = heapify (set t.items t.count item) (t.count + 1) (t.count + 1 - 1);
      count = t.count + 1;
    }
    else if ltb (item_at t.items 0).popularity freq
    then record t { items = heapify (set t.items 0 item) t.count 0 }
    else t

unfoldable pub update_found : ℕ → TopK → List ℕ → Option ℕ → TopK
update_found freq t key (some i) = record t {
  items = heapify (set t.items i (record (item_at t.items i) { popularity = freq })) t.count i;
}
update_found freq t key none = add_key freq t key

unfoldable pub update_top_k : CountMinSketch → TopK → List ℕ → TopK
update_top_k cms t key =
    update_found (get_popularity cms key) t key (find_key t.count 0 t.items key)

unfoldable pub reset_report : CountMinSketch → TopK → CountMinSketch × TopK
reset_report cms t = (empty_sketch, record { items = replicate top_k_size blank_item; count = 0 })
