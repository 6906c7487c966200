-- ===== src/Popularity/TopK/Laws.antt =====
-- The fuel of `heapify`, the invariant of the report, and what an insertion does to the order.
use orbit_cache_public.Prelude.{
  ℕ, zero, suc, ◌+◌, ◌-◌, ◌*◌, ◌≤◌, ◌<◌, ◌≡◌, refl, ap, ◌∙◌, sym, ◌⊎◌, List, [], ◌∷◌, true, ◌==◌,
  ltb, none, if◌then◌else◌, set, length, length-set, arith, Bool-cases, Option-cases, inl, inr,
  ==_iff,
}
use orbit_cache_public.Popularity.Sketch.{CountMinSketch, get_popularity}
use orbit_cache_public.Popularity.TopK.{
  top_k_size, TopKItem, item_at, swap, smallest_of, heapify_loop, heapify, find_key, TopK, add_key,
  update_found, update_top_k,
}

pub smallest_of_bounds :
    (top_k : List TopKItem) (count i : ℕ)
    → (smallest_of top_k count i ≡ i)
      ⊎ ((i < smallest_of top_k count i) × (smallest_of top_k count i < count))
unfolding smallest_of
smallest_of_bounds top_k count i = ground arith

pub heapify_loop_step :
    (fuel : ℕ) (top_k : List TopKItem) (count i : ℕ)
    → heapify_loop (suc fuel) top_k count i ≡ (
        if smallest_of top_k count i == i
        then top_k
        else heapify_loop fuel
            (swap top_k i (smallest_of top_k count i))
            count
            (smallest_of top_k count i))
unfolding heapify_loop
heapify_loop_step fuel top_k count i = refl

pub heapify_loop-stays :
    (fuel : ℕ) (top_k : List TopKItem) (count i : ℕ)
    → smallest_of top_k count i ≡ i
    → heapify_loop fuel top_k count i ≡ top_k
unfolding heapify_loop
heapify_loop-stays zero top_k count i same = refl
heapify_loop-stays (suc fuel) top_k count i same = rw ((==_iff _ _).1 same) refl

-- More fuel than the count less the index changes nothing.
heapify_loop-fuel :
    (fuel : ℕ) (top_k : List TopKItem) (count i : ℕ)
    → count ≤ fuel + i
    → heapify_loop (suc fuel) top_k count i ≡ heapify_loop fuel top_k count i
heapify_loop-fuel zero top_k count i h =
    let stays : smallest_of top_k count i ≡ i = ground (arith, smallest_of_bounds top_k count i) in
    heapify_loop-stays 1 top_k count i stays ∙ sym (heapify_loop-stays 0 top_k count i stays)
heapify_loop-fuel (suc fuel) top_k count i h = elim (smallest_of_bounds top_k count i) [
  | inl same ↦
      heapify_loop-stays (suc (suc fuel)) top_k count i same
      ∙ sym (heapify_loop-stays (suc fuel) top_k count i same)
  | inr (up, under) ↦
      heapify_loop_step (suc fuel) top_k count i
      ∙ ap (λ a. if smallest_of top_k count i == i then top_k else a)
          (heapify_loop-fuel fuel (swap top_k i (smallest_of top_k count i)) count
            (smallest_of top_k count i) (omega arith))
      ∙ sym (heapify_loop_step fuel top_k count i)
]

-- `heapify` is the recursion of the source, so its fuel is enough: it swaps an item with the less
-- popular one of its children, and goes on from there, until there is none.
pub heapify_lem :
    (top_k : List TopKItem) (count i : ℕ)
    → heapify top_k count i ≡ (
        let smallest = smallest_of top_k count i in
        if smallest == i then top_k else heapify (swap top_k i smallest) count smallest)
unfolding heapify
heapify_lem top_k count i =
    sym (heapify_loop-fuel count top_k count i (omega arith))
    ∙ heapify_loop_step count top_k count i

leaf_stays :
    (top_k : List TopKItem) (count i : ℕ) → count ≤ 2 * i + 1 → smallest_of top_k count i ≡ i
unfolding smallest_of
leaf_stays top_k count i h = ground arith

-- An item with no children in use stays where it is.
pub heapify-leaf :
    (top_k : List TopKItem) (count i : ℕ) → count ≤ 2 * i + 1 → heapify top_k count i ≡ top_k
heapify-leaf top_k count i h = heapify_lem top_k count i ∙ rw ((==_iff _ _).1 stays) refl
  where
    stays : smallest_of top_k count i ≡ i
    stays = leaf_stays top_k count i h

length-heapify_loop :
    (fuel : ℕ) (top_k : List TopKItem) (count i : ℕ)
    → length (heapify_loop fuel top_k count i) ≡ length top_k
unfolding heapify_loop
length-heapify_loop zero top_k count i = refl
length-heapify_loop (suc fuel) top_k count i = elim (Bool-cases (smallest_of top_k count i == i)) [
  | inl same ↦ rw same refl
  | inr other ↦ rw other (
      length-heapify_loop fuel (swap top_k i (smallest_of top_k count i)) count
        (smallest_of top_k count i)
      ∙ length-set (set top_k i (item_at top_k (smallest_of top_k count i)))
          (smallest_of top_k count i) (item_at top_k i)
      ∙ length-set top_k i (item_at top_k (smallest_of top_k count i)))
]

-- The array of ten items, with at most ten in use.
pub record IsReport (t : TopK) : Type 0 where
  pub room : length t.items ≡ top_k_size
  pub used : t.count ≤ top_k_size

length-heapify :
    (top_k : List TopKItem) (count i : ℕ) → length (heapify top_k count i) ≡ length top_k
unfolding heapify
length-heapify top_k count i = length-heapify_loop count top_k count i

add_key-IsReport : (freq : ℕ) (t : TopK) (key : List ℕ) → IsReport t → IsReport (add_key freq t key)
unfolding add_key
add_key-IsReport freq t key r = ground (
  arith,
  length-heapify (set t.items t.count (record { key = key; popularity = freq })) (t.count + 1)
      (t.count + 1 - 1),
  length-heapify (set t.items 0 (record { key = key; popularity = freq })) t.count 0,
  length-set t.items t.count (record { key = key; popularity = freq }),
  length-set t.items 0 (record { key = key; popularity = freq }),
)

-- Each update keeps the array at ten items, with at most ten of them in use.
pub update_top_k-IsReport :
    (cms : CountMinSketch) (t : TopK) (key : List ℕ)
    → IsReport t
    → IsReport (update_top_k cms t key)
unfolding update_top_k update_found
update_top_k-IsReport cms t key r = elim (Option-cases (find_key t.count 0 t.items key)) [
  | inl new ↦ rw new (add_key-IsReport (get_popularity cms key) t key r)
  | inr (i, found) ↦ rw found (record {
    room = length-heapify _ t.count i ∙ length-set t.items i _ ∙ r.room;
    used = r.used;
  })
]

-- A key that is not in the report is written behind the others while there is room, and stays
-- there, however unpopular it is: `heapify` at the last item moves nothing.
pub update_top_k-insert :
    (cms : CountMinSketch) (t : TopK) (key : List ℕ)
    → find_key t.count 0 t.items key ≡ none
    → t.count < top_k_size
    → update_top_k cms t key ≡ record {
      items = set t.items t.count (record { key = key; popularity = get_popularity cms key });
      count = t.count + 1;
    }
unfolding update_top_k update_found add_key
update_top_k-insert cms t key new room =
    let test : ltb t.count top_k_size ≡ true = ground arith in
    rw (new, test, heapify-leaf _ (t.count + 1) (t.count + 1 - 1) (omega arith)) refl

pub item_at-set :
    (a : List TopKItem) (i j : ℕ) (v : TopKItem)
    → i < length a
    → item_at (set a i v) j ≡ (if i == j then v else item_at a j)
item_at-set [] i j v h = absurd (omega arith)
item_at-set (x ∷ a) zero zero v h = refl
item_at-set (x ∷ a) zero (suc j) v h = ground arith
item_at-set (x ∷ a) (suc i) zero v h = ground arith
item_at-set (x ∷ a) (suc i) (suc j) v h = ground (arith, item_at-set a i j v)
