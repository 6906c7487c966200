-- ===== src/Popularity/TopK/Order.antt =====
-- The order of the heap through `updateTopK`.
use orbit_cache_public.Prelude.{
  ℕ, zero, suc, ◌+◌, ◌-◌, ◌/◌, ◌≤◌, ◌<◌, ◌≡◌, refl, ap, ◌∙◌, List, Option, none, true, false, ◌==◌,
  ltb, if◌then◌else◌, set, length, length-set, arith, Bool-cases, Option-cases, some, inl, inr,
  ==_iff,
}
use orbit_cache_public.Popularity.Sketch.{CountMinSketch, get_popularity}
use orbit_cache_public.Popularity.TopK.{
  top_k_size, TopKItem, TopK, swap, smallest_of, heapify_loop, find_key, add_key, update_found,
  update_top_k, item_at, heapify,
}
use orbit_cache_public.Popularity.TopK.Laws.{smallest_of_bounds, item_at-set, IsReport}
use orbit_cache_public.Popularity.TopK.Heap.{popularity_at, IsHeapBut, IsHeap, heapify-IsHeap}

-- A heap in which the popularity of one item has grown.
raised :
    (count i v : ℕ) (p q : ℕ → ℕ)
    → IsHeap count p
    → ((j : ℕ) → q j ≡ (if i == j then v else p j))
    → i < count
    → p i ≤ v
    → IsHeapBut count q i
raised count i v p q h new lt grown = record {
  order = λ j pos used differ.
      let below = h j pos used in
      elim (Bool-cases (i == j)) [
        | inl ij ↦
            let same : p i ≡ p j = ap p ((==_iff _ _).0 ij) in
            ground (arith, ij, same, below, differ, new j, new ((j - 1) / 2))
        | inr other ↦ ground (arith, other, below, differ, new j, new ((j - 1) / 2))
      ];
  over = λ j pos pos' used e.
      let below = h j pos' used in
      let below_i = h i pos lt in
      let same : p ((j - 1) / 2) ≡ p i = ap p e in
      let apart : (i == (i - 1) / 2) ≡ false = ground arith in
      let apart' : (i == j) ≡ false = ground arith in
      ground (arith, apart, apart', below, below_i, same, new j, new ((i - 1) / 2));
}

heapify_raised :
    (a : List TopKItem) (count i : ℕ) (item : TopKItem)
    → count ≤ length a
    → i < count
    → IsHeap count (popularity_at a)
    → popularity_at a i ≤ item.popularity
    → IsHeap count (popularity_at (heapify (set a i item) count i))
heapify_raised a count i item le lt h grown =
    heapify-IsHeap (set a i item) count i (omega (arith, length-set a i item)) lt (
      raised count i item.popularity (popularity_at a) (popularity_at (set a i item)) h
        (λ j.
          ap (λ (x : TopKItem). x.popularity) (item_at-set a i j item (omega arith)) ∙ ground arith)
        lt grown)

-- The item is one of the first `count`.
abbrev pub Occurs : ℕ → List TopKItem → TopKItem → Type 0
Occurs count a item = (j : ℕ) × (j < count) × (item_at a j ≡ item)

swap-Occurs :
    (a : List TopKItem) (count i s k : ℕ)
    → count ≤ length a
    → i < count
    → s < count
    → k < count
    → Occurs count (swap a i s) (item_at a k)
swap-Occurs a count i s k le i_lt s_lt k_lt = elim (Bool-cases (k == i)) [
  | inl at_i ↦ (s, s_lt, at s ∙ moved_to_s at_i)
  | inr not_i ↦ elim (Bool-cases (k == s)) [
    | inl at_s ↦ (i, i_lt, at i ∙ moved_to_i not_i at_s)
    | inr not_s ↦ (k, k_lt, at k ∙ stayed not_i not_s)
  ]
]
  where
    at :
        (j : ℕ)
        → item_at (swap a i s) j
          ≡ (if s == j then item_at a i else if i == j then item_at a s else item_at a j)
    at j =
        item_at-set (set a i (item_at a s)) s j (item_at a i)
          (omega (arith, length-set a i (item_at a s)))
        ∙ ap (λ x. if s == j then item_at a i else x)
            (item_at-set a i j (item_at a s) (omega arith))

    moved_to_s :
        (k == i) ≡ true
        → (if s == s then item_at a i else if i == s then item_at a s else item_at a s)
          ≡ item_at a k
    moved_to_s e =
        let same : (s == s) ≡ true = ground arith in
        rw same (ap (item_at a) (let equal : i ≡ k = ground (arith, e) in equal))

    moved_to_i :
        (k == i) ≡ false
        → (k == s) ≡ true
        → (if s == i then item_at a i else if i == i then item_at a s else item_at a i)
          ≡ item_at a k
    moved_to_i e e' =
        let same : (i == i) ≡ true = ground arith in
        let apart : (s == i) ≡ false = ground (arith, e, e') in
        rw (apart, same) (ap (item_at a) (let equal : s ≡ k = ground (arith, e') in equal))

    stayed :
        (k == i) ≡ false
        → (k == s) ≡ false
        → (if s == k then item_at a i else if i == k then item_at a s else item_at a k)
          ≡ item_at a k
    stayed e e' =
        let apart : (s == k) ≡ false = ground (arith, e') in
        let apart' : (i == k) ≡ false = ground (arith, e) in rw (apart, apart') refl

-- `heapify` loses no item.
heapify_loop-Occurs :
    (fuel : ℕ) (a : List TopKItem) (count i k : ℕ)
    → count ≤ length a
    → i < count
    → k < count
    → Occurs count (heapify_loop fuel a count i) (item_at a k)
unfolding heapify_loop
heapify_loop-Occurs zero a count i k le i_lt k_lt = (k, k_lt, refl)
heapify_loop-Occurs (suc fuel) a count i k le i_lt k_lt =
    elim (Bool-cases (smallest_of a count i == i)) [
      | inl same ↦ rw same (k, k_lt, refl)
      | inr other ↦
          let s_lt : smallest_of a count i < count =
            ground (arith, other, smallest_of_bounds a count i) in
          let (k', k'_lt, moved) =
            swap-Occurs a count i (smallest_of a count i) k le i_lt s_lt k_lt in
          let long : count ≤ length (swap a i (smallest_of a count i)) = omega (
            arith,
            le,
            length-set (set a i (item_at a (smallest_of a count i))) (smallest_of a count i)
                (item_at a i),
            length-set a i (item_at a (smallest_of a count i)),
          ) in
          let (j, j_lt, found) =
            heapify_loop-Occurs fuel (swap a i (smallest_of a count i)) count
              (smallest_of a count i) k' long s_lt k'_lt in
          rw other (j, j_lt, found ∙ moved)
    ]

heapify-Occurs :
    (a : List TopKItem) (count i k : ℕ)
    → count ≤ length a
    → i < count
    → k < count
    → Occurs count (heapify a count i) (item_at a k)
unfolding heapify
heapify-Occurs a count i k = heapify_loop-Occurs count a count i k

-- The report `t'` has as many items as `t`, and they are the first items of `a`.
abbrev pub Has : TopK → List TopKItem → TopK → Type 0
Has t a t' = (t'.count ≡ t.count) × ((k : ℕ) → k < t.count → Occurs t.count t'.items (item_at a k))

-- A key at a place of the report gets the estimate; a key that is not in the report takes the place of the
-- least popular item, if that has less.
abbrev pub updated : ℕ → TopK → List ℕ → Option ℕ → List TopKItem
updated freq t key (some i) = set t.items i (record (item_at t.items i) { popularity = freq })
updated freq t key none =
    if ltb (item_at t.items 0).popularity freq
    then set t.items 0 (record { key = key; popularity = freq })
    else t.items

find_key-lt :
    (left i : ℕ) (top_k : List TopKItem) (key : List ℕ) (n : ℕ)
    → find_key left i top_k key ≡ some n
    → n < i + left
find_key-lt zero i top_k key n e = absurd (ground arith)
find_key-lt (suc left) i top_k key n e = ground (arith, find_key-lt left (i + 1) top_k key n)

-- An update of a full report, in which the estimate of a key of the report has not fallen, keeps the order
-- of the heap. The items are those from before, but that a key of the report has its estimate, and that
-- a new key with a higher estimate than the least popular item has the place of that item.
pub update_top_k-IsHeap :
    (cms : CountMinSketch) (t : TopK) (key : List ℕ)
    → IsReport t
    → t.count ≡ top_k_size
    → IsHeap t.count (popularity_at t.items)
    → ((i : ℕ)
        → find_key t.count 0 t.items key ≡ some i
        → popularity_at t.items i ≤ get_popularity cms key)
    → IsHeap (update_top_k cms t key).count (popularity_at (update_top_k cms t key).items)
      × Has t
          (updated (get_popularity cms key) t key (find_key t.count 0 t.items key))
          (update_top_k cms t key)
unfolding update_top_k update_found add_key
update_top_k-IsHeap cms t key r full h grows =
    elim (Option-cases (find_key t.count 0 t.items key)) [
      | inl new ↦
          let no_room : ltb t.count top_k_size ≡ false = ground arith in
          elim (Bool-cases (ltb (item_at t.items 0).popularity (get_popularity cms key))) [
            | inl more ↦
                let item : TopKItem = record { key = key; popularity = get_popularity cms key } in
                rw (new, no_room, more)
                  (
                    heapify_raised t.items t.count 0 item (omega (arith, r.room)) (omega arith) h
                        (ground (arith, more)),
                    (
                      refl,
                      λ k lt.
                          heapify-Occurs (set t.items 0 item) t.count 0 k
                            (omega (arith, r.room, length-set t.items 0 item)) (omega arith) lt,
                    ),
                  )
            | inr less ↦ rw (new, no_room, less) (h, (refl, λ k lt. (k, lt, refl)))
          ]
      | inr (i, found) ↦
          let item = record (item_at t.items i) { popularity = get_popularity cms key } in
          let lt : i < t.count = omega (arith, find_key-lt t.count 0 t.items key i found) in
          rw found (
            heapify_raised t.items t.count i item (omega (arith, r.room)) lt h (grows i found),
            (
              refl,
              λ k k_lt.
                  heapify-Occurs (set t.items i item) t.count i k
                    (omega (arith, r.room, length-set t.items i item)) lt k_lt,
            ),
          )
    ]
