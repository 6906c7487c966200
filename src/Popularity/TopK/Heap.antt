-- ===== src/Popularity/TopK/Heap.antt =====
-- `heapify` restores the order of the heap, with the least popular item in front.
use orbit_cache_public.Prelude.{
  ℕ, zero, suc, ◌+◌, ◌-◌, ◌*◌, ◌/◌, ◌≤◌, ◌<◌, ◌≡◌, ◌≢◌, ap, subst, ◌∙◌, sym, ◌⊎◌, List, false, ◌==◌,
  if◌then◌else◌, set, length, length-set, arith, Bool-cases, inl, inr, ==_iff,
}
use orbit_cache_public.Popularity.TopK.{TopKItem, item_at, swap, smallest_of, heapify_loop, heapify}
use orbit_cache_public.Popularity.TopK.Laws.{
  heapify_loop-stays, heapify_loop_step, item_at-set, smallest_of_bounds,
}

-- The popularity of the item at an index.
abbrev pub popularity_at : List TopKItem → ℕ → ℕ
popularity_at top_k i = (item_at top_k i).popularity

-- No item in use is less popular than its parent; `i` may be an exception, as a parent.
pub record IsHeapBut (count : ℕ) (p : ℕ → ℕ) (i : ℕ) : Type 0 where
  pub order : (j : ℕ) → 0 < j → j < count → (j - 1) / 2 ≢ i → p ((j - 1) / 2) ≤ p j
  pub over : (j : ℕ) → 0 < i → 0 < j → j < count → (j - 1) / 2 ≡ i → p ((i - 1) / 2) ≤ p j

abbrev pub IsHeap : ℕ → (ℕ → ℕ) → Type 0
IsHeap count p = (j : ℕ) → 0 < j → j < count → p ((j - 1) / 2) ≤ p j

-- `s` is the least popular of `i` and its children in use.
record Least (count : ℕ) (p : ℕ → ℕ) (i s : ℕ) : Type 0 where
  place : (s ≡ i) ⊎ (((s ≡ 2 * i + 1) ⊎ (s ≡ 2 * i + 2)) × (s < count))
  own : p s ≤ p i
  left : 2 * i + 1 < count → p s ≤ p (2 * i + 1)
  right : 2 * i + 2 < count → p s ≤ p (2 * i + 2)

smallest_of-Least :
    (top_k : List TopKItem) (count i : ℕ)
    → Least count (popularity_at top_k) i (smallest_of top_k count i)
unfolding smallest_of
smallest_of-Least top_k count i = record {
  place = ground arith;
  own = ground arith;
  left = λ h. ground arith;
  right = λ h. ground arith;
}

module _ (count : ℕ) (p : ℕ → ℕ) (i s : ℕ) (least : Least count p i s)
    (h : IsHeapBut count p i) where
  child : (j : ℕ) → 0 < j → (j - 1) / 2 ≡ i → (j ≡ 2 * i + 1) ⊎ (j ≡ 2 * i + 2)
  child j pos e = omega arith

  least-child : (j : ℕ) → 0 < j → j < count → (j - 1) / 2 ≡ i → p s ≤ p j
  least-child j pos lt e = elim (child j pos e) [
    | inl l ↦ subst (λ (k : ℕ). p s ≤ p k) (sym l) (least.left (omega arith))
    | inr r ↦ subst (λ (k : ℕ). p s ≤ p k) (sym r) (least.right (omega arith))
  ]

  settled : s ≡ i → IsHeap count p
  settled same j pos lt = elim (Bool-cases ((j - 1) / 2 == i)) [
    | inl e ↦
        omega (arith, ap p ((==_iff _ _).0 e), ap p same, least-child j pos lt ((==_iff _ _).0 e))
    | inr e ↦ h.order j pos lt (λ q. absurd (ground (arith, e)))
  ]

  module _ (q : ℕ → ℕ)
      (swapped : (j : ℕ) → q j ≡ (if j == s then p i else if j == i then p s else p j))
      (below : i < s) where
    middle : (s - 1) / 2 ≡ i
    middle = omega (arith, least.place)

    in_use : s < count
    in_use = ground (arith, least.place)

    moved-order : (j : ℕ) → 0 < j → j < count → (j - 1) / 2 ≢ s → q ((j - 1) / 2) ≤ q j
    moved-order j pos lt differ = elim (Bool-cases (j == s)) [
      | inl js ↦
          let up : (j - 1) / 2 ≡ i = ground (arith, js, middle) in
          ground (arith, js, up, swapped j, swapped ((j - 1) / 2), least.own)
      | inr other ↦ elim (Bool-cases ((j - 1) / 2 == i)) [
        | inl up ↦
            let least_j = least-child j pos lt ((==_iff _ _).0 up) in
            let apart : (j == i) ≡ false = ground (arith, up) in
            ground (arith, up, other, apart, swapped j, swapped ((j - 1) / 2), least_j)
        | inr away ↦ elim (Bool-cases (j == i)) [
          | inl ji ↦
              let same : p ((j - 1) / 2) ≡ p ((i - 1) / 2) =
                ap (λ (k : ℕ). p ((k - 1) / 2)) ((==_iff _ _).0 ji) in
              let over = h.over s (ground (arith, ji)) (omega arith) in_use middle in
              ground (arith, ji, away, other, same, over, swapped j, swapped ((j - 1) / 2), differ)
          | inr neither ↦
              let below_j = h.order j pos lt (λ e. absurd (ground (arith, away))) in
              ground
                (arith, neither, away, other, below_j, swapped j, swapped ((j - 1) / 2), differ)
        ]
      ]
    ]

    moved : IsHeapBut count q s
    moved = record {
      order = moved-order;
      over = λ j pos pos' lt e.
          let far : (j - 1) / 2 ≢ i = λ k. absurd (omega arith) in
          let below_j = h.order j pos' lt far in
          let same : p ((j - 1) / 2) ≡ p s = ap p e in
          let up : q ((s - 1) / 2) ≡ q i = ap q middle in
          ground (arith, below_j, same, up, swapped i, swapped j);
    }

-- What a swap does to the popularities.
popularity_at-swap :
    (a : List TopKItem) (i s j : ℕ)
    → i < length a
    → s < length a
    → popularity_at (swap a i s) j ≡ (
        if j == s
        then popularity_at a i
        else if j == i
        then popularity_at a s
        else popularity_at a j)
popularity_at-swap a i s j hi hs =
    ap (λ (x : TopKItem). x.popularity)
      (item_at-set (set a i (item_at a s)) s j (item_at a i)
        (omega (arith, length-set a i (item_at a s))))
    ∙ ground (arith, item_at-set a i j (item_at a s))

heapify_loop-IsHeap :
    (fuel : ℕ) (a : List TopKItem) (count i : ℕ)
    → count ≤ fuel + i
    → count ≤ length a
    → i < count
    → IsHeapBut count (popularity_at a) i
    → IsHeap count (popularity_at (heapify_loop fuel a count i))
heapify_loop-IsHeap zero a count i f le lt h = absurd (omega arith)
heapify_loop-IsHeap (suc fuel) a count i f le lt h =
    let least = smallest_of-Least a count i in
    elim (Bool-cases (smallest_of a count i == i)) [
      | inl same ↦
          let stays = (==_iff _ _).0 same in
          rw (heapify_loop-stays (suc fuel) a count i stays)
            (settled count (popularity_at a) i (smallest_of a count i) least h stays)
      | inr other ↦
          let below : i < smallest_of a count i =
            ground (arith, other, smallest_of_bounds a count i) in
          let used : smallest_of a count i < count =
            ground (arith, other, smallest_of_bounds a count i) in
          rw (heapify_loop_step fuel a count i, other)
            (heapify_loop-IsHeap fuel (swap a i (smallest_of a count i)) count
              (smallest_of a count i) (omega arith)
              (omega (
                arith,
                length-set (set a i (item_at a (smallest_of a count i))) (smallest_of a count i)
                    (item_at a i),
                length-set a i (item_at a (smallest_of a count i)),
              ))
              used
              (moved count (popularity_at a) i (smallest_of a count i) least h
                (popularity_at (swap a i (smallest_of a count i)))
                (λ j. popularity_at-swap a i (smallest_of a count i) j (omega arith) (omega arith))
                below))
    ]

-- From an item in use that alone may be out of order as a parent, `heapify` restores the order of
-- the whole heap.
pub heapify-IsHeap :
    (a : List TopKItem) (count i : ℕ)
    → count ≤ length a
    → i < count
    → IsHeapBut count (popularity_at a) i
    → IsHeap count (popularity_at (heapify a count i))
unfolding heapify
heapify-IsHeap a count i le lt h = heapify_loop-IsHeap count a count i (omega arith) le lt h
