-- ===== src/Store/Laws.antt =====
-- The store implements its abstract view: `tommy_get` reads it, `tommy_put` and `tommy_put_init`
-- write it, whatever hash table meets the laws of `Tommy`.
use orbit_cache_public.Prelude.{
  ℕ, suc, ◌+◌, ◌<◌, ◌≡◌, refl, sym, ap, subst, ==_iff, ◌⊎◌, ◌∙◌, Bool, true, false, List, [], ◌∷◌,
  ◌++◌, Option, none, some, if◌then◌else◌, get_or, set, arith, length, Bool-cases, inl, inr,
}
use orbit_cache_public.Text.{str_eq}
use orbit_cache_public.Text.Laws.{str_eq_iff}
use orbit_cache_public.Store.HashTable.{Tommy, find_first}
use orbit_cache_public.Store.Assoc.{
  KvHdr, blank_kv, find_value, put_value, find_value-put_value, find_value-append, IsUnique,
  put_value-IsUnique,
}
use orbit_cache_public.Store.{
  Store, compare_key, tommy_hashlin_init, tommy_put_init, tommy_put, tommy_get,
}

module _ (tommy : Tommy) where
  open tommy use {
    Hashlin, init, insert, search, strhash_u32, contents, contents-init, contents-insert,
    search-eq-find_first,
  }

  -- The objects of a heap from address `i` on, each under the hash of its key.
  abbrev entries : ℕ → List KvHdr → List (ℕ × ℕ)
  entries i [] = []
  entries i (kv ∷ heap) = (i, strhash_u32 kv.key) ∷ entries (suc i) heap

  -- The table holds the objects of the heap, in the order of their addresses.
  pub record IsValid (s : Store tommy) : Type 0 where
    pub stored : contents s.hashlin ≡ entries 0 s.heap

  -- The address of the first object with a key.
  abbrev address : ℕ → List ℕ → List KvHdr → Option ℕ
  address i key [] = none
  address i key (kv ∷ heap) = if str_eq key kv.key then some i else address (suc i) key heap

  entries-append :
      (i : ℕ) (heap : List KvHdr) (kv : KvHdr)
      → entries i (heap ++ kv ∷ []) ≡ entries i heap ++ (i + length heap, strhash_u32 kv.key) ∷ []
  entries-append i [] kv = ground arith
  entries-append i (k ∷ heap) kv = ground (arith, entries-append (suc i) heap kv)

  find_first-entries :
      (matches : ℕ → Bool) (key : List ℕ) (i : ℕ) (heap : List KvHdr)
      → ((j : ℕ) → j < length heap → matches (i + j) ≡ str_eq key (get_or heap j blank_kv).key)
      → find_first matches (strhash_u32 key) (entries i heap) ≡ address i key heap
  find_first-entries matches key i [] h = refl
  find_first-entries matches key i (kv ∷ heap) h =
      let here : matches i ≡ str_eq key kv.key =
        subst (λ k. matches k ≡ str_eq key kv.key) (omega arith) (h 0 (omega arith)) in
      let later = find_first-entries matches key (suc i) heap λ j lt.
        subst (λ k. matches k ≡ str_eq key (get_or heap j blank_kv).key) (omega arith)
          (h (suc j) (omega arith)) in
      elim (Bool-cases (str_eq key kv.key)) [
        | inl same ↦ rw (
          here,
          same,
          ← (str_eq_iff key kv.key).0 same,
          (==_iff (strhash_u32 key) (strhash_u32 key)).1 refl,
        )
        | inr other ↦ ground (arith, here, other, later)
      ]

  search-eq-address :
      (s : Store tommy) (key : List ℕ)
      → IsValid s
      → search s.hashlin (compare_key tommy s.heap key) (strhash_u32 key) ≡ address 0 key s.heap
  search-eq-address s key v =
      search-eq-find_first s.hashlin (compare_key tommy s.heap key) (strhash_u32 key)
      ∙ ap (find_first (compare_key tommy s.heap key) (strhash_u32 key)) v.stored
      ∙ find_first-entries (compare_key tommy s.heap key) key 0 s.heap
          (λ j lt. ap (λ k. str_eq key (get_or s.heap k blank_kv).key) (omega arith))

  -- What an address says of the object that it leads to.
  abbrev Found : List ℕ → List ℕ → List KvHdr → ℕ → Type 0
  Found key value heap j =
      (j < length heap)
      × (set heap j (record (get_or heap j blank_kv) { value = value }) ≡ put_value key value heap)
      × (find_value key heap ≡ some (get_or heap j blank_kv).value)
      × ((i : ℕ) → entries i (put_value key value heap) ≡ entries i heap)

  abbrev NotFound : List ℕ → List ℕ → List KvHdr → Type 0
  NotFound key value heap =
      (put_value key value heap ≡ heap ++ record { key = key; value = value } ∷ [])
      × (find_value key heap ≡ none)

  address-cases :
      (i : ℕ) (key value : List ℕ) (heap : List KvHdr)
      → ((address i key heap ≡ none) × NotFound key value heap)
        ⊎ ((j : ℕ) × (address i key heap ≡ some (i + j)) × Found key value heap j)
  address-cases i key value [] = inl (refl, (refl, refl))
  address-cases i key value (kv ∷ heap) = elim (Bool-cases (str_eq key kv.key)) [
    | inl same ↦
        inr (0, rw same (ap some (omega arith)), (omega arith, rw same, rw same, λ k. rw same))
    | inr other ↦ elim (address-cases (suc i) key value heap) [
      | inl (a, (b, c)) ↦ inl (rw other a, (rw other (ap (◌∷◌ kv) b), rw other c))
      | inr (j, a, (b, c, d, e)) ↦ inr (
        suc j,
        rw other (a ∙ ap some (omega arith)),
        (
          omega arith,
          rw other (ap (◌∷◌ kv) c),
          rw other d,
          λ k. rw other (ap (◌∷◌ (k, strhash_u32 kv.key)) (e (suc k))),
        ),
      )
    ]
  ]

  at_zero : {o : Option ℕ} {j : ℕ} → o ≡ some (0 + j) → o ≡ some j
  at_zero a = a ∙ ap some (omega arith)

  pub init-IsValid : IsValid (tommy_hashlin_init tommy)
  unfolding tommy_hashlin_init
  init-IsValid = record { stored = contents-init }

  -- On a valid store `tommy_get` is a search of the abstract list.
  pub tommy_get-eq-find_value :
      (s : Store tommy) (key : List ℕ) → IsValid s → tommy_get tommy s key ≡ find_value key s.heap
  unfolding tommy_get
  tommy_get-eq-find_value s key v = elim (address-cases 0 key [] s.heap) [
    | inl (a, (b, c)) ↦ rw (search-eq-address s key v, a, c)
    | inr (j, a, (b, c, d, e)) ↦ rw (search-eq-address s key v, at_zero a, d)
  ]

  pub tommy_get-init : (key : List ℕ) → tommy_get tommy (tommy_hashlin_init tommy) key ≡ none
  tommy_get-init key =
      rw (tommy_get-eq-find_value (tommy_hashlin_init tommy) key init-IsValid)
        (unfold tommy_hashlin_init in refl)

  push-IsValid :
      (s : Store tommy) (kv : KvHdr)
      → IsValid s
      → contents (insert s.hashlin (length s.heap) (strhash_u32 kv.key))
        ≡ entries 0 (s.heap ++ kv ∷ [])
  push-IsValid s kv v =
      contents-insert s.hashlin (length s.heap) (strhash_u32 kv.key)
      ∙ ap (λ l. l ++ (length s.heap, strhash_u32 kv.key) ∷ []) v.stored
      ∙ sym (
          entries-append 0 s.heap kv
          ∙ ap (λ n. entries 0 s.heap ++ (n, strhash_u32 kv.key) ∷ []) (omega arith))

  module _ (s : Store tommy) (key value : List ℕ) (v : IsValid s) where
    pub heap-tommy_put : (tommy_put tommy true s key value).heap ≡ put_value key value s.heap
    unfolding tommy_put
    heap-tommy_put = elim (address-cases 0 key value s.heap) [
      | inl (a, (b, c)) ↦ rw (search-eq-address s key v, a, b)
      | inr (j, a, (b, c, d, e)) ↦ rw (search-eq-address s key v, at_zero a, c)
    ]

    tommy_put-IsValid : IsValid (tommy_put tommy true s key value)
    unfolding tommy_put
    tommy_put-IsValid = elim (address-cases 0 key value s.heap) [
      | inl (a, (b, c)) ↦ rw (search-eq-address s key v, a) (record { stored = push-IsValid s _ v })
      | inr (j, a, (b, c, d, e)) ↦
          rw (search-eq-address s key v, at_zero a, c) (record { stored = v.stored ∙ sym (e 0) })
    ]

    -- Where `malloc` succeeds, `tommy_put` keeps a store valid, and then `tommy_get` gives the new
    -- value for the key and what it gave before for every other key.
    pub tommy_get-tommy_put :
        (key' : List ℕ)
        → IsValid (tommy_put tommy true s key value)
          × (tommy_get tommy (tommy_put tommy true s key value) key'
              ≡ (if str_eq key key' then some value else tommy_get tommy s key'))
    tommy_get-tommy_put key' = (
      tommy_put-IsValid,
      rw
          (
            tommy_get-eq-find_value (tommy_put tommy true s key value) key' tommy_put-IsValid,
            heap-tommy_put,
            tommy_get-eq-find_value s key' v,
          )
          (find_value-put_value key key' value s.heap),
    )

    -- Where `malloc` fails, `tommy_put` leaves the store as it is if the key is new, and else does
    -- what it does where `malloc` succeeds.
    pub tommy_put-no_memory :
        tommy_put tommy false s key value
        ≡ elim (tommy_get tommy s key) [ none ↦ s | some old ↦ tommy_put tommy true s key value ]
    unfolding tommy_put
    tommy_put-no_memory = elim (address-cases 0 key value s.heap) [
      | inl (a, (b, c)) ↦ rw (tommy_get-eq-find_value s key v, search-eq-address s key v, a, c)
      | inr (j, a, (b, c, d, e)) ↦
          rw (tommy_get-eq-find_value s key v, d, tommy_put, search-eq-address s key v, a)
    ]

    -- No key has two objects after a `tommy_put`, if none had before.
    pub tommy_put-IsUnique : IsUnique s.heap → IsUnique (tommy_put tommy true s key value).heap
    tommy_put-IsUnique h = rw heap-tommy_put (put_value-IsUnique key value s.heap h)

    tommy_put_init-IsValid : IsValid (tommy_put_init tommy true s key value)
    unfolding tommy_put_init
    tommy_put_init-IsValid = record { stored = push-IsValid s _ v }

    -- Where `malloc` succeeds, `tommy_put_init` keeps a store valid and adds the pair behind the
    -- others: a key that had a value keeps it, and only a new key gets the given one.
    pub tommy_get-tommy_put_init :
        (key' : List ℕ)
        → IsValid (tommy_put_init tommy true s key value)
          × (tommy_get tommy (tommy_put_init tommy true s key value) key'
              ≡ elim (tommy_get tommy s key') [
                | some old ↦ some old
                | none ↦ if str_eq key' key then some value else none
              ])
    tommy_get-tommy_put_init key' = (
      tommy_put_init-IsValid,
      rw
          (
            tommy_get-eq-find_value (tommy_put_init tommy true s key value) key'
                tommy_put_init-IsValid,
            tommy_get-eq-find_value s key' v,
          )
          (unfold tommy_put_init in find_value-append key key' value s.heap),
    )
