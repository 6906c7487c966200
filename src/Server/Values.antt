-- ===== src/Server/Values.antt =====
-- The abstract view of a worker's store (server.c, `hashlin`): the value of each number of the data set.
use orbit_cache_public.Prelude.{
  ℕ, ◌^◌, ◌≤◌, ◌<◌, ◌≡◌, ap, ◌∙◌, List, true, ◌==◌, ==_iff, if◌then◌else◌, Option, some, length,
  arith, Bool-cases, inl, inr,
}
use orbit_cache_public.Text.{str_eq}
use orbit_cache_public.Text.Laws.{str_eq_iff}
use orbit_cache_public.Key.Laws.{key_of, key_of-injective}
use orbit_cache_public.Packet.{max_value_size}
use orbit_cache_public.Store.HashTable.{Tommy}
use orbit_cache_public.Store.{Store, tommy_put, tommy_get}
use orbit_cache_public.Store.Laws.{IsValid, tommy_get-tommy_put}

abbrev pub Values : Type 0
Values = ℕ → Option (List ℕ)

abbrev pub updated : Values → ℕ → List ℕ → Values
updated values i v j = if i == j then some v else values j

-- Two numbers have the same key string only if they are the same.
str_eq-key_of : (i j : ℕ) → i < 2 ^ 64 → j < 2 ^ 64 → str_eq (key_of i) (key_of j) ≡ (i == j)
str_eq-key_of i j hi hj = elim (Bool-cases (i == j)) [
  | inl same ↦ rw same ((str_eq_iff (key_of i) (key_of j)).1 (ap key_of ((==_iff i j).0 same)))
  | inr other ↦ elim (Bool-cases (str_eq (key_of i) (key_of j))) [
    | inl e ↦
        absurd (
          ground
            (arith, other, key_of-injective i j hi hj ((str_eq_iff (key_of i) (key_of j)).0 e)))
    | inr e ↦ rw (other, e)
  ]
]

module _ (tommy : Tommy) where
  -- The store holds these values, each of which fits into a packet.
  pub record Holds (values : Values) (s : Store tommy) : Type 0 where
    pub valid : IsValid tommy s
    pub holds : (j : ℕ) → j < 2 ^ 64 → tommy_get tommy s (key_of j) ≡ values j
    pub small : (j : ℕ) (v : List ℕ) → values j ≡ some v → length v ≤ max_value_size

  updated-small :
      (values : Values) (i : ℕ) (w : List ℕ)
      → ((j : ℕ) (v : List ℕ) → values j ≡ some v → length v ≤ max_value_size)
      → length w ≤ max_value_size
      → (j : ℕ) (v : List ℕ) → updated values i w j ≡ some v
      → length v ≤ max_value_size
  updated-small values i w h le j v e = ground (arith, e, h j v)

  pub tommy_put-Holds :
      (values : Values) (s : Store tommy) (i : ℕ) (w : List ℕ)
      → Holds values s
      → i < 2 ^ 64
      → length w ≤ max_value_size
      → Holds (updated values i w) (tommy_put tommy true s (key_of i) w)
  tommy_put-Holds values s i w h lt le = record {
    valid = (tommy_get-tommy_put tommy s (key_of i) w h.valid (key_of i)).0;
    holds = λ j lt'.
        (tommy_get-tommy_put tommy s (key_of i) w h.valid (key_of j)).1
        ∙ rw (str_eq-key_of i j lt lt', h.holds j lt');
    small = updated-small values i w h.small le;
  }
