-- ===== src/Store/HashTable.antt =====
-- What the store relies on of TommyDS: `tommy_hashlin_init`, `tommy_hashlin_insert`,
-- `tommy_hashlin_search` and `tommy_strhash_u32`. A data pointer and a hash are numbers.
use orbit_cache_public.Prelude.{
  ℕ, ◌≡◌, refl, Bool, ◌&&◌, List, [], ◌∷◌, ◌++◌, Option, none, some, ◌==◌, if◌then◌else◌, length,
}

-- The first of the inserted objects that has this hash and passes the comparison.
abbrev pub find_first : (ℕ → Bool) → ℕ → List (ℕ × ℕ) → Option ℕ
find_first matches hash [] = none
find_first matches hash ((obj, h) ∷ rest) =
    if h == hash && matches obj then some obj else find_first matches hash rest

-- `contents` is the table's history, for the laws only: all objects with their hashes, in the order
-- of insertion.
pub record Tommy : Type 1 where
  pub Hashlin : Type 0
  pub init : Hashlin
  pub insert : Hashlin → ℕ → ℕ → Hashlin
  pub search : Hashlin → (ℕ → Bool) → ℕ → Option ℕ
  pub strhash_u32 : List ℕ → ℕ
  pub contents : Hashlin → List (ℕ × ℕ)
  pub contents-init : contents init ≡ []
  pub contents-insert :
      (t : Hashlin) (obj hash : ℕ) → contents (insert t obj hash) ≡ contents t ++ (obj, hash) ∷ []
  pub search-eq-find_first :
      (t : Hashlin) (matches : ℕ → Bool) (hash : ℕ)
      → search t matches hash ≡ find_first matches hash (contents t)

-- A table that keeps its history, with the length as the hash of a string, meets the laws.
abbrev pub list_tommy : Tommy
list_tommy = record {
  Hashlin = List (ℕ × ℕ);
  init = [];
  insert = λ t obj hash. t ++ (obj, hash) ∷ [];
  search = λ t matches hash. find_first matches hash t;
  strhash_u32 = length;
  contents = λ t. t;
  contents-init = refl;
  contents-insert = λ t obj hash. refl;
  search-eq-find_first = λ t matches hash. refl;
}
