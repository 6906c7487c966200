-- ===== src/Popularity/Sketch/Laws.antt =====
-- The rows of the sketch are all the same, and what an estimate counts.
use orbit_cache_public.Prelude.{
  ℕ, zero, suc, ◌+◌, ◌*◌, ◌≤◌, ◌<◌, ◌≡◌, refl, ap, ◌∙◌, List, [], ◌∷◌, false, ◌&&◌, ◌==◌, ltb, leb,
  u32, if◌then◌else◌, get_or, length, arith,
}
use Prim.Native.Nat.{min}
use orbit_cache_public.Text.{str_eq}
use orbit_cache_public.Text.Laws.{str_eq_iff}
use orbit_cache_public.Hash.{extend_char, murmur_hash3}
use orbit_cache_public.Popularity.Sketch.{
  hash_functions, sketch_width, int_max, hash_salts, CountMinSketch, empty_sketch, hash2_loop,
  abs_mod, hash2, increment, update_loop, update_cms, popularity_loop, get_popularity,
}

hash2_loop-salt :
    (salt salt' hash : ℕ) (key : List ℕ) → hash2_loop salt hash key ≡ hash2_loop salt' hash key
unfolding hash2_loop murmur_hash3
hash2_loop-salt salt salt' hash [] = refl
hash2_loop-salt salt salt' hash (c ∷ key) =
    hash2_loop-salt salt salt' (murmur_hash3 (u32 (hash * 31 + extend_char 32 c)) salt) key

-- The five hash functions of the sketch are one: neither the index nor the salt has an effect, for
-- `murmurHash3` does not read its seed. The column that they give is within the width.
pub hash2-same :
    (i j salt salt' : ℕ) (key : List ℕ)
    → (hash2 i key salt ≡ hash2 j key salt') × (hash2 i key salt < sketch_width)
unfolding hash2
hash2-same i j salt salt' key = (ap abs_mod (hash2_loop-salt salt salt' 0 key), ground arith)

-- The column of a key, in every row.
pub column : List ℕ → ℕ
column key = hash2 0 key 0

column_lem : (i salt : ℕ) (key : List ℕ) → hash2 i key salt ≡ column key
unfolding column
column_lem i salt key = (hash2-same i 0 salt 0 key).0

update_loop_lem :
    (left i : ℕ) (cms : CountMinSketch) (key : List ℕ) (row c : ℕ)
    → update_loop left i cms key row c
      ≡ (if (leb i row && ltb row (i + left)) && c == column key then cms row c + 1 else cms row c)
unfolding update_loop
update_loop_lem zero i cms key row c = ground arith
update_loop_lem (suc left) i cms key row c = ground (
  arith,
  update_loop_lem left (i + 1) (increment cms i (hash2 i key (get_or hash_salts i 0))) key row c,
  column_lem i (get_or hash_salts i 0) key,
)

module _ (cms : CountMinSketch) (key : List ℕ) (x : ℕ) where
  cell :
      (i : ℕ)
      → ((row : ℕ) → row < hash_functions → cms row (column key) ≡ x)
      → i < hash_functions
      → cms i (hash2 i key (get_or hash_salts i 0)) ≡ x
  cell i h lt = ap (cms i) (column_lem i (get_or hash_salts i 0) key) ∙ h i lt

  -- Once the minimum is at most the cells, it stays.
  popularity_loop-settled :
      (left i m : ℕ)
      → i + left ≤ hash_functions
      → m ≤ x
      → ((row : ℕ) → row < hash_functions → cms row (column key) ≡ x)
      → popularity_loop left i m cms key ≡ m
  unfolding popularity_loop
  popularity_loop-settled zero i m fits le h = refl
  popularity_loop-settled (suc left) i m fits le h =
      let here : cms i (hash2 i key (get_or hash_salts i 0)) ≡ x = cell i h (omega arith) in
      let same : ltb x m ≡ false = ground arith in
      rw (here, same) (popularity_loop-settled left (i + 1) m (omega arith) le h)

  popularity_step :
      (left i m : ℕ)
      → popularity_loop (suc left) i m cms key ≡ (
          let c = cms i (hash2 i key (get_or hash_salts i 0)) in
          popularity_loop left (i + 1) (if ltb c m then c else m) cms key)
  unfolding popularity_loop
  popularity_step left i m = refl

  get_popularity_lem :
      ((row : ℕ) → row < hash_functions → cms row (column key) ≡ x)
      → get_popularity cms key ≡ min x int_max
  unfolding get_popularity
  get_popularity_lem h =
      popularity_step 4 0 int_max
      ∙ ap (λ (m : ℕ). popularity_loop 4 1 m cms key)
          (ap (λ (c : ℕ). if ltb c int_max then c else int_max) (cell 0 h (omega arith))
            ∙ ground arith)
      ∙ popularity_loop-settled 4 1 (min x int_max) (omega arith) (omega arith) h

-- How many keys of a run fall into a column.
abbrev pub hits : ℕ → List (List ℕ) → ℕ
hits c [] = 0
hits c (key ∷ keys) = (if column key == c then 1 else 0) + hits c keys

abbrev pub update_all : CountMinSketch → List (List ℕ) → CountMinSketch
update_all cms [] = cms
update_all cms (key ∷ keys) = update_all (update_cms cms key) keys

update_all_lem :
    (cms : CountMinSketch) (keys : List (List ℕ)) (row c : ℕ)
    → row < hash_functions
    → update_all cms keys row c ≡ cms row c + hits c keys
unfolding update_cms
update_all_lem cms [] row c h = omega arith
update_all_lem cms (key ∷ keys) row c h =
    ground
      (arith, update_all_lem (update_cms cms key) keys row c h, update_loop_lem 5 0 cms key row c)

abbrev pub occurrences : List ℕ → List (List ℕ) → ℕ
occurrences key [] = 0
occurrences key (k ∷ keys) = (if str_eq key k then 1 else 0) + occurrences key keys

occurrences-le-hits :
    (key : List ℕ) (keys : List (List ℕ)) → occurrences key keys ≤ hits (column key) keys
occurrences-le-hits key [] = omega arith
occurrences-le-hits key (k ∷ keys) = ground (arith, str_eq_iff key k, occurrences-le-hits key keys)

hits-le-length : (c : ℕ) (keys : List (List ℕ)) → hits c keys ≤ length keys
hits-le-length c [] = omega arith
hits-le-length c (key ∷ keys) = ground (arith, hits-le-length c keys)

-- After a run of at most `INT_MAX` updates on a fresh sketch no counter is above `INT_MAX`, so that no
-- `int` has overflowed; the estimate of a key is the number of keys of the run that share its column,
-- which is not below the key's own occurrences.
pub get_popularity-update_all :
    (keys : List (List ℕ)) (key : List ℕ)
    → length keys ≤ int_max
    → (get_popularity (update_all empty_sketch keys) key ≡ hits (column key) keys)
      × (occurrences key keys ≤ get_popularity (update_all empty_sketch keys) key)
      × ((row c : ℕ) → row < hash_functions → update_all empty_sketch keys row c ≤ int_max)
get_popularity-update_all keys key short = (
  estimate,
  omega (arith, estimate, occurrences-le-hits key keys),
  λ row c lt.
      omega (arith, update_all_lem empty_sketch keys row c lt, hits-le-length c keys, short),
)
  where
    estimate : get_popularity (update_all empty_sketch keys) key ≡ hits (column key) keys
    estimate =
        get_popularity_lem (update_all empty_sketch keys) key (hits (column key) keys)
          (λ row lt. update_all_lem empty_sketch keys row (column key) lt ∙ omega arith)
        ∙ omega (arith, hits-le-length (column key) keys, short)
