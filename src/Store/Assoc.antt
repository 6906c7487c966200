-- ===== src/Store/Assoc.antt =====
-- The abstract view of a store: the list of its key-value pairs, the first of a key counts.
use orbit_cache_public.Prelude.{
  ℕ, ◌≡◌, refl, List, [], ◌∷◌, ◌++◌, Option, none, some, if◌then◌else◌, arith,
}
use orbit_cache_public.Text.{str_eq}
use orbit_cache_public.Text.Laws.{str_eq_iff}

-- `struct kv_hdr`; its `node` is the table's.
pub record KvHdr : Type 0 where
  pub key : List ℕ
  pub value : List ℕ

abbrev pub blank_kv : KvHdr
blank_kv = record { key = []; value = [] }

abbrev pub find_value : List ℕ → List KvHdr → Option (List ℕ)
find_value key [] = none
find_value key (kv ∷ kvs) = if str_eq key kv.key then some kv.value else find_value key kvs

-- The first pair of the key gets the value; a key that is not there is added.
abbrev pub put_value : List ℕ → List ℕ → List KvHdr → List KvHdr
put_value key value [] = record { key = key; value = value } ∷ []
put_value key value (kv ∷ kvs) =
    if str_eq key kv.key then record kv { value = value } ∷ kvs else kv ∷ put_value key value kvs

pub find_value-put_value :
    (key key' value : List ℕ) (kvs : List KvHdr)
    → find_value key' (put_value key value kvs)
      ≡ (if str_eq key key' then some value else find_value key' kvs)
find_value-put_value key key' value [] = ground (arith, str_eq_iff key key', str_eq_iff key' key)
find_value-put_value key key' value (kv ∷ kvs) = ground (
  arith,
  str_eq_iff key key',
  str_eq_iff key kv.key,
  str_eq_iff key' kv.key,
  find_value-put_value key key' value kvs,
)

pub find_value-append :
    (key key' value : List ℕ) (kvs : List KvHdr)
    → find_value key' (kvs ++ record { key = key; value = value } ∷ [])
      ≡ elim (find_value key' kvs) [
        | some old ↦ some old
        | none ↦ if str_eq key' key then some value else none
      ]
find_value-append key key' value [] = refl
find_value-append key key' value (kv ∷ kvs) = ground (arith, find_value-append key key' value kvs)

-- No key stands twice.
abbrev pub IsUnique : List KvHdr → Type 0
IsUnique [] = Unit
IsUnique (kv ∷ kvs) = (find_value kv.key kvs ≡ none) × IsUnique kvs

pub put_value-IsUnique :
    (key value : List ℕ) (kvs : List KvHdr) → IsUnique kvs → IsUnique (put_value key value kvs)
put_value-IsUnique key value [] h = (refl, tt)
put_value-IsUnique key value (kv ∷ kvs) h = ground (
  arith,
  str_eq_iff key kv.key,
  find_value-put_value key kv.key value kvs,
  put_value-IsUnique key value kvs h.1,
)
