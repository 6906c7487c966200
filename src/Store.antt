-- ===== src/Store.antt =====
-- The key-value store of a server partition (header.h, `kv_hdr` to `tommy_get_init`), over the
-- bundled hash table TommyDS, which is a parameter.
-- A `kv_hdr` lives on the heap: the heap is the list of the objects that `malloc` has returned, and
-- a pointer is an index into it. The table holds pointers; a value is replaced through its pointer.
-- `EXTRA_WORK` is 0, so the calls of `DummyJob` are not made.
pub mod HashTable
pub mod Assoc
pub mod Laws
use orbit_cache_public.Prelude.{
  ℕ, Bool, List, [], ◌∷◌, ◌++◌, Option, none, some, if◌then◌else◌, length, get_or, set,
}
use mathlib.Core.Option
use orbit_cache_public.Text.{str_eq}
use orbit_cache_public.Store.HashTable.{Tommy}
use orbit_cache_public.Store.Assoc.{KvHdr, blank_kv}

module _ (tommy : Tommy) where
  open tommy use {Hashlin, init, insert, search, strhash_u32}

  pub record Store : Type 0 where
    pub heap : List KvHdr
    pub hashlin : Hashlin

  unfoldable pub tommy_hashlin_init : Store
  tommy_hashlin_init = record { heap = []; hashlin = init }

  -- The nested function `compare`: 0 for the object whose key is `key`.
  abbrev pub compare_key : List KvHdr → List ℕ → ℕ → Bool
  compare_key heap key obj = str_eq key (get_or heap obj blank_kv).key

  -- `malloc_ok` is false when `malloc` returns NULL.
  unfoldable pub tommy_put_init : Bool → Store → List ℕ → List ℕ → Store
  tommy_put_init malloc_ok s key value =
      if malloc_ok
      then record {
        heap = s.heap ++ record { key = key; value = value } ∷ [];
        hashlin = insert s.hashlin (length s.heap) (strhash_u32 key);
      }
      else s

  update_existing : Bool → Store → List ℕ → List ℕ → Option ℕ → Store
  update_existing malloc_ok s key value (some existing_kv) = record s {
    heap = set s.heap existing_kv (record (get_or s.heap existing_kv blank_kv) { value = value });
  }
  update_existing malloc_ok s key value none =
      if malloc_ok
      then record {
        heap = s.heap ++ record { key = key; value = value } ∷ [];
        hashlin = insert s.hashlin (length s.heap) (strhash_u32 key);
      }
      else s

  unfoldable pub tommy_put : Bool → Store → List ℕ → List ℕ → Store
  unfolding update_existing
  tommy_put malloc_ok s key value =
      update_existing malloc_ok s key value
        (search s.hashlin (compare_key s.heap key) (strhash_u32 key))

  -- `none` is the NULL of a key that is not stored.
  unfoldable pub tommy_get : Store → List ℕ → Option (List ℕ)
  tommy_get s key =
      Option.map (λ kv. (get_or s.heap kv blank_kv).value)
        (search s.hashlin (compare_key s.heap key) (strhash_u32 key))

  unfoldable pub tommy_get_init : Store → List ℕ → Option (List ℕ)
  tommy_get_init s key =
      Option.map (λ kv. (get_or s.heap kv blank_kv).value)
        (search s.hashlin (compare_key s.heap key) (strhash_u32 key))
