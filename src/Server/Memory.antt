-- ===== src/Server/Memory.antt =====
-- What the worker's code finds outside its own variables: the bytes behind two arrays on its
-- stack, the stack that is left, and whether `malloc` succeeds.
pub mod Laws
use orbit_cache_public.Prelude.{
  ℕ, ◌+◌, ◌-◌, ◌^◌, ◌≤◌, ◌≡◌, Bool, true, List, [], ◌∷◌, ◌++◌, u64, replicate, ltb, if◌then◌else◌,
  set,
}
use orbit_cache_public.Text.{until_nul}
use orbit_cache_public.Store.HashTable.{Tommy}
use orbit_cache_public.Store.{Store}
use orbit_cache_public.Run.{Run, ok, fault, stack_overflow, guard, ◌>>=◌, ◌>>◌}

pub record Memory : Type 0 where
  -- Behind `keyStr`, `valueStr` when a request is served, and `valueStr` when data is loaded.
  pub after_key : List ℕ
  pub after_value : List ℕ
  pub stack_left : ℕ
  pub malloc_ok : Bool

-- The bytes that `memset(.., 'A', n)` writes.
unfoldable pub letters : ℕ → List ℕ
letters n = replicate n b'A'

-- `char valueStr[value_size]; memset(valueStr, 'A', value_size)`, as the string that `strdup` reads:
-- no NUL is written, so it goes on into the bytes behind the array.
unfoldable pub value_str : Memory → ℕ → Run (List ℕ)
value_str memory value_size = do
  guard (if ltb memory.stack_left value_size then Bool.false else Bool.true) stack_overflow
  ok (until_nul (letters value_size ++ memory.after_value))

-- `value_size = n - head`, in `size_t`.
abbrev pub size_t_sub : ℕ → ℕ → ℕ
size_t_sub n head = u64 (n + 2 ^ 64 - head)

-- After a request: the receive buffer, the store, and the datagrams sent to the client, in order.
pub record Served (tommy : Tommy) (Hdr : Type 0) : Type 0 where
  pub buf : Hdr
  pub hashlin : Store tommy
  pub sent : List (List ℕ)

-- The array of a write has room on the stack, and the byte behind it is a NUL; `malloc` gives memory.
pub record Room (m : ℕ) (memory : Memory) : Type 0 where
  pub stack : m ≤ memory.stack_left
  pub malloc : memory.malloc_ok ≡ true
  pub ends : until_nul memory.after_value ≡ []
