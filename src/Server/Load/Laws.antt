-- ===== src/Server/Load/Laws.antt =====
-- What a worker holds after its data preparation.
use orbit_cache_public.Prelude.{
  ℕ, zero, suc, ◌+◌, ◌^◌, ◌≤◌, ◌<◌, ◌≡◌, subst, Bool, true, ◌&&◌, List, [], ◌==◌, ltb,
  if◌then◌else◌, get_or, none, some, arith, length, Bool-cases, inl, inr,
}
use orbit_cache_public.Text.{str_eq}
use orbit_cache_public.Text.Laws.{str_eq_iff}
use orbit_cache_public.Key.{tostring_key}
use orbit_cache_public.Key.Laws.{key_of, key_of-injective, tostring_key-IsKey, length-tostring_key}
use orbit_cache_public.Packet.{small_value, large_value}
use orbit_cache_public.Routing.{dst_ip, dst_addr, partition_of}
use orbit_cache_public.Store.HashTable.{Tommy}
use orbit_cache_public.Store.{Store, tommy_hashlin_init, tommy_put_init, tommy_get}
use orbit_cache_public.Store.Laws.{IsValid, init-IsValid, tommy_get-tommy_put_init, tommy_get-init}
use orbit_cache_public.Server.Memory.{Memory}
use orbit_cache_public.Server.Load.Value.{drawn_value, initial_value-eq-letters}
use orbit_cache_public.Server.Load.{Place, load_key, load_loop, prepare_data}

-- The server's address and the worker's number are those that the key leads to.
unfoldable pub belongs : Place → List ℕ → Bool
belongs place key =
    str_eq (get_or dst_ip (dst_addr key) []) place.ipaddr
    && partition_of place.num_srv_workers key == place.partition_id

module _ (tommy : Tommy) (memory : Memory) (place : Place) (rand : ℕ → ℕ)
    (no_failure : memory.malloc_ok ≡ true) where
  -- The keys below `i` that belong here are stored, and no other key of the data set.
  record Loaded (i : ℕ) (s : Store tommy) : Type 0 where
    valid : IsValid tommy s
    holds :
        (j : ℕ)
        → j < 2 ^ 64
        → tommy_get tommy s (key_of j)
          ≡ (if ltb j i && belongs place (key_of j) then some (drawn_value (rand j)) else none)

  -- One round, with what it reads of `keyStr` put in.
  load_key_lem :
      (i : ℕ) (key : List ℕ) (s : Store tommy)
      → length key ≡ 16
      → load_key tommy memory place rand i (tostring_key i key) s ≡ (
          if belongs place (key_of i)
          then tommy_put_init tommy true s (key_of i) (drawn_value (rand i))
          else s)
  unfolding load_key belongs drawn_value
  load_key_lem i key s h = rw (
    tostring_key-IsKey i key memory.after_key h,
    initial_value-eq-letters memory small_value,
    initial_value-eq-letters memory large_value,
    no_failure,
  )

  Loaded-suc :
      (i : ℕ) (s : Store tommy)
      → i < 2 ^ 64
      → Loaded i s
      → Loaded (i + 1) (
          if belongs place (key_of i)
          then tommy_put_init tommy true s (key_of i) (drawn_value (rand i))
          else s)
  Loaded-suc i s h l = elim (Bool-cases (belongs place (key_of i))) [
    | inl here ↦
        let stored = tommy_get-tommy_put_init tommy s (key_of i) (drawn_value (rand i)) l.valid in
        rw here (record {
          valid = (stored []).0;
          holds = λ j hj.
              rw ((stored (key_of j)).1, l.holds j hj)
                (ground (arith, here, str_eq_iff (key_of j) (key_of i), key_of-injective j i hj h));
        })
    | inr there ↦
        rw there
          (record { valid = l.valid; holds = λ j hj. rw (l.holds j hj) (ground (arith, there)) })
  ]

  Loaded-load_loop :
      (left i n : ℕ) (key : List ℕ) (s : Store tommy)
      → i + left ≡ n
      → n ≤ 2 ^ 64
      → length key ≡ 16
      → Loaded i s
      → Loaded n (load_loop tommy memory place rand left i key s)
  unfolding load_loop
  Loaded-load_loop zero i n key s e h k l = subst (λ (m : ℕ). Loaded m s) (omega arith) l
  Loaded-load_loop (suc left) i n key s e h k l =
      Loaded-load_loop left (i + 1) n (tostring_key i key)
        (load_key tommy memory place rand i (tostring_key i key) s) (omega arith) h
        (length-tostring_key i key k) (rw (load_key_lem i key s k) (Loaded-suc i s (omega arith) l))

  -- After the data preparation over the first `size` numbers a worker holds exactly the keys that
  -- lead to its host and its partition, each with the value that its draw gives it.
  pub prepare_data_lem :
      (size : ℕ) (key : List ℕ)
      → size ≤ 2 ^ 64
      → length key ≡ 16
      → IsValid tommy (prepare_data tommy memory place rand size key)
        × ((j : ℕ)
            → j < 2 ^ 64
            → tommy_get tommy (prepare_data tommy memory place rand size key) (key_of j) ≡ (
                if ltb j size && belongs place (key_of j)
                then some (drawn_value (rand j))
                else none))
  unfolding prepare_data
  prepare_data_lem size key h k =
      let l =
        Loaded-load_loop size 0 size key (tommy_hashlin_init tommy) (omega arith) h k (record {
          valid = init-IsValid tommy;
          holds = λ j hj. rw (tommy_get-init tommy (key_of j)) (ground arith);
        }) in
      (l.valid, l.holds)
