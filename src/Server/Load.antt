-- ===== src/Server/Load.antt =====
-- server.c, the data preparation of a worker: it stores the keys of its own partition.
pub mod Value
pub mod Laws
pub mod Holds
use orbit_cache_public.Prelude.{
  ℕ, zero, suc, ◌+◌, ◌%◌, Bool, ◌&&◌, List, [], ◌++◌, ◌==◌, leb, if◌then◌else◌, get_or, set,
}
use orbit_cache_public.Text.{until_nul, str_eq}
use orbit_cache_public.Key.{tostring_key}
use orbit_cache_public.Packet.{small_value, large_value}
use orbit_cache_public.Routing.{dst_ip, dst_addr, partition_of}
use orbit_cache_public.Store.HashTable.{Tommy}
use orbit_cache_public.Store.{Store, tommy_hashlin_init, tommy_put_init}
use orbit_cache_public.Server.Memory.{Memory, letters}

abbrev pub lratio : ℕ
lratio = 18

abbrev pub dataset_size : ℕ
dataset_size = 10000000

-- `char valueStr[size]; memset(valueStr, 'A', size); valueStr[size] = '\0'`, as a string: the NUL
-- goes to the byte behind the array.
unfoldable pub initial_value : Memory → ℕ → List ℕ
initial_value memory size = until_nul (letters size ++ set memory.after_value 0 0)

-- What a worker knows of itself: the address of its host, its partition, the number of workers.
pub record Place : Type 0 where
  pub ipaddr : List ℕ
  pub partition_id : ℕ
  pub num_srv_workers : ℕ

module _ (tommy : Tommy) (memory : Memory) (place : Place) (rand : ℕ → ℕ) where
  -- One round of the loop; `rand i` is the draw that the round of key `i` makes.
  load_key : ℕ → List ℕ → Store tommy → Store tommy
  load_key i key_str hashlin =
      let key = until_nul (key_str ++ memory.after_key) in
      let value =
        if leb lratio (rand i % 100)
        then initial_value memory small_value
        else initial_value memory large_value in
      if str_eq (get_or dst_ip (dst_addr key) []) place.ipaddr
        && partition_of place.num_srv_workers key == place.partition_id
      then tommy_put_init tommy memory.malloc_ok hashlin key value
      else hashlin

  -- The rounds from `i` on; `key_str` is the array `keyStr`, which each round fills again.
  load_loop : ℕ → ℕ → List ℕ → Store tommy → Store tommy
  load_loop zero i key_str hashlin = hashlin
  load_loop (suc left) i key_str hashlin =
      let filled = tostring_key i key_str in
      load_loop left (i + 1) filled (load_key i filled hashlin)

  -- The loop over the first `size` numbers; the program's size is `dataset_size`.
  unfoldable pub prepare_data : ℕ → List ℕ → Store tommy
  unfolding load_key load_loop
  prepare_data size key_str = load_loop size 0 key_str (tommy_hashlin_init tommy)
