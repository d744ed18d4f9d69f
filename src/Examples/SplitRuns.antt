-- ===== src/Examples/SplitRuns.antt =====
-- The theorems on the cache in two pools, at calls over the device in memory, of a volume whose data begins at
-- block 2.
use mofs.Base.{◌+◌, ◌≡◌, ◌≢◌, zero, suc, refl, arith, true, false, [], ◌∷◌}
use mofs.Base.Run.{Ends}
use mofs.Core.{Superblock}
use mofs.Buffer.{zero_entry}
use mofs.Base.Scan.{first_index}
use mofs.RawIo.{read_continuous_blocks_raw}
use mofs.SplitPool.{
  pool_alloc, pool_alloc_loop, pool_touch, pool_find, pool_victim, pool_evict, pool_get_victim,
  pool_read_into, pool_load_block, split_store, split_write_block, split_slot, split_patch,
}
use mofs.SplitBuffer.{
  select, split_init_mutex, split_init_pools, split_write_loop, SplitCache, is_metadata_block,
  split_init, split_write_blocks, split_modify_block, split_read_blocks,
}
use mofs.SplitBuffer.Calls.{left, none_yet, after, init, write, patched, Calls-Apart}
use mofs.SplitBuffer.Routes.{Spares, OneSide, transfers-Spares}
use mofs.Examples.Memory.{Memory, in_memory, small}

abbrev two_sides : Superblock
two_sides = record small { data_region_start = 2 }

abbrev at_first : SplitCache Memory
at_first = record {
  meta_pool = λ j. zero_entry;
  meta_tick = 0;
  data_pool = λ j. zero_entry;
  data_tick = 0;
  ready = false;
  mutex = false;
  world = record { bytes = λ a. a + 7; pos = 0 };
}

abbrev started : SplitCache Memory
started = left (split_init in_memory two_sides at_first)

abbrev written : SplitCache Memory
written =
    left (split_write_blocks in_memory two_sides (1 ∷ 2 ∷ 3 ∷ 4 ∷ 5 ∷ 6 ∷ 7 ∷ 8 ∷ []) 2 1 started)

abbrev changed : SplitCache Memory
changed = left (split_modify_block in_memory two_sides 0 1 (9 ∷ []) written)

in_meta : (changed.meta_pool 0).valid ≡ true
unfolding select split_init split_init_mutex split_init_pools split_write_blocks split_write_loop
    split_modify_block is_metadata_block pool_alloc pool_alloc_loop pool_touch pool_find pool_victim
    pool_evict pool_get_victim pool_read_into pool_load_block split_store split_write_block
    split_slot split_patch read_continuous_blocks_raw first_index
in_meta = refl

in_data : (changed.data_pool 0).valid ≡ true
unfolding select split_init split_init_mutex split_init_pools split_write_blocks split_write_loop
    split_modify_block is_metadata_block pool_alloc pool_alloc_loop pool_touch pool_find pool_victim
    pool_evict pool_get_victim pool_read_into pool_load_block split_store split_write_block
    split_slot split_patch read_continuous_blocks_raw first_index
in_data = refl

Calls-Apart_example :
    (is_metadata_block two_sides (changed.meta_pool 0).blk_num ≡ true)
    × (is_metadata_block two_sides (changed.data_pool 0).blk_num ≡ false)
    × ((changed.meta_pool 0).blk_num ≢ (changed.data_pool 0).blk_num)
Calls-Apart_example =
    Calls-Apart in_memory two_sides {c = at_first} {d = changed} 0 0
      (record { no_meta = λ i. refl; no_data = λ i. refl })
      (after (after (after none_yet init) (write (1 ∷ 2 ∷ 3 ∷ 4 ∷ 5 ∷ 6 ∷ 7 ∷ 8 ∷ []) 2 1))
        (patched 0 1 (9 ∷ [])))
      in_meta in_data

-- block 3, in the data region
third_side : OneSide in_memory two_sides false 3 0 1
third_side zero p q = omega arith
third_side (suc j) p q = absurd (omega arith)

transfers-Spares_example :
    Ends
      (λ _ d. Spares in_memory two_sides false written d)
      (λ _ d. Spares in_memory two_sides false written d)
      (split_read_blocks in_memory two_sides 1 3 written)
    × Ends
        (λ _ d. Spares in_memory two_sides false written d)
        (λ _ d. Spares in_memory two_sides false written d)
        (split_write_blocks in_memory two_sides (4 ∷ 3 ∷ 2 ∷ 1 ∷ []) 1 3 written)
transfers-Spares_example =
    transfers-Spares in_memory two_sides false (4 ∷ 3 ∷ 2 ∷ 1 ∷ []) 1 3 written third_side
