-- ===== src/Examples/BufferRuns.antt =====
-- The cache's theorems at a pool with one dirty block over the device in memory.
use mofs.Base.{ℕ, ◌+◌, ◌≡◌, refl, true, false, [], ◌∷◌, arith}
use mofs.Base.Run.{Ends}
use mofs.RawIo.{dev_block}
use mofs.Store.{splice}
use mofs.Buffer.{
  Entry, Cache, zero_entry, put_entry, bcache_init, bcache_read_blocks, bcache_write_blocks,
  bcache_modify_block, bcache_invalidate, bcache_flush, victim_index,
}
use mofs.Buffer.View.{Inv, view, Holds, put_entry-Inv}
use mofs.Buffer.Steps.{Keeps}
use mofs.Buffer.Load.{Unseen, GotView}
use mofs.Buffer.Transfer.{Puts, bcache_read_blocks-Ends, bcache_write_blocks-Ends}
use mofs.Buffer.Evict.{Victim, victim_index-Victim}
use mofs.Buffer.Patch.{bcache_modify_block-Ends, bcache_invalidate-Ends}
use mofs.Buffer.Flush.{bcache_flush-Ends}
use mofs.Buffer.Life.{Started, Rolled, bcache_init-Ends}
use mofs.Examples.Memory.{Memory, in_memory, small}

abbrev pub fresh : Cache Memory
fresh = record {
  pool = λ j. zero_entry;
  ready = false;
  tick = 0;
  mutex = false;
  world = record { bytes = λ a. a + 7; pos = 0 };
}

abbrev idle : Cache Memory
idle = record fresh {
  pool = λ j. record zero_entry { block = 0 ∷ 0 ∷ 0 ∷ 0 ∷ [] };
  ready = true;
  mutex = true;
}

nothing_held : (i b : ℕ) → Holds idle i b → ⊥
nothing_held i b h = let out : false ≡ true = h.1.0 in cc

idle-Inv : Inv in_memory small idle
idle-Inv = record {
  is_ready = refl;
  whole = λ i p. refl;
  clean = λ i p v. absurd (nothing_held i 0 (p, (v, refl)));
  distinct = λ i j b h. absurd (nothing_held i b h);
}

abbrev dirty_entry : Entry
dirty_entry = record {
  valid = true;
  dirty = true;
  blk_num = 3;
  lru_tick = 0;
  block = 9 ∷ 8 ∷ 7 ∷ 6 ∷ [];
}

abbrev pub warm : Cache Memory
warm = put_entry idle 0 dirty_entry

pub warm-Inv : Inv in_memory small warm
warm-Inv = put_entry-Inv in_memory small 0 dirty_entry idle-Inv (record {
  in_pool = omega arith;
  whole = refl;
  clean = λ _ q. absurd (clash q);
  alone = λ _ i h. absurd (nothing_held i 3 h);
})
  where
    clash : true ≡ false → ⊥
    clash q = cc

bcache_init_example :
    Ends
      (Started in_memory small fresh)
      (Rolled in_memory small fresh)
      (bcache_init in_memory small fresh)
bcache_init_example =
    bcache_init-Ends in_memory small {c = fresh}
      (record { not_ready = refl; no_memory = λ j. refl })

bcache_read_blocks_example :
    Ends
      (λ r d. Unseen in_memory small warm d × GotView in_memory small warm 5 r)
      (λ _ d. Unseen in_memory small warm d)
      (bcache_read_blocks in_memory small 1 5 warm)
bcache_read_blocks_example =
    bcache_read_blocks-Ends in_memory small {c = warm} 5 (omega arith) warm-Inv

bcache_write_blocks_example :
    Ends
      (λ r d.
        (r.written_blk_num ≡ 1)
        × (r.fraction ≡ 0)
        × Puts in_memory small warm 3 (1 ∷ 2 ∷ 3 ∷ 4 ∷ []) d)
      (λ _ d. Unseen in_memory small warm d)
      (bcache_write_blocks in_memory small (1 ∷ 2 ∷ 3 ∷ 4 ∷ []) 1 3 warm)
bcache_write_blocks_example =
    bcache_write_blocks-Ends in_memory small {c = warm} (1 ∷ 2 ∷ 3 ∷ 4 ∷ []) 3 (omega arith) refl
      warm-Inv

bcache_modify_block_example :
    Ends
      (λ _ d. Puts in_memory small warm 3 (splice (view in_memory small warm 3) 1 (5 ∷ 5 ∷ [])) d)
      (λ _ d. Unseen in_memory small warm d)
      (bcache_modify_block in_memory small 3 1 (5 ∷ 5 ∷ []) warm)
bcache_modify_block_example =
    bcache_modify_block-Ends in_memory small {c = warm} 3 1 (5 ∷ 5 ∷ []) (omega arith) warm-Inv

bcache_invalidate_example :
    Ends
      (λ _ d. Puts in_memory small warm 3 (dev_block in_memory small warm.world 3) d)
      (λ _ d. ⊥)
      (bcache_invalidate in_memory small 3 warm)
bcache_invalidate_example = bcache_invalidate-Ends in_memory small {c = warm} 3 warm-Inv

bcache_flush_example :
    Ends
      (λ _ d.
        Keeps in_memory small warm d
        × ((b : ℕ) → dev_block in_memory small d.world b ≡ view in_memory small warm b))
      (λ _ d. Keeps in_memory small warm d)
      (bcache_flush in_memory small warm)
bcache_flush_example = bcache_flush-Ends in_memory small {c = warm} warm-Inv

victim_index_example : Victim warm.pool (victim_index warm.pool)
victim_index_example = victim_index-Victim warm.pool
