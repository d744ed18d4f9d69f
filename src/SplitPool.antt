-- ===== src/SplitPool.antt =====
-- src/core/modules/mofs_buffer_split.c: the functions that take a pool, and what the cache's calls do in the
-- pool of one block. Each is a step on a `Half`, which has the pool, its tick counter and the platform; the
-- entries are those of mofs_buffer.c.
pub mod Owned
use mofs.Base.{
  ℕ, zero, suc, ◌+◌, ◌%◌, true, false, not, ◌&&◌, ◌||◌, Option, none, some, List, [], ◌++◌, ltb,
  ◌==◌, if◌then◌else◌, length, take, drop, update, u64_mod,
}
use mofs.Base.Run.{Run, ok, err, Cmd, pure, ◌>>=◌, ◌>>◌, fail, fail_if, get, modify, or_rollback}
use mofs.Base.Scan.{first_index}
use mofs.Errno.{eio}
use mofs.Core.{Superblock}
use mofs.Platform.{Platform}
use mofs.Store.{splice}
use mofs.RawIo.{Read, read_continuous_blocks_raw, write_continuous_blocks_raw}
use mofs.Buffer.{Entry, zero_entry, uint64_max, lru_from}

-- A pool with its tick counter, and the platform.
pub record Half (W : Type 0) : Type 0 where
  pub pool : ℕ → Entry
  pub tick : ℕ
  pub world : W

module _ {W : Type 0} where
  abbrev pub in_half : {A : Type 0} → Half W → Run W A → Run (Half W) A
  in_half h (ok a w) = ok a (record h { world = w })
  in_half h (err e w) = err e (record h { world = w })

  abbrev pub lift_half : {A : Type 0} → Cmd W A → Cmd (Half W) A
  lift_half m = λ h. in_half h (m h.world)

  -- `pool[idx] = f(pool[idx])`
  abbrev pub edit : ℕ → (Entry → Entry) → Half W → Half W
  edit idx f h = record h { pool = update h.pool idx (f (h.pool idx)) }

  unfoldable pub pool_touch : ℕ → Half W → Half W
  pool_touch idx h =
      let now = (h.tick + 1) % u64_mod in
      record (edit idx (λ e. record e { lru_tick = now }) h) { tick = now }

  unfoldable pub pool_free : Half W → Half W
  pool_free h = record h {
    pool = λ j. record (h.pool j) { block = []; valid = false; dirty = false };
  }

unfoldable pub pool_find : ℕ → ℕ → (ℕ → Entry) → Option ℕ
pool_find pool_num blk_num pool =
    first_index pool_num 0 (λ i. (pool i).valid && ((pool i).blk_num == blk_num))

-- The choice of the slot in `pool_get_victim`; its second loop is that of mofs_buffer.c.
unfoldable pub pool_victim : ℕ → (ℕ → Entry) → Option ℕ
pool_victim pool_num pool = elim (first_index pool_num 0 (λ i. not (pool i).valid)) [
  | some i ↦ some i
  | none ↦ lru_from pool_num 0 pool uint64_max none
]

module _ (os : Platform) (sb : Superblock) where
  open os use {W, malloc}

  unfoldable pub pool_flush_entry : ℕ → Cmd (Half W) (Unit {0})
  pool_flush_entry idx = do
    h ← get
    r ← lift_half (write_continuous_blocks_raw os sb (h.pool idx).block 1 (h.pool idx).blk_num)
    fail_if (not (r.written_blk_num == 1) || not (r.fraction == 0)) eio
    modify (edit idx (λ e. record e { dirty = false }))

  -- The part of `pool_get_victim` after the choice of the slot.
  unfoldable pub pool_evict : ℕ → Cmd (Half W) ℕ
  pool_evict idx = do
    h ← get
    if (h.pool idx).valid && (h.pool idx).dirty then pool_flush_entry idx else pure tt
    modify (edit idx (λ e. record e { valid = false; dirty = false }))
    pure idx

  unfoldable pub pool_get_victim : ℕ → Cmd (Half W) ℕ
  pool_get_victim pool_num = do
    h ← get
    elim (pool_victim pool_num h.pool) [ some idx ↦ pool_evict idx | none ↦ fail eio ]

  -- The raw read of a block into the buffer of an empty slot.
  unfoldable pub pool_read_into : ℕ → ℕ → Cmd (Half W) Read
  pool_read_into idx blk = do
    r ← lift_half (read_continuous_blocks_raw os sb 1 blk)
    modify (edit idx (λ e. record e { block = r.buf ++ drop (length r.buf) e.block }))
    pure r

  unfoldable pub pool_load_block : ℕ → ℕ → Cmd (Half W) ℕ
  pool_load_block pool_num blk_num = do
    idx ← pool_get_victim pool_num
    r ← pool_read_into idx blk_num
    fail_if (not (r.read_blk_num == 1) || not (r.fraction == 0)) eio
    modify (edit idx (λ e. record e { blk_num = blk_num; valid = true; dirty = false }))
    pure idx

  unfoldable pub pool_flush_all : ℕ → ℕ → Cmd (Half W) (Unit {0})
  pool_flush_all zero i = pure tt
  pool_flush_all (suc n) i = do
    h ← get
    if (h.pool i).valid && (h.pool i).dirty then pool_flush_entry i else pure tt
    pool_flush_all n (i + 1)

  -- The loop of `pool_alloc`, which frees what it has on an error.
  unfoldable pub pool_alloc_loop : ℕ → ℕ → Cmd (Half W) (Unit {0})
  pool_alloc_loop zero i = pure tt
  pool_alloc_loop (suc n) i = do
    mem ← or_rollback (lift_half (malloc sb.blk_size)) (
        modify (λ h. record h {
          pool = λ j. if ltb j i then record (h.pool j) { block = [] } else h.pool j;
        }))
    modify (edit i (λ e. record zero_entry { block = mem }))
    pool_alloc_loop n (i + 1)

  unfoldable pub pool_alloc : ℕ → Cmd (Half W) (Unit {0})
  pool_alloc pool_num = do
    modify (λ h. record h { pool = λ j. zero_entry })
    pool_alloc_loop pool_num 0

  -- The miss of `mofs_bcache_read_blocks` after the raw read; a short read is not cached.
  unfoldable pub split_load_tail : ℕ → ℕ → Read → Cmd (Half W) Read
  split_load_tail victim blk r =
      if not (r.fraction == 0)
      then pure (record { buf = take r.fraction r.buf; read_blk_num = 0; fraction = r.fraction })
      else (do
        fail_if (not (r.read_blk_num == 1)) eio
        modify (edit victim (λ e. record e { blk_num = blk; valid = true; dirty = false }))
        modify (pool_touch victim)
        h ← get
        pure (record { buf = (h.pool victim).block; read_blk_num = 1; fraction = 0 }))

  -- One round of the loop of `mofs_bcache_read_blocks`, in the block's pool.
  unfoldable pub split_read_block : ℕ → ℕ → Cmd (Half W) Read
  split_read_block blk pool_num = do
    h ← get
    elim (pool_find pool_num blk h.pool) [
      | some idx ↦ do
        modify (pool_touch idx)
        pure (record { buf = (h.pool idx).block; read_blk_num = 1; fraction = 0 })
      | none ↦ do
        victim ← pool_get_victim pool_num
        r ← pool_read_into victim blk
        split_load_tail victim blk r
    ]

  -- The copy into the slot, the dirty mark and the touch.
  unfoldable pub split_store : ℕ → (Entry → Entry) → List ℕ → Cmd (Half W) (Unit {0})
  split_store idx own buf = do
    modify (edit idx (λ e. record (own e) { block = take sb.blk_size buf; dirty = true }))
    modify (pool_touch idx)

  -- One round of the loop of `mofs_bcache_write_blocks`, in the block's pool.
  unfoldable pub split_write_block : ℕ → List ℕ → ℕ → Cmd (Half W) (Unit {0})
  split_write_block blk buf pool_num = do
    h ← get
    elim (pool_find pool_num blk h.pool) [
      | some idx ↦ split_store idx (λ e. e) buf
      | none ↦ do
        idx ← pool_get_victim pool_num
        split_store idx (λ e. record e { blk_num = blk; valid = true }) buf
    ]

  unfoldable pub split_slot : ℕ → ℕ → Cmd (Half W) ℕ
  split_slot blk_num pool_num = do
    h ← get
    elim (pool_find pool_num blk_num h.pool) [
      | some idx ↦ pure idx
      | none ↦ pool_load_block pool_num blk_num
    ]

  -- What `mofs_bcache_modify_block` does under the lock, in the block's pool.
  unfoldable pub split_patch : ℕ → ℕ → List ℕ → ℕ → Cmd (Half W) (Unit {0})
  split_patch blk_num byte_off patch pool_num = do
    idx ← split_slot blk_num pool_num
    modify (edit idx (λ e. record e { block = splice e.block byte_off patch; dirty = true }))
    modify (pool_touch idx)

  -- The data pool's part of `mofs_bcache_invalidate`.
  unfoldable pub pool_drop : ℕ → ℕ → Cmd (Half W) (Unit {0})
  pool_drop blk_num pool_num = do
    h ← get
    elim (pool_find pool_num blk_num h.pool) [
      | some idx ↦ modify (edit idx (λ e. record e { valid = false; dirty = false }))
      | none ↦ pure tt
    ]
