-- ===== src/SplitBuffer.antt =====
-- src/core/modules/mofs_buffer_split.c with MOFS_BUFFER_CACHE_ENABLE: the write-back cache in two pools.
-- `route` runs a step on the pool of a block.
pub mod Parted
pub mod Calls
pub mod Routes
use mofs.Base.{
  ℕ, zero, suc, ◌+◌, Bool, true, false, not, ◌||◌, List, [], ◌++◌, ltb, ◌==◌, if◌then◌else◌, length,
  drop, add32,
}
use mofs.Base.Run.{Run, ok, err, Cmd, pure, ◌>>=◌, ◌>>◌, fail_if, get, modify, or_rollback}
use mofs.Errno.{einval}
use mofs.Core.{Superblock}
use mofs.Platform.{Platform}
use mofs.RawIo.{Read, Written, read_continuous_blocks_raw, write_continuous_blocks_raw}
use mofs.Buffer.{Entry}
use mofs.SplitPool.{
  Half, pool_flush_all, pool_alloc, pool_free, split_read_block, split_write_block, split_patch,
  pool_drop,
}

-- The file's static variables; `mutex` says whether `bcache_mutex` is set, `world` is the platform.
pub record SplitCache (W : Type 0) : Type 0 where
  pub meta_pool : ℕ → Entry
  pub meta_tick : ℕ
  pub data_pool : ℕ → Entry
  pub data_tick : ℕ
  pub ready : Bool
  pub mutex : Bool
  pub world : W

-- MOFS_META_CACHE_NUM and MOFS_DATA_CACHE_NUM
abbrev pub meta_cache_num : ℕ
meta_cache_num = 16

abbrev pub data_cache_num : ℕ
data_cache_num = 48

-- Which pool, number of slots and tick counter a call is given: for each `true` for that of the metadata.
pub record Select : Type 0 where
  pub pool : Bool
  pub pool_num : Bool
  pub tick_ref : Bool

-- `meta_pool`, MOFS_META_CACHE_NUM and `&meta_tick`, or the three of the data
abbrev pub one_side : Bool → Select
one_side is_meta = record { pool = is_meta; pool_num = is_meta; tick_ref = is_meta }

abbrev pub pool_num_of : Bool → ℕ
pool_num_of is_meta = if is_meta then meta_cache_num else data_cache_num

unfoldable pub is_metadata_block : Superblock → ℕ → Bool
is_metadata_block sb blk_num = ltb blk_num sb.data_region_start

-- The three conditional expressions at the head of a call for the block.
unfoldable pub select : Superblock → ℕ → Select
select sb blk = record {
  pool = is_metadata_block sb blk;
  pool_num = is_metadata_block sb blk;
  tick_ref = is_metadata_block sb blk;
}

module _ {W : Type 0} where
  abbrev pub half : Select → SplitCache W → Half W
  half sel c = record {
    pool = if sel.pool then c.meta_pool else c.data_pool;
    tick = if sel.tick_ref then c.meta_tick else c.data_tick;
    world = c.world;
  }

  abbrev pub put_half : Select → SplitCache W → Half W → SplitCache W
  put_half sel c h = record c {
    meta_pool = if sel.pool then h.pool else c.meta_pool;
    data_pool = if sel.pool then c.data_pool else h.pool;
    meta_tick = if sel.tick_ref then h.tick else c.meta_tick;
    data_tick = if sel.tick_ref then c.data_tick else h.tick;
    world = h.world;
  }

  abbrev pub routed : {A : Type 0} → Select → SplitCache W → Run (Half W) A → Run (SplitCache W) A
  routed sel c (ok a h) = ok a (put_half sel c h)
  routed sel c (err e h) = err e (put_half sel c h)

  -- A call that is given a pool, a number of slots and a tick counter.
  abbrev pub route : {A : Type 0} → Select → (ℕ → Cmd (Half W) A) → Cmd (SplitCache W) A
  route sel m = λ c. routed sel c (m (pool_num_of sel.pool_num) (half sel c))

  abbrev pub in_split : {A : Type 0} → SplitCache W → Run W A → Run (SplitCache W) A
  in_split c (ok a w) = ok a (record c { world = w })
  in_split c (err e w) = err e (record c { world = w })

  -- A call that changes nothing but the platform's state.
  abbrev pub lift_split : {A : Type 0} → Cmd W A → Cmd (SplitCache W) A
  lift_split m = λ c. in_split c (m c.world)

module _ (os : Platform) (sb : Superblock) where
  open os use {W, dev_fsync, mutex_init}

  unfoldable pub split_read_loop : ℕ → ℕ → ℕ → Cmd (SplitCache W) Read
  split_read_loop zero i start_blk_num = pure (record { buf = []; read_blk_num = 0; fraction = 0 })
  split_read_loop (suc n) i start_blk_num = do
    let blk = add32 start_blk_num i in
        (do
          one ← route (select sb blk) (split_read_block os sb blk)
          if not (one.fraction == 0) then pure one else (do
            r ← split_read_loop n (i + 1) start_blk_num
            pure (record r { buf = one.buf ++ r.buf; read_blk_num = r.read_blk_num + 1 })))

  unfoldable pub split_read_blocks : ℕ → ℕ → Cmd (SplitCache W) Read
  split_read_blocks req_blk_num start_blk_num = do
    fail_if (sb.blk_size == 0) einval
    c ← get
    if not c.ready
        then lift_split (read_continuous_blocks_raw os sb req_blk_num start_blk_num)
        else split_read_loop req_blk_num 0 start_blk_num

  unfoldable pub split_write_loop : ℕ → ℕ → ℕ → List ℕ → Cmd (SplitCache W) Written
  split_write_loop zero i start_blk_num buf = pure (record { written_blk_num = 0; fraction = 0 })
  split_write_loop (suc n) i start_blk_num buf = do
    let blk = add32 start_blk_num i in
        (do
          route (select sb blk) (split_write_block os sb blk buf)
          r ← split_write_loop n (i + 1) start_blk_num (drop sb.blk_size buf)
          pure (record r { written_blk_num = r.written_blk_num + 1 }))

  unfoldable pub split_write_blocks : List ℕ → ℕ → ℕ → Cmd (SplitCache W) Written
  split_write_blocks buf req_blk_num start_blk_num = do
    fail_if (sb.blk_size == 0) einval
    c ← get
    if not c.ready
        then lift_split (write_continuous_blocks_raw os sb buf req_blk_num start_blk_num)
        else split_write_loop req_blk_num 0 start_blk_num buf

  unfoldable pub split_modify_block : ℕ → ℕ → List ℕ → Cmd (SplitCache W) (Unit {0})
  split_modify_block blk_num byte_off patch = do
    fail_if (length patch == 0 || sb.blk_size == 0) einval
    c ← get
    fail_if (not c.ready) einval
    fail_if
        (ltb sb.blk_size byte_off
          || (ltb sb.blk_size (length patch) || ltb sb.blk_size (add32 byte_off (length patch))))
        einval
    route (select sb blk_num) (split_patch os sb blk_num byte_off patch)

  unfoldable pub split_flush : Cmd (SplitCache W) (Unit {0})
  split_flush = do
    c ← get
    if not c.ready then pure tt else (do
      route (one_side true) (λ n. pool_flush_all os sb n 0)
      route (one_side false) (λ n. pool_flush_all os sb n 0)
      lift_split dev_fsync)

  unfoldable pub split_invalidate : ℕ → Cmd (SplitCache W) (Unit {0})
  split_invalidate blk_num = do
    c ← get
    if not c.ready then pure tt else route (one_side false) (pool_drop os sb blk_num)

  unfoldable pub split_init_mutex : Cmd (SplitCache W) (Unit {0})
  split_init_mutex = do
    c ← get
    if c.mutex then pure tt else (do lift_split mutex_init; modify (λ d. record d { mutex = true }))

  -- what `mofs_bcache_init` does when the cache is not ready
  unfoldable pub split_init_pools : Cmd (SplitCache W) (Unit {0})
  split_init_pools = do
    route (one_side true) (pool_alloc os sb)
    or_rollback (route (one_side false) (pool_alloc os sb))
        (route (one_side true) (λ n. modify pool_free))
    modify (λ d. record d { meta_tick = 0; data_tick = 0; ready = true })

  unfoldable pub split_init : Cmd (SplitCache W) (Unit {0})
  split_init = do
    fail_if (sb.blk_size == 0) einval
    split_init_mutex
    c ← get
    if c.ready then pure tt else split_init_pools

  unfoldable pub split_fini : Cmd (SplitCache W) (Unit {0})
  split_fini = do
    c ← get
    if not c.mutex then pure tt else (do
      route (one_side true) (λ n. modify pool_free)
      route (one_side false) (λ n. modify pool_free)
      modify (λ d. record d { ready = false; mutex = false }))
