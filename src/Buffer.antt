-- ===== src/Buffer.antt =====
-- src/core/modules/mofs_buffer.c with MOFS_BUFFER_CACHE_ENABLE: the write-back block cache.
-- The pool is a function of the index below `cache_num`; `ctx.sp_blk` is the section's `sb`, and
-- every call is made under the cache mutex, so it is one step on the state.
pub mod View
pub mod Steps
pub mod Evict
pub mod Load
pub mod Transfer
pub mod Patch
pub mod Flush
pub mod Life
pub mod Implements
pub mod Whole
use mofs.Base.{
  ℕ, zero, suc, ◌+◌, ◌-◌, ◌%◌, Bool, true, false, not, ◌&&◌, ◌||◌, Option, none, some, List, [],
  ◌++◌, ltb, ◌==◌, if◌then◌else◌, length, take, drop, update, add32, u64_mod,
}
use mofs.Base.Run.{Run, ok, err, Cmd, pure, ◌>>=◌, ◌>>◌, fail, fail_if, get, modify, or_rollback}
use mofs.Base.Scan.{first_index}
use mofs.Errno.{einval, eio}
use mofs.Core.{Superblock}
use mofs.Platform.{Platform}
use mofs.Store.{splice}
use mofs.RawIo.{Read, Written, read_continuous_blocks_raw, write_continuous_blocks_raw}

-- `bcache_entry_t`; `block` is what `data` points to, and `[]` stands for NULL.
pub record Entry : Type 0 where
  pub valid : Bool
  pub dirty : Bool
  pub blk_num : ℕ
  pub lru_tick : ℕ
  pub block : List ℕ

-- The file's static variables; `mutex` says whether `bcache_mutex` is set, `world` is the platform.
pub record Cache (W : Type 0) : Type 0 where
  pub pool : ℕ → Entry
  pub ready : Bool
  pub tick : ℕ
  pub mutex : Bool
  pub world : W

-- MOFS_BUFFER_CACHE_NUM
abbrev pub cache_num : ℕ
cache_num = 64

abbrev pub uint64_max : ℕ
uint64_max = u64_mod - 1

-- an entry after `memset(..., 0, ...)`
abbrev pub zero_entry : Entry
zero_entry = record { valid = false; dirty = false; blk_num = 0; lru_tick = 0; block = [] }

module _ {W : Type 0} where
  abbrev pub lift_run : {A : Type 0} → Cache W → Run W A → Run (Cache W) A
  lift_run c (ok a w) = ok a (record c { world = w })
  lift_run c (err e w) = err e (record c { world = w })

  -- A call that changes nothing but the platform's state.
  abbrev pub lift : {A : Type 0} → Cmd W A → Cmd (Cache W) A
  lift m = λ c. lift_run c (m c.world)

  -- `bcache_pool[idx] = e`
  abbrev pub put_entry : Cache W → ℕ → Entry → Cache W
  put_entry c idx e = record c { pool = update c.pool idx e }

  -- `blk_num = blk; valid = MOFS_TRUE; dirty = MOFS_FALSE` on the slot
  abbrev pub install : ℕ → ℕ → Cache W → Cache W
  install idx blk d =
      put_entry d idx (record (d.pool idx) { blk_num = blk; valid = true; dirty = false })

  unfoldable pub bcache_touch : ℕ → Cache W → Cache W
  bcache_touch idx c =
      let now = (c.tick + 1) % u64_mod in
      record (put_entry c idx (record (c.pool idx) { lru_tick = now })) { tick = now }

  unfoldable pub bcache_find : ℕ → Cache W → Option ℕ
  bcache_find blk_num c =
      first_index cache_num 0 (λ i. (c.pool i).valid && ((c.pool i).blk_num == blk_num))

-- The second loop of `bcache_get_victim`, with its variables `best` and `idx`.
unfoldable pub lru_from : ℕ → ℕ → (ℕ → Entry) → ℕ → Option ℕ → Option ℕ
lru_from zero i pool best idx = idx
lru_from (suc n) i pool best idx =
    let older = ltb (pool i).lru_tick best in
    lru_from n (i + 1) pool (if older then (pool i).lru_tick else best)
      (if older then some i else idx)

-- an empty slot if there is one, else the least recently used
unfoldable pub victim_index : (ℕ → Entry) → Option ℕ
victim_index pool = elim (first_index cache_num 0 (λ i. not (pool i).valid)) [
  | some i ↦ some i
  | none ↦ lru_from cache_num 0 pool uint64_max none
]

module _ (os : Platform) (sb : Superblock) where
  open os use {W, dev_fsync, malloc, mutex_init}

  unfoldable pub bcache_flush_entry : ℕ → Cmd (Cache W) (Unit {0})
  bcache_flush_entry idx = do
    c ← get
    r ← lift (write_continuous_blocks_raw os sb (c.pool idx).block 1 (c.pool idx).blk_num)
    fail_if (not (r.written_blk_num == 1 && r.fraction == 0)) eio
    modify (λ d. put_entry d idx (record (d.pool idx) { dirty = false }))

  -- The part of `bcache_get_victim` after the choice of the slot.
  unfoldable pub evict : ℕ → Cmd (Cache W) ℕ
  evict idx = do
    c ← get
    if (c.pool idx).valid && (c.pool idx).dirty then bcache_flush_entry idx else pure tt
    modify (λ d. put_entry d idx (record (d.pool idx) { valid = false; dirty = false }))
    pure idx

  unfoldable pub bcache_get_victim : Cmd (Cache W) ℕ
  bcache_get_victim = do
    c ← get
    elim (victim_index c.pool) [ some idx ↦ evict idx | none ↦ fail eio ]

  -- What a raw read leaves in the buffer of a slot: the bytes that arrived, then the old ones. After an
  -- error the bytes of the slot, which is empty, are taken to be the old ones.
  unfoldable pub read_into : ℕ → ℕ → Cmd (Cache W) Read
  read_into idx blk = do
    r ← lift (read_continuous_blocks_raw os sb 1 blk)
    modify (λ d.
        put_entry d idx
          (record (d.pool idx) { block = r.buf ++ drop (length r.buf) (d.pool idx).block }))
    pure r

  -- The miss of `mofs_bcache_read_blocks` after the raw read; `fraction` is not 0 for a short read at
  -- the device's end.
  unfoldable pub load_tail : ℕ → ℕ → Read → Cmd (Cache W) Read
  load_tail idx blk r =
      if not (r.fraction == 0)
      then pure (record { buf = take r.fraction r.buf; read_blk_num = 0; fraction = r.fraction })
      else (do
        fail_if (not (r.read_blk_num == 1)) eio
        modify (install idx blk)
        modify (bcache_touch idx)
        c ← get
        pure (record { buf = (c.pool idx).block; read_blk_num = 1; fraction = 0 }))

  unfoldable pub load_block : ℕ → Cmd (Cache W) Read
  load_block blk = do idx ← bcache_get_victim; r ← read_into idx blk; load_tail idx blk r

  -- One round of the loop of `mofs_bcache_read_blocks`.
  unfoldable pub read_block : ℕ → Cmd (Cache W) Read
  read_block blk = do
    c ← get
    elim (bcache_find blk c) [
      | some idx ↦ do
        modify (bcache_touch idx)
        pure (record { buf = (c.pool idx).block; read_blk_num = 1; fraction = 0 })
      | none ↦ load_block blk
    ]

  unfoldable pub read_loop : ℕ → ℕ → ℕ → Cmd (Cache W) Read
  read_loop zero i start_blk_num = pure (record { buf = []; read_blk_num = 0; fraction = 0 })
  read_loop (suc n) i start_blk_num = do
    one ← read_block (add32 start_blk_num i)
    if not (one.fraction == 0) then pure one else (do
      r ← read_loop n (i + 1) start_blk_num
      pure (record r { buf = one.buf ++ r.buf; read_blk_num = r.read_blk_num + 1 }))

  unfoldable pub bcache_read_blocks : ℕ → ℕ → Cmd (Cache W) Read
  bcache_read_blocks req_blk_num start_blk_num = do
    fail_if (sb.blk_size == 0) einval
    c ← get
    if not c.ready
        then lift (read_continuous_blocks_raw os sb req_blk_num start_blk_num)
        else read_loop req_blk_num 0 start_blk_num

  -- `memcpy(data, buf, blk_bytes); dirty = MOFS_TRUE;` and the touch, on a slot whose entry `own` has
  -- made that of the block
  unfoldable pub store_block : ℕ → (Entry → Entry) → List ℕ → Cmd (Cache W) (Unit {0})
  store_block idx own buf = do
    modify (λ d.
        put_entry d idx (record (own (d.pool idx)) { block = take sb.blk_size buf; dirty = true }))
    modify (bcache_touch idx)

  -- One round of the loop of `mofs_bcache_write_blocks`.
  unfoldable pub write_block : ℕ → List ℕ → Cmd (Cache W) (Unit {0})
  write_block blk buf = do
    c ← get
    elim (bcache_find blk c) [
      | some idx ↦ store_block idx (λ e. e) buf
      | none ↦ do
        idx ← bcache_get_victim
        store_block idx (λ e. record e { blk_num = blk; valid = true }) buf
    ]

  unfoldable pub write_loop : ℕ → ℕ → ℕ → List ℕ → Cmd (Cache W) Written
  write_loop zero i start_blk_num buf = pure (record { written_blk_num = 0; fraction = 0 })
  write_loop (suc n) i start_blk_num buf = do
    write_block (add32 start_blk_num i) buf
    r ← write_loop n (i + 1) start_blk_num (drop sb.blk_size buf)
    pure (record r { written_blk_num = r.written_blk_num + 1 })

  unfoldable pub bcache_write_blocks : List ℕ → ℕ → ℕ → Cmd (Cache W) Written
  bcache_write_blocks buf req_blk_num start_blk_num = do
    fail_if (sb.blk_size == 0) einval
    c ← get
    if not c.ready
        then lift (write_continuous_blocks_raw os sb buf req_blk_num start_blk_num)
        else write_loop req_blk_num 0 start_blk_num buf

  -- The slot that holds the block, loaded if it is not cached.
  unfoldable pub slot_for_modify : ℕ → Cmd (Cache W) ℕ
  slot_for_modify blk_num = do
    c ← get
    elim (bcache_find blk_num c) [
      | some idx ↦ pure idx
      | none ↦ do
        idx ← bcache_get_victim
        r ← read_into idx blk_num
        fail_if (not (r.read_blk_num == 1) || not (r.fraction == 0)) eio
        modify (install idx blk_num)
        pure idx
    ]

  unfoldable pub bcache_modify_block : ℕ → ℕ → List ℕ → Cmd (Cache W) (Unit {0})
  bcache_modify_block blk_num byte_off patch = do
    fail_if (length patch == 0 || sb.blk_size == 0) einval
    c ← get
    fail_if (not c.ready) einval
    fail_if
        (ltb sb.blk_size byte_off
          || (ltb sb.blk_size (length patch) || ltb sb.blk_size (add32 byte_off (length patch))))
        einval
    idx ← slot_for_modify blk_num
    modify (λ d.
        put_entry d idx
          (record (d.pool idx) { block = splice (d.pool idx).block byte_off patch; dirty = true }))
    modify (bcache_touch idx)

  unfoldable pub flush_loop : ℕ → ℕ → Cmd (Cache W) (Unit {0})
  flush_loop zero i = pure tt
  flush_loop (suc n) i = do
    c ← get
    if (c.pool i).valid && (c.pool i).dirty then bcache_flush_entry i else pure tt
    flush_loop n (i + 1)

  unfoldable pub bcache_flush : Cmd (Cache W) (Unit {0})
  bcache_flush = do
    c ← get
    if not c.ready then pure tt else (do flush_loop cache_num 0; lift dev_fsync)

  unfoldable pub bcache_invalidate : ℕ → Cmd (Cache W) (Unit {0})
  bcache_invalidate blk_num = do
    c ← get
    if not c.ready then pure tt else elim (bcache_find blk_num c) [
      | some idx ↦
          modify (λ d. put_entry d idx (record (d.pool idx) { valid = false; dirty = false }))
      | none ↦ pure tt
    ]

  unfoldable pub alloc_loop : ℕ → ℕ → Cmd (Cache W) (Unit {0})
  alloc_loop zero i = pure tt
  alloc_loop (suc n) i = do
    mem ← or_rollback (lift (malloc sb.blk_size)) (
        modify (λ d. record d {
          pool = λ j. if ltb j i then record (d.pool j) { block = [] } else d.pool j;
        }))
    modify (λ d. put_entry d i (record zero_entry { block = mem }))
    alloc_loop n (i + 1)

  unfoldable pub init_mutex : Cmd (Cache W) (Unit {0})
  init_mutex = do
    c ← get
    if c.mutex then pure tt else (do lift mutex_init; modify (λ d. record d { mutex = true }))

  -- what `mofs_bcache_init` does under `if (!bcache_ready)`
  unfoldable pub init_pool : Cmd (Cache W) (Unit {0})
  init_pool = do
    modify (λ d. record d { pool = λ j. zero_entry })
    alloc_loop cache_num 0
    modify (λ d. record d { tick = 0; ready = true })

  unfoldable pub bcache_init : Cmd (Cache W) (Unit {0})
  bcache_init = do
    fail_if (sb.blk_size == 0) einval
    init_mutex
    c ← get
    if c.ready then pure tt else init_pool

  unfoldable pub bcache_fini : Cmd (Cache W) (Unit {0})
  bcache_fini = do
    c ← get
    if not c.mutex
        then pure tt
        else modify (λ d. record d {
          pool = λ j. record (d.pool j) { block = []; valid = false; dirty = false };
          ready = false;
          mutex = false;
        })
