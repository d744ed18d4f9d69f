-- ===== src/Inode.antt =====
-- src/core/modules/mofs_inode.c over the store of blocks. Inode numbers are the non-negative ones; the
-- 64-bit offsets are passed on as the 32-bit block numbers that read_continuous_blocks takes. The core
-- lock around the transfers and the frees of buffers are left out: each call is one step.
pub mod Table
pub mod Entries
use mofs.Base.{
  ℕ, ◌+◌, ◌*◌, ◌/◌, ◌%◌, Bool, true, false, ◌||◌, List, [], ◌∷◌, ltb, leb, ◌==◌, if◌then◌else◌,
  get_or, u32, u32_mod, ◌-◌, sub32, bit_and, not, replicate,
}
use mofs.Base.Run.{Run, ok, err, Cmd, pure, ◌>>=◌, ◌>>◌, fail_if, ignore, or_rollback}
use mofs.Errno.{einval}
use mofs.Core.{Superblock, Inode}
use mofs.Store.{Store, splice}
use mofs.Codec.{inode_bytes, inode_at}
use mofs.Bitmap.{read_block, write_block, set_bitmap_bit, find_free_indices}

-- MOFS_INODE_TIME_*
abbrev pub time_atime : ℕ
time_atime = 1

abbrev pub time_mtime : ℕ
time_mtime = 2

abbrev pub time_ctime : ℕ
time_ctime = 4

abbrev pub zero_inode : Inode
zero_inode = record {
  i_size = 0;
  i_links = 0;
  i_mode = 0;
  i_uid = 0;
  i_gid = 0;
  i_data_head = 0;
  i_nr_blocks = 0;
  i_atime = 0;
  i_mtime = 0;
  i_ctime = 0;
  reserved = replicate 16 0;
}

module _ {S : Type 0} where
  abbrev pub fall_back : {A : Type 0} → ℕ → Run S A → Cmd S A → Run S A
  fall_back code (ok a s) other = ok a s
  fall_back code (err e s) other = (if e == code then other else err e) s

  -- `ret = f(); if (ret != code) goto out;` and the other way
  abbrev pub or_on : {A : Type 0} → ℕ → Cmd S A → Cmd S A → Cmd S A
  or_on code m other = λ s. fall_back code (m s) other

-- the fields that `mask` selects
abbrev pub stamped : ℕ → ℕ → Inode → Inode
stamped mask now inode = record inode {
  i_atime = if not (bit_and mask time_atime == 0) then now else inode.i_atime;
  i_mtime = if not (bit_and mask time_mtime == 0) then now else inode.i_mtime;
  i_ctime = if not (bit_and mask time_ctime == 0) then now else inode.i_ctime;
}

-- `bitmap_blk_num` of `find_free_inode_indices`
abbrev pub inode_bitmap_blks : Superblock → ℕ
inode_bitmap_blks sb = sub32 sb.data_bitmap_start sb.inode_bitmap_start

module _ (sb : Superblock) (store : Store sb) where
  open store use {S, modify_block, malloc, mofs_now}

  unfoldable pub inode_stamp_now : ℕ → Inode → Cmd S Inode
  inode_stamp_now mask inode = do
    fail_if (mask == 0) einval
    now ← mofs_now
    pure (stamped mask now inode)

  -- The product `inode_num * (int)sizeof(mofs_inode_t)` is an `int`: 32 bits, of which the upper half of the
  -- numbers are negative. Division and remainder go toward 0. A negative offset is outside the buffer; it is
  -- kept as `mofs_size_t` has it, and what a read finds there stands for any bytes.
  abbrev pub table_bytes : ℕ → ℕ
  table_bytes inode_num = u32 (inode_num * 64)

  abbrev pub negative : ℕ → Bool
  negative x = leb 2147483648 x

  unfoldable pub inode_blk : ℕ → ℕ
  inode_blk inode_num =
      if negative (table_bytes inode_num)
      then u32 (sb.inode_table_start + (u32_mod - (u32_mod - table_bytes inode_num) / sb.blk_size))
      else u32 (sb.inode_table_start + table_bytes inode_num / sb.blk_size)

  unfoldable pub inode_offset : ℕ → ℕ
  inode_offset inode_num =
      if negative (table_bytes inode_num)
      then sub32 0 ((u32_mod - table_bytes inode_num) % sb.blk_size)
      else table_bytes inode_num % sb.blk_size

  unfoldable pub read_inode : ℕ → Cmd S Inode
  read_inode inode_num = do
    fail_if (leb sb.inode_num inode_num) einval
    mem ← malloc sb.blk_size
    buf ← read_block sb store (inode_blk inode_num)
    pure (inode_at buf (inode_offset inode_num))

  unfoldable pub inode_stamp_persist : ℕ → ℕ → Cmd S (Unit {0})
  inode_stamp_persist inode_num mask = do
    fail_if (leb sb.inode_num inode_num || mask == 0) einval
    mem ← malloc sb.blk_size
    blk_buf ← read_block sb store (inode_blk inode_num)
    inode ← inode_stamp_now mask (inode_at blk_buf (inode_offset inode_num))
    write_block sb store (splice blk_buf (inode_offset inode_num) (inode_bytes inode))
        (inode_blk inode_num)

  -- The read-modify-write of `mofs_write_inode`, for when the cache is not ready.
  unfoldable pub rewrite_inode : ℕ → Inode → Cmd S (Unit {0})
  rewrite_inode inode_num inode = do
    blk_buf ← read_block sb store (inode_blk inode_num)
    write_block sb store (splice blk_buf (inode_offset inode_num) (inode_bytes inode))
        (inode_blk inode_num)

  unfoldable pub write_inode : ℕ → Inode → Cmd S (Unit {0})
  write_inode inode_num inode = do
    fail_if (leb sb.inode_num inode_num) einval
    mem ← malloc sb.blk_size
    or_on einval (modify_block (inode_blk inode_num) (inode_offset inode_num) (inode_bytes inode))
        (rewrite_inode inode_num inode)

  unfoldable pub set_inode_bitmap_bit : ℕ → Bool → Cmd S (Unit {0})
  set_inode_bitmap_bit inode_idx set_used = do
    fail_if (ltb inode_idx 3 || leb sb.inode_num inode_idx) einval
    set_bitmap_bit sb store sb.inode_bitmap_start inode_idx set_used

  unfoldable pub update_inode_bitmap_bits : List ℕ → Bool → Cmd S (Unit {0})
  update_inode_bitmap_bits [] set_used = pure tt
  update_inode_bitmap_bits (idx ∷ inode_idx_list) set_used = do
    ignore (set_inode_bitmap_bit idx set_used)
    update_inode_bitmap_bits inode_idx_list set_used

  unfoldable pub find_free_inode_indices : ℕ → Cmd S (List ℕ)
  find_free_inode_indices required_alloc_num =
      find_free_indices sb store sb.inode_bitmap_start (inode_bitmap_blks sb) sb.inode_num 3
        required_alloc_num

  unfoldable pub allocate_inode : Cmd S ℕ
  allocate_inode = do
    allocated_inode_idx ← find_free_inode_indices 1
    or_rollback (set_inode_bitmap_bit (get_or allocated_inode_idx 0 0) true)
        (update_inode_bitmap_bits allocated_inode_idx false)
    pure (get_or allocated_inode_idx 0 0)

  unfoldable pub free_inode : ℕ → Cmd S (Unit {0})
  free_inode inode_num = do
    fail_if (ltb inode_num 3 || leb sb.inode_num inode_num) einval
    set_inode_bitmap_bit inode_num false
    or_rollback (write_inode inode_num zero_inode) (update_inode_bitmap_bits (inode_num ∷ []) true)
