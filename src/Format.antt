-- ===== src/Format.antt =====
-- src/core/modules/mofs_format.c: the layout of a new volume, and its first blocks. Log messages and buffers'
-- frees are left out.
pub mod Regions
use mofs.Base.{
  ℕ, zero, suc, ◌+◌, ◌-◌, ◌*◌, ◌/◌, ◌%◌, Bool, true, false, not, Option, none, some, List, [], ◌∷◌,
  ◌++◌, ltb, leb, ◌==◌, if◌then◌else◌, length, replicate, u32, add32, mul32, u32_mod, u64_mod,
}
use mofs.Base.Run.{Cmd, pure, ◌>>=◌, ◌>>◌, fail_if, or_rollback, fail}
use mofs.Errno.{einval, eio}
use mofs.Core.{Superblock, Inode, validate_logical_blk_size}
use mofs.Platform.{Platform}
use mofs.Device.{Device}
use mofs.Codec.{put32, inode_bytes}
use mofs.Inode.{zero_inode}
use mofs.BlockList.{node_bytes}
use mofs.Path.{ftype_dir}

-- MOFS_MAGIC_NUM
abbrev pub magic_num : ℕ
magic_num = 1397116749

-- MOFS_BLK_SIZE_DEFAULT
abbrev pub blk_size_default : ℕ
blk_size_default = 4096

-- MOFS_IO_OPEN_FLAG_RDWR
abbrev pub open_flag_rdwr : ℕ
open_flag_rdwr = 3

-- 64-bit arithmetic
abbrev pub add64 : ℕ → ℕ → ℕ
add64 a b = (a + b) % u64_mod

abbrev pub mul64 : ℕ → ℕ → ℕ
mul64 a b = a * b % u64_mod

-- `(a + b - 1) / b`, for a positive `b`
abbrev pub ceil_div : ℕ → ℕ → ℕ
ceil_div a b = add64 a (b - 1) / b

-- The numbers of blocks that `mofs_format` computes.
pub record Layout : Type 0 where
  pub hole_blk_num : ℕ
  pub inode_num : ℕ
  pub inode_bitmap_blk_num : ℕ
  pub inode_table_blk_num : ℕ
  pub data_bitmap_blk_num : ℕ

abbrev pub layout : ℕ → ℕ → Layout
layout dev_size blk_bytes =
    let hole = dev_size / blk_bytes in
    let inodes = ceil_div dev_size (mul32 blk_bytes 4) in
    record {
      hole_blk_num = hole;
      inode_num = inodes;
      inode_bitmap_blk_num = ceil_div inodes (blk_bytes * 8);
      inode_table_blk_num = ceil_div (mul64 inodes 64) blk_bytes;
      data_bitmap_blk_num = ceil_div hole (blk_bytes * 8);
    }

abbrev pub meta_reserved : Layout → ℕ
meta_reserved l =
    add64 (add64 (add64 1 l.inode_bitmap_blk_num) l.data_bitmap_blk_num) l.inode_table_blk_num

-- The superblock, its fields cut to 32 bits.
unfoldable pub superblock_of : ℕ → Layout → Superblock
superblock_of blk_bytes l =
    let data_bitmap = add32 1 (u32 l.inode_bitmap_blk_num) in
    let inode_table = add32 data_bitmap (u32 l.data_bitmap_blk_num) in
    record {
      magic = magic_num;
      hole_blk_num = u32 l.hole_blk_num;
      inode_num = u32 l.inode_num;
      data_blk_num = u32 (l.hole_blk_num - meta_reserved l);
      inode_bitmap_start = 1;
      data_bitmap_start = data_bitmap;
      inode_table_start = inode_table;
      data_region_start = add32 inode_table (u32 l.inode_table_blk_num);
      blk_size = blk_bytes;
    }

-- The checks on the layout: 0 or the error number.
abbrev pub too_small : Layout → Bool
too_small l = leb l.hole_blk_num (meta_reserved l)

abbrev pub too_large : Layout → Bool
too_large l = ltb (u32_mod - 1) l.hole_blk_num

-- the 36 bytes of `mofs_superblock_t`
abbrev pub superblock_bytes : Superblock → List ℕ
superblock_bytes sb =
    put32 sb.magic
    ++ (put32 sb.hole_blk_num
        ++ (put32 sb.inode_num
            ++ (put32 sb.data_blk_num
                ++ (put32 sb.inode_bitmap_start
                    ++ (put32 sb.data_bitmap_start
                        ++ (put32 sb.inode_table_start
                            ++ (put32 sb.data_region_start ++ put32 sb.blk_size)))))))

-- The root directory, of one block, before its time.
abbrev pub root_inode : Superblock → Inode
root_inode sb = record zero_inode {
  i_size = sb.blk_size;
  i_mode = ftype_dir + 493;
  i_links = 2;
  i_data_head = add32 sb.data_region_start 1;
  i_nr_blocks = 1;
}

abbrev pub timed : ℕ → Inode → Inode
timed now inode = record inode { i_atime = now; i_mtime = now; i_ctime = now }

module _ (os : Platform) (device : Device os) where
  open os use {W, dev_lseek, dev_write, malloc, mofs_now}
  open device use {dev_open, dev_close, dev_get_size}

  unfoldable pub seek_device : ℕ → Cmd W (Unit {0})
  seek_device offset = do new_offset ← dev_lseek offset; pure tt

  unfoldable pub write_exact : List ℕ → Cmd W (Unit {0})
  write_exact buf = do written ← dev_write buf; fail_if (not (written == length buf)) eio

  unfoldable pub clear_blocks : ℕ → ℕ → Cmd W (Unit {0})
  clear_blocks block_num blk_bytes = do
    mem ← malloc blk_bytes
    seek_device (mul64 block_num blk_bytes)
    write_exact (replicate blk_bytes 0)

  -- The loop over the reserved blocks, `n` from `i` on.
  unfoldable pub clear_loop : ℕ → ℕ → ℕ → Cmd W (Unit {0})
  clear_loop blk_bytes zero i = pure tt
  clear_loop blk_bytes (suc n) i = do clear_blocks i blk_bytes; clear_loop blk_bytes n (i + 1)

  -- Bytes at an offset, all of them or an error.
  unfoldable pub write_at : ℕ → List ℕ → Cmd W (Unit {0})
  write_at offset buf = do seek_device offset; write_exact buf

  -- The root directory's bits, its block, its list node and its inode.
  unfoldable pub write_root : Superblock → Cmd W (Unit {0})
  write_root sb = do
    write_at (mul64 sb.inode_bitmap_start sb.blk_size) (4 ∷ [])
    write_at (mul64 sb.data_bitmap_start sb.blk_size) (3 ∷ [])
    clear_blocks sb.data_region_start sb.blk_size
    clear_blocks (sb.data_region_start + 1) sb.blk_size
    mem ← malloc sb.blk_size
    write_at (mul64 (sb.data_region_start + 1) sb.blk_size)
        (node_bytes sb.blk_size 0 (sb.data_region_start ∷ []))
    now ← mofs_now
    write_at (mul64 sb.inode_table_start sb.blk_size + 128)
        (inode_bytes (timed now (root_inode sb)))

  -- `eff_blk_bytes`; `none` stands for a negative size.
  abbrev pub blk_bytes_of : Option ℕ → ℕ
  blk_bytes_of none = blk_size_default
  blk_bytes_of (some n) = n

  abbrev pub status : ℕ → Cmd W (Unit {0})
  status code = if code == 0 then pure tt else fail code

  -- `dev_size`; a size of 0 stands for one that is not positive.
  unfoldable pub device_size : ℕ → ℕ → Cmd W ℕ
  device_size fs_size blk_bytes =
      if ltb 0 fs_size then pure (mul64 fs_size blk_bytes) else dev_get_size

  -- What `mofs_format` does while the device is open.
  unfoldable pub format_open : ℕ → ℕ → Cmd W (Unit {0})
  format_open fs_size blk_bytes = do
    status (validate_logical_blk_size blk_bytes)
    dev_size ← device_size fs_size blk_bytes
    fail_if (too_small (layout dev_size blk_bytes)) einval
    clear_loop blk_bytes (meta_reserved (layout dev_size blk_bytes)) 0
    fail_if (too_large (layout dev_size blk_bytes)) einval
    write_at 0 (superblock_bytes (superblock_of blk_bytes (layout dev_size blk_bytes)))
    write_root (superblock_of blk_bytes (layout dev_size blk_bytes))

  unfoldable pub format : List ℕ → ℕ → Option ℕ → Cmd W (Unit {0})
  format device_file fs_size blk_size = do
    dev_open device_file open_flag_rdwr
    or_rollback (format_open fs_size (blk_bytes_of blk_size)) dev_close
    dev_close
