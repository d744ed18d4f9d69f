-- ===== src/Core.antt =====
-- include/mofs_core.h under src/core: the superblock, the block-size check and the size limits.
use mofs.Base.{List, ℕ, ◌-◌, ◌*◌, ◌/◌, bit_and, not, ◌||◌, ltb, leb, ◌==◌, if◌then◌else◌, sub32}
use mofs.Base.{u64_mod, ◌%◌}
use mofs.Errno.{einval}

-- `mofs_superblock_t`; `ctx.sp_blk` holds the one of the mounted volume.
pub record Superblock : Type 0 where
  pub magic : ℕ
  pub hole_blk_num : ℕ
  pub inode_num : ℕ
  pub data_blk_num : ℕ
  pub inode_bitmap_start : ℕ
  pub data_bitmap_start : ℕ
  pub inode_table_start : ℕ
  pub data_region_start : ℕ
  pub blk_size : ℕ

-- `mofs_inode_t`; `reserved` is its padding, 16 bytes.
pub record Inode : Type 0 where
  pub i_size : ℕ
  pub i_links : ℕ
  pub i_mode : ℕ
  pub i_uid : ℕ
  pub i_gid : ℕ
  pub i_data_head : ℕ
  pub i_nr_blocks : ℕ
  pub i_atime : ℕ
  pub i_mtime : ℕ
  pub i_ctime : ℕ
  pub reserved : List ℕ

abbrev pub blk_size_min : ℕ
blk_size_min = 512

abbrev pub blk_size_max : ℕ
blk_size_max = 65536

abbrev pub max_file_data_blocks : ℕ
max_file_data_blocks = 1024

-- the status that `mofs_validate_logical_blk_size` returns
unfoldable pub validate_logical_blk_size : ℕ → ℕ
validate_logical_blk_size blk_size =
    if ltb blk_size blk_size_min || ltb blk_size_max blk_size
    then einval
    else if not (bit_and blk_size (sub32 blk_size 1) == 0)
    then einval
    else 0

-- `mofs_list_ptrs_per_node`
unfoldable pub list_ptrs_per_node : ℕ → ℕ
list_ptrs_per_node blk_size = if leb blk_size 8 then 0 else (blk_size - 8) / 4

-- `mofs_max_file_bytes`
unfoldable pub max_file_bytes : Superblock → ℕ
max_file_bytes sb = max_file_data_blocks * sb.blk_size % u64_mod
