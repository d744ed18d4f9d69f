-- ===== src/Mount.antt =====
-- src/core/modules/mofs_core.c with MOFS_BUFFER_CACHE_ENABLE: the mount and the unmount. Log messages are left
-- out; the device's descriptor is the platform's.
pub mod Ready
use mofs.Base.{ℕ, ◌+◌, ◌/◌, Bool, true, false, not, List, [], ◌==◌, if◌then◌else◌, length, drop}
use mofs.Base.Run.{
  Run, ok, err, Cmd, pure, get, modify, ◌>>=◌, ◌>>◌, fail_if, fail, ignore, or_rollback,
}
use mofs.Errno.{einval, eio}
use mofs.Core.{Superblock, Inode, validate_logical_blk_size}
use mofs.Platform.{Platform}
use mofs.Device.{Device}
use mofs.Codec.{get32}
use mofs.Buffer.{Cache, lift, bcache_init, bcache_fini, bcache_flush}
use mofs.Buffer.Implements.{cache_store}
use mofs.Inode.{read_inode, write_inode, inode_stamp_now, time_ctime}
use mofs.Path.{root_inode_num}
use mofs.File.Handles.{Handle, zero_handle}
use mofs.Tree.Listing.{DirHandle, new_dirhandle}
use mofs.Format.{magic_num, open_flag_rdwr}

-- `ctx` with the pools of handles and the cache; `dev_path` is `[]` for NULL.
pub record Volume (W : Type 0) : Type 0 where
  pub init : Bool
  pub dev_path : List ℕ
  pub sp_blk : Superblock
  pub files : ℕ → Handle
  pub dirs : ℕ → DirHandle
  pub cache : Cache W

-- `sizeof(mofs_superblock_t)`
abbrev pub superblock_size : ℕ
superblock_size = 36

-- The superblock in the bytes that `dev_read` brings.
abbrev pub superblock_of_bytes : List ℕ → Superblock
superblock_of_bytes bs = record {
  magic = get32 bs;
  hole_blk_num = get32 (drop 4 bs);
  inode_num = get32 (drop 8 bs);
  data_blk_num = get32 (drop 12 bs);
  inode_bitmap_start = get32 (drop 16 bs);
  data_bitmap_start = get32 (drop 20 bs);
  inode_table_start = get32 (drop 24 bs);
  data_region_start = get32 (drop 28 bs);
  blk_size = get32 (drop 32 bs);
}

module _ {W : Type 0} where
  abbrev pub cache_run : {A : Type 0} → Volume W → Run (Cache W) A → Run (Volume W) A
  cache_run v (ok a c) = ok a (record v { cache = c })
  cache_run v (err e c) = err e (record v { cache = c })

  -- A call on the cache, and one on the platform below it.
  abbrev pub on_cache : {A : Type 0} → Cmd (Cache W) A → Cmd (Volume W) A
  on_cache m = λ v. cache_run v (m v.cache)

  abbrev pub on_world : {A : Type 0} → Cmd W A → Cmd (Volume W) A
  on_world m = on_cache (lift m)

  -- `ctx.sp_blk = sb_scratch` and the empty pools
  abbrev pub with_superblock : Superblock → Volume W → Volume W
  with_superblock sb v = record v {
    sp_blk = sb;
    files = λ i. zero_handle;
    dirs = λ i. new_dirhandle false 0;
  }

  abbrev pub change_world : (W → W) → Cmd (Volume W) (Unit {0})
  change_world f = modify (λ v. record v { cache = record v.cache { world = f v.cache.world } })

  abbrev pub not_ready : Volume W → Volume W
  not_ready v = record v { init = false; dev_path = [] }

module _ (os : Platform) (device : Device os) where
  open os use {W, dev_lseek, dev_read, malloc}
  open device use {dev_open, dev_close, dev_get_size, sync_init, sync_fini}

  -- The superblock of the device after its checks; `code` is what the check of the block size returns.
  unfoldable pub check_superblock : Superblock → Cmd W (Unit {0})
  check_superblock sb = do
    fail_if (not (sb.magic == magic_num)) eio
    fail_if (not (validate_logical_blk_size sb.blk_size == 0))
        (validate_logical_blk_size sb.blk_size)
    vol_bytes ← dev_get_size
    fail_if (not (vol_bytes / sb.blk_size == sb.hole_blk_num)) einval

  unfoldable pub read_superblock : Cmd W Superblock
  read_superblock = do
    new_offset ← dev_lseek 0
    got ← dev_read superblock_size
    fail_if (not (length got == superblock_size)) eio
    check_superblock (superblock_of_bytes got)
    pure (superblock_of_bytes got)

  -- `update_root_owner`
  unfoldable pub own_root : Superblock → ℕ → ℕ → Cmd (Cache W) (Unit {0})
  own_root sb root_uid root_gid = do
    inode ← read_inode sb (cache_store os sb) root_inode_num
    stamped ←
        inode_stamp_now sb (cache_store os sb) time_ctime
          (record inode { i_uid = root_uid; i_gid = root_gid })
    write_inode sb (cache_store os sb) root_inode_num stamped

  -- The steps that `out3` undoes.
  unfoldable pub start : Bool → ℕ → ℕ → Cmd (Volume W) (Unit {0})
  start update_root_owner root_uid root_gid = do
    sb ← on_world read_superblock
    modify (with_superblock sb)
    on_cache (bcache_init os sb)
    on_world sync_init
    modify (λ v. record v { init = true })
    if update_root_owner then on_cache (own_root sb root_uid root_gid) else pure tt

  abbrev pub fini_cache : Cmd (Volume W) (Unit {0})
  fini_cache = do v ← get; on_cache (bcache_fini os v.sp_blk)

  -- `out3`
  unfoldable pub undo_start : Cmd (Volume W) (Unit {0})
  undo_start = do change_world sync_fini; fini_cache; on_world dev_close

  -- Every error ends with `out1`: no path, and the volume not mounted.
  unfoldable pub init_core : List ℕ → Bool → ℕ → ℕ → Cmd (Volume W) (Unit {0})
  init_core path update_root_owner root_uid root_gid =
      or_rollback
        (do
          mem ← on_world (malloc (length path + 1))
          modify (λ v. record v { dev_path = path })
          on_world (dev_open path open_flag_rdwr)
          or_rollback (start update_root_owner root_uid root_gid) undo_start)
        (modify not_ready)

  -- The flush's error is kept over that of the close.
  unfoldable pub fini_core : Cmd (Volume W) (Unit {0})
  fini_core = do
    v ← get
    or_rollback (on_cache (bcache_flush os v.sp_blk))
        (do fini_cache; change_world sync_fini; ignore (on_world dev_close); modify not_ready)
    fini_cache
    change_world sync_fini
    or_rollback (on_world dev_close) (modify not_ready)
    modify not_ready
