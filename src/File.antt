-- ===== src/File.antt =====
-- src/core/modules/mofs_file.c, the data of a file: its blocks read and written by the inode number, and
-- the truncation. NULL pointers and negative inode numbers are not represented; buffers' frees are left
-- out. `fuel` is that of the walks along the file's block list.
pub mod Handles
pub mod Pooled
pub mod Limits
pub mod Spans
pub mod Reads
pub mod Contents
pub mod Writes
use mofs.Base.{
  ℕ, zero, suc, ◌+◌, ◌-◌, ◌*◌, ◌/◌, ◌%◌, Bool, true, false, not, ◌||◌, ◌&&◌, List, [], ◌∷◌, ◌++◌,
  ltb, leb, ◌==◌, if◌then◌else◌, length, take, drop, replicate, bit_and, u32, add32, sub32, mul32,
  u64_mod,
}
use mofs.Base.Run.{Run, ok, err, Cmd, pure, fail, ◌>>=◌, ◌>>◌, fail_if, ignore, or_rollback}
use mofs.Errno.{einval, eio, eperm, eisdir, efbig}
use mofs.Core.{Superblock, Inode, max_file_bytes}
use mofs.Store.{Store, splice}
use mofs.Caller.{Caller, User}
use mofs.RawIo.{Read, Written}
use mofs.Inode.{read_inode, write_inode, inode_stamp_now, time_mtime, time_ctime}
use mofs.BlockList.{resolve_file_data_block, allocate_data_block, free_data_block}
use mofs.Perm.{check_open_permission, oflag_wronly}
use mofs.Path.{ftype_dir}

-- `(size + blk_size - 1) / blk_size` on 32 bits
abbrev pub blks_of : Superblock → ℕ → ℕ
blks_of sb size = sub32 (add32 size sb.blk_size) 1 / sb.blk_size

-- `mofs_memset(buf + from, 0, count)`
abbrev pub zero_at : List ℕ → ℕ → ℕ → List ℕ
zero_at buf from count = splice buf from (replicate count 0)

module _ {S : Type 0} where
  abbrev pub io_error : {A : Type 0} → Run S A → Run S A
  io_error (ok a s) = ok a s
  io_error (err e s) = err eio s

  -- `if ((ret != 0) || ...) ret = MOFS_EIO;`
  abbrev pub as_eio : {A : Type 0} → Cmd S A → Cmd S A
  as_eio m = λ s. io_error (m s)

-- The trimming of the request to the file's size.
abbrev pub trimmed : ℕ → ℕ → ℕ → ℕ
trimmed size_blks start_blk_num req_blk_num =
    if ltb size_blks (add32 start_blk_num req_blk_num)
    then sub32 size_blks start_blk_num
    else req_blk_num

-- The end of a read: a last block that the file fills in part is counted by its bytes.
abbrev pub partial_end : Superblock → Inode → ℕ → Read → Read
partial_end sb inode start_blk_num r =
    if r.fraction == 0
    then if ltb (inode.i_size / sb.blk_size) (add32 start_blk_num r.read_blk_num)
      then record r { fraction = inode.i_size % sb.blk_size; read_blk_num = sub32 r.read_blk_num 1 }
      else r
    else r

module _ (sb : Superblock) (store : Store sb) (fuel : ℕ) where
  open store use {S, read_blocks, write_blocks, malloc}

  abbrev pub nothing_read : Read
  nothing_read = record { buf = []; read_blk_num = 0; fraction = 0 }

  -- The loop over the blocks, `n` from the block `file_blk` of the file on.
  unfoldable pub read_loop : ℕ → ℕ → ℕ → Cmd S Read
  read_loop inode_num zero file_blk = pure nothing_read
  read_loop inode_num (suc n) file_blk = do
    abs_blk_num ← resolve_file_data_block sb store fuel inode_num file_blk
    one ← read_blocks 1 abs_blk_num
    if not (one.fraction == 0)
        then pure (record { buf = one.buf; read_blk_num = 0; fraction = one.fraction })
        else (do
          fail_if (not (one.read_blk_num == 1)) eio
          rest ← read_loop inode_num n (add32 file_blk 1)
          pure (record rest { buf = one.buf ++ rest.buf; read_blk_num = rest.read_blk_num + 1 }))

  -- `buf` of the result is what arrives in the caller's buffer.
  unfoldable pub read_file_data_block : ℕ → ℕ → ℕ → Cmd S Read
  read_file_data_block inode_num start_blk_num req_blk_num =
      if req_blk_num == 0 then pure nothing_read else (do
        inode ← read_inode sb store inode_num
        if leb inode.i_nr_blocks start_blk_num || leb (blks_of sb inode.i_size) start_blk_num
            then pure nothing_read
            else (do
              r ←
                  read_loop inode_num (trimmed (blks_of sb inode.i_size) start_blk_num req_blk_num)
                    start_blk_num
              pure (partial_end sb inode start_blk_num r)))

  -- Whether the block number lies outside the data region.
  abbrev pub outside_data : ℕ → Bool
  outside_data abs_blk_num =
      ltb abs_blk_num sb.data_region_start
      || leb (add32 sb.data_region_start sb.data_blk_num) abs_blk_num

  unfoldable pub write_loop : ℕ → ℕ → ℕ → List ℕ → Cmd S Written
  write_loop inode_num zero file_blk buf = pure (record { written_blk_num = 0; fraction = 0 })
  write_loop inode_num (suc n) file_blk buf = do
    abs_blk_num ← resolve_file_data_block sb store fuel inode_num file_blk
    fail_if (outside_data abs_blk_num) einval
    one ← write_blocks (take sb.blk_size buf) 1 abs_blk_num
    if not (one.fraction == 0)
        then pure (record { written_blk_num = 0; fraction = one.fraction })
        else (do
          fail_if (not (one.written_blk_num == 1)) eio
          rest ← write_loop inode_num n (add32 file_blk 1) (drop sb.blk_size buf)
          pure (record rest { written_blk_num = rest.written_blk_num + 1 }))

  unfoldable pub write_file_data_block : ℕ → List ℕ → ℕ → ℕ → Cmd S Written
  write_file_data_block inode_num buf start_blk_num req_blk_num =
      if req_blk_num == 0 then pure (record { written_blk_num = 0; fraction = 0 }) else (do
        inode ← read_inode sb store inode_num
        fail_if (leb inode.i_nr_blocks start_blk_num) einval
        write_loop inode_num
            (if ltb (sub32 inode.i_nr_blocks start_blk_num) req_blk_num
              then sub32 inode.i_nr_blocks start_blk_num
              else req_blk_num)
            start_blk_num buf)

  -- A whole block that is read, or MOFS_EIO.
  abbrev pub read_whole : ℕ → Cmd S (List ℕ)
  read_whole abs_blk_num = do
    one ← read_blocks 1 abs_blk_num
    fail_if (not (one.read_blk_num == 1) || not (one.fraction == 0)) eio
    pure one.buf

  unfoldable pub zero_partial_block_tail : ℕ → ℕ → ℕ → Cmd S (Unit {0})
  zero_partial_block_tail inode_num blk_idx tail_start = do
    fail_if (leb sb.blk_size tail_start) einval
    mem ← malloc sb.blk_size
    abs_blk_num ← resolve_file_data_block sb store fuel inode_num blk_idx
    buf ← as_eio (read_whole abs_blk_num)
    w ← as_eio (write_blocks (zero_at buf tail_start (sub32 sb.blk_size tail_start)) 1 abs_blk_num)
    fail_if (not (w.written_blk_num == 1) || not (w.fraction == 0)) eio

  -- The block of a file for a read-modify-write: zeros from `current_blk_num` on, else what `load` reads.
  abbrev pub loaded_or_zero : ℕ → ℕ → Cmd S (List ℕ) → Cmd S (List ℕ)
  loaded_or_zero current_blk_num file_blk load =
      if leb current_blk_num file_blk then pure (replicate sb.blk_size 0) else load

  -- The preload of `zero_file_byte_range`: what stands in `buf_tmp` after it.
  unfoldable pub preload_range : ℕ → ℕ → ℕ → ℕ → Cmd S (List ℕ)
  preload_range inode_num current_blk_num zero file_blk = pure []
  preload_range inode_num current_blk_num (suc n) file_blk = do
    piece ← loaded_or_zero current_blk_num file_blk (do
      abs_blk_num ← resolve_file_data_block sb store fuel inode_num file_blk
      as_eio (read_whole abs_blk_num))
    rest ← preload_range inode_num current_blk_num n (add32 file_blk 1)
    pure (piece ++ rest)

  abbrev pub range_blks : ℕ → ℕ → ℕ
  range_blks from_off to_off =
      add32 (sub32 (sub32 to_off 1 / sb.blk_size) (from_off / sb.blk_size)) 1

  unfoldable pub zero_file_byte_range : ℕ → ℕ → ℕ → Cmd S (Unit {0})
  zero_file_byte_range inode_num from_off to_off = if leb to_off from_off then pure tt else (do
    inode ← read_inode sb store inode_num
    mem ← malloc (mul32 (range_blks from_off to_off) sb.blk_size)
    buf_tmp ←
        preload_range inode_num (blks_of sb inode.i_size) (range_blks from_off to_off)
          (from_off / sb.blk_size)
    w ←
        write_file_data_block inode_num
          (zero_at buf_tmp (from_off - from_off / sb.blk_size * sb.blk_size) (to_off - from_off))
          (from_off / sb.blk_size) (range_blks from_off to_off)
    pure tt)

  -- The stamp and the write of an inode with a new size, at the end of both branches.
  unfoldable pub commit_size : ℕ → Inode → ℕ → Cmd S (Unit {0})
  commit_size inode_num inode new_size = do
    stamped ←
        inode_stamp_now sb store (time_mtime + time_ctime) (record inode { i_size = new_size })
    write_inode sb store inode_num stamped

  abbrev pub keep_blks : ℕ → ℕ
  keep_blks new_size = if new_size == 0 then 0 else blks_of sb new_size

  unfoldable pub shrink_inode : ℕ → Inode → ℕ → Cmd S (Unit {0})
  shrink_inode inode_num inode new_size = do
    if ltb 0 new_size && (not (new_size % sb.blk_size == 0) && ltb 0 (keep_blks new_size))
        then zero_partial_block_tail inode_num (sub32 (keep_blks new_size) 1)
            (new_size % sb.blk_size)
        else pure tt
    if ltb (keep_blks new_size) inode.i_nr_blocks
        then free_data_block sb store fuel inode_num (keep_blks new_size)
            (sub32 inode.i_nr_blocks (keep_blks new_size))
        else pure tt
    again ← read_inode sb store inode_num
    commit_size inode_num again new_size

  unfoldable pub grow_inode : ℕ → Inode → ℕ → Cmd S (Unit {0})
  grow_inode inode_num inode new_size =
      let alloc = ltb inode.i_nr_blocks (blks_of sb new_size) in
      let required = sub32 (blks_of sb new_size) inode.i_nr_blocks in
      let rollback =
        (if alloc
          then free_data_block sb store fuel inode_num inode.i_nr_blocks required
          else pure tt) in
      (do
        if alloc then allocate_data_block sb store fuel inode_num required else pure tt
        or_rollback
            (do
              again ← (if alloc then read_inode sb store inode_num else pure inode)
              zero_file_byte_range inode_num inode.i_size new_size
              commit_size inode_num again new_size)
            rollback)

  module _ (caller : Caller sb store) where
    open caller use {get_caller_user, is_caller_in_group}

    -- The user context of the caller, which has to be valid.
    abbrev pub valid_user : Cmd S User
    valid_user = do user ← get_caller_user; fail_if (not user.valid) eperm; pure user

    unfoldable pub truncate_inode : ℕ → ℕ → Cmd S (Unit {0})
    truncate_inode inode_num new_size = do
      inode ← read_inode sb store inode_num
      fail_if (not (bit_and inode.i_mode ftype_dir == 0)) eisdir
      user ← valid_user
      check_open_permission is_caller_in_group oflag_wronly user.uid inode
      if new_size == inode.i_size
          then pure tt
          else if ltb new_size inode.i_size
          then shrink_inode inode_num inode new_size
          else grow_inode inode_num inode new_size

    -- `length` is not negative.
    unfoldable pub truncate_core : ℕ → ℕ → Cmd S (Unit {0})
    truncate_core inode_num length = do
      fail_if (ltb (max_file_bytes sb) length) efbig
      truncate_inode inode_num (u32 length)
