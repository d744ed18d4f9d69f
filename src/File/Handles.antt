-- ===== src/File/Handles.antt =====
-- src/core/modules/mofs_file.c and include/mofs_file.h, the open files: the pool of handles, and reads
-- and writes through one. A handle is its index in the pool; offsets are the ones that are not negative.
-- The sizes that come with an error number are not represented.
use mofs.Base.{
  ℕ, zero, suc, ◌+◌, ◌-◌, ◌*◌, ◌/◌, ◌%◌, Bool, true, false, not, ◌||◌, ◌&&◌, Option, none, some,
  List, [], ◌++◌, ltb, leb, ◌==◌, if◌then◌else◌, length, take, drop, bit_and, u32, add32, sub32,
  mul32,
}
use mofs.Base.Run.{Cmd, pure, fail, get, modify, ◌>>=◌, ◌>>◌, fail_if, or_rollback}
use mofs.Base.Scan.{first_index}
use mofs.Errno.{einval, eio, eisdir, efbig, ebadf, enfile}
use mofs.Core.{Superblock, Inode, max_file_bytes}
use mofs.Store.{Store, splice}
use mofs.Caller.{Caller}
use mofs.Inode.{
  read_inode, write_inode, inode_stamp_now, inode_stamp_persist, time_atime, time_mtime, time_ctime,
}
use mofs.BlockList.{resolve_file_data_block, allocate_data_block, free_data_block}
use mofs.Perm.{check_open_permission, oflag_rdonly, oflag_wronly, oflag_accmode}
use mofs.Path.{ftype_dir}
use mofs.Pool.{Opened, on_fs, put_handle, also}
use mofs.File.{
  blks_of, zero_at, read_file_data_block, write_file_data_block, outside_data, read_whole,
  loaded_or_zero, valid_user,
}

-- MOFS_FILEHANDLE_POOL_SIZE
abbrev pub filehandle_pool_size : ℕ
filehandle_pool_size = 64

-- `struct mofs_filehandle`
pub record Handle : Type 0 where
  pub used : Bool
  pub inode_num : ℕ
  pub file_offset : ℕ
  pub open_flags : ℕ

abbrev pub zero_handle : Handle
zero_handle = record { used = false; inode_num = 0; file_offset = 0; open_flags = 0 }

-- a handle as it is opened
abbrev pub opened_handle : ℕ → ℕ → Handle
opened_handle inode_num flags = record {
  used = true;
  inode_num = inode_num;
  file_offset = 0;
  open_flags = flags;
}

-- What a read returns: `*read_size` bytes, in `buf`.
pub record Data : Type 0 where
  pub bytes : List ℕ
  pub read_size : ℕ

module _ {S : Type 0} where
  unfoldable pub get_free_filehandle_index : Opened S Handle → Option ℕ
  get_free_filehandle_index o = first_index filehandle_pool_size 0 (λ i. not (o.pool i).used)

  -- The end of `mofs_open_core`: a free handle for the inode.
  unfoldable pub open_handle : ℕ → ℕ → Cmd (Opened S Handle) ℕ
  open_handle inode_num flags = do
    o ← get
    elim (get_free_filehandle_index o) [
      | none ↦ fail enfile
      | some index ↦ (do modify (put_handle index (opened_handle inode_num flags)); pure index)
    ]

  -- `*handle` is the result: NULL.
  unfoldable pub close_core : Option ℕ → Cmd (Opened S Handle) (Option ℕ)
  close_core none = fail einval
  close_core (some i) = do
    o ← get
    fail_if (not (o.pool i).used) einval
    modify (put_handle i zero_handle)
    pure none

  -- `(*handle)->file_offset = offset` if `update_offset`
  abbrev pub set_offset : Bool → ℕ → ℕ → Opened S Handle → Opened S Handle
  set_offset update_offset i offset o =
      if update_offset then put_handle i (record (o.pool i) { file_offset = offset }) o else o

-- The number of bytes of a transfer from the position `pos` of its first block on, `size` at most.
abbrev pub moved : ℕ → ℕ → ℕ → ℕ
moved total pos size =
    if ltb total pos then 0 else if ltb size (total - pos) then size else total - pos

-- `req_blk_num` of `mofs_read_core`
abbrev pub span_blks : Superblock → ℕ → ℕ → ℕ
span_blks sb offset size = u32 ((offset % sb.blk_size + size + sb.blk_size - 1) / sb.blk_size)

-- `req_blk_num` of `mofs_write_core`, on 32 bits
abbrev pub write_blks : Superblock → ℕ → ℕ → ℕ
write_blks sb offset size =
    sub32 (add32 (add32 (offset % sb.blk_size) size) sb.blk_size) 1 / sb.blk_size

-- `write_size_req`: what fits below the size limit
abbrev pub write_room : Superblock → ℕ → ℕ → ℕ
write_room sb offset size =
    if ltb (u32 (max_file_bytes sb - offset)) size then u32 (max_file_bytes sb - offset) else size

module _ (sb : Superblock) (store : Store sb) (fuel : ℕ) (caller : Caller sb store) where
  open store use {S, malloc}
  open caller use {is_caller_in_group}

  -- What `mofs_read_core` does with the inode after its checks on it: the bytes at the offset.
  unfoldable pub read_at : ℕ → ℕ → ℕ → Cmd S Data
  read_at inode_num size offset = do
    buf_tmp ← malloc (mul32 (span_blks sb offset size) sb.blk_size)
    r ←
        read_file_data_block sb store fuel inode_num (u32 (offset / sb.blk_size))
          (span_blks sb offset size)
    let read_size =
          moved (u32 (r.read_blk_num * sb.blk_size + r.fraction)) (offset % sb.blk_size) size in
        pure (record {
          bytes =
              take read_size (drop (offset % sb.blk_size) (r.buf ++ drop (length r.buf) buf_tmp));
          read_size = read_size;
        })

  -- The checks on the inode of a handle for an access with `flags`.
  unfoldable pub check_access : ℕ → ℕ → Cmd S Inode
  check_access inode_num flags = do
    inode ← read_inode sb store inode_num
    user ← valid_user sb store fuel caller
    check_open_permission is_caller_in_group flags user.uid inode
    fail_if (not (bit_and inode.i_mode ftype_dir == 0)) eisdir
    pure inode

  unfoldable pub read_core : ℕ → ℕ → ℕ → Bool → Cmd (Opened S Handle) Data
  read_core i size offset update_offset = do
    o ← get
    fail_if (not (o.pool i).used || size == 0) einval
    fail_if (bit_and (o.pool i).open_flags oflag_rdonly == 0) ebadf
    inode ← on_fs (check_access (o.pool i).inode_num (o.pool i).open_flags)
    d ← on_fs (read_at (o.pool i).inode_num size offset)
    modify (set_offset update_offset i (u32 (offset + d.read_size)))
    if ltb 0 d.read_size
        then on_fs (inode_stamp_persist sb store (o.pool i).inode_num time_atime)
        else pure tt
    pure d

  -- The preload of `mofs_write_core`.
  unfoldable pub preload_write : ℕ → ℕ → ℕ → ℕ → Cmd S (List ℕ)
  preload_write inode_num current_blk_num zero file_blk = pure []
  preload_write inode_num current_blk_num (suc n) file_blk = do
    piece ← loaded_or_zero sb store fuel current_blk_num file_blk (do
      abs_blk_num ← resolve_file_data_block sb store fuel inode_num file_blk
      fail_if (outside_data sb store fuel abs_blk_num) eio
      read_whole sb store fuel abs_blk_num)
    rest ← preload_write inode_num current_blk_num n (add32 file_blk 1)
    pure (piece ++ rest)

  -- The gap between the old end of the file and the offset, and the new bytes.
  abbrev pub with_gap : ℕ → ℕ → List ℕ → List ℕ
  with_gap old_size offset buf =
      let start_off = offset / sb.blk_size * sb.blk_size in
      let zero_from = (if ltb start_off old_size then old_size else start_off) in
      if ltb old_size offset && ltb zero_from offset
      then zero_at buf (zero_from - start_off) (offset - zero_from)
      else buf

  abbrev pub patched : ℕ → ℕ → List ℕ → List ℕ → List ℕ
  patched old_size offset new_bytes buf =
      splice (with_gap old_size offset buf) (offset % sb.blk_size) new_bytes

  -- The inode after a write of `written` bytes.
  abbrev pub extended : Inode → ℕ → ℕ → Inode
  extended inode offset written =
      if ltb inode.i_size (offset + written)
      then record inode { i_size = u32 (offset + written) }
      else inode

  unfoldable pub commit_write : ℕ → Inode → ℕ → ℕ → Cmd S (Unit {0})
  commit_write inode_num inode offset written = if written == 0 then pure tt else (do
    stamped ← inode_stamp_now sb store (time_mtime + time_ctime) (extended inode offset written)
    write_inode sb store inode_num stamped)

  -- The blocks of `mofs_write_core` up to the write: the inode as it is then, and the buffer. An error
  -- releases the blocks that were allocated.
  unfoldable pub prepare_write : ℕ → Inode → List ℕ → ℕ → Cmd S (Inode × List ℕ)
  prepare_write inode_num inode new_bytes offset =
      let start = u32 (offset / sb.blk_size) in
      let req = write_blks sb offset (length new_bytes) in
      let current = blks_of sb inode.i_size in
      let alloc = ltb current (add32 start req) in
      let required = sub32 (add32 start req) current in
      (do
        if alloc then allocate_data_block sb store fuel inode_num required else pure tt
        or_rollback
            (do
              again ← (if alloc then read_inode sb store inode_num else pure inode)
              mem ← malloc (mul32 req sb.blk_size)
              buf ← preload_write inode_num current req start
              pure (again, patched inode.i_size offset new_bytes buf))
            (if alloc then free_data_block sb store fuel inode_num current required else pure tt))

  -- The write itself, `new_bytes` being the bytes that fit: `*written_size`.
  unfoldable pub write_at : ℕ → Inode → List ℕ → ℕ → Cmd S (Inode × ℕ)
  write_at inode_num inode new_bytes offset = do
    p ← prepare_write inode_num inode new_bytes offset
    w ←
        write_file_data_block sb store fuel inode_num (p.1) (u32 (offset / sb.blk_size))
          (write_blks sb offset (length new_bytes))
    pure (
      p.0,
      moved (add32 (mul32 w.written_blk_num sb.blk_size) w.fraction) (offset % sb.blk_size)
          (length new_bytes),
    )

  -- `buf` holds the `size` bytes to write; the result is `*written_size`.
  unfoldable pub write_core : ℕ → List ℕ → ℕ → Bool → Cmd (Opened S Handle) ℕ
  write_core i buf offset update_offset = do
    o ← get
    fail_if (not (o.pool i).used || length buf == 0) einval
    fail_if (bit_and (o.pool i).open_flags oflag_wronly == 0) ebadf
    inode ← on_fs (check_access (o.pool i).inode_num (bit_and (o.pool i).open_flags oflag_accmode))
    fail_if (leb (max_file_bytes sb) offset) efbig
    if write_room sb offset (length buf) == 0 then pure 0 else (do
      w ← on_fs (
          write_at (o.pool i).inode_num inode (take (write_room sb offset (length buf)) buf) offset)
      also (on_fs (commit_write (o.pool i).inode_num (w.0) offset (w.1)))
          (set_offset update_offset i (u32 (offset + w.1)))
      pure (w.1))
