-- ===== src/RawIo.antt =====
-- src/core/modules/mofs_block.c, the cache-bypassing transfers: whole blocks over the device.
-- A buffer is the list of its bytes. NULL pointers and negative descriptors are not represented.
pub mod Laws
use mofs.Base.{
  ℕ, zero, suc, ◌+◌, ◌*◌, ◌%◌, List, [], ◌++◌, not, ◌==◌, if◌then◌else◌, length, take, drop, slice,
}
use mofs.Base.Run.{Cmd, pure, ◌>>=◌, ◌>>◌, fail, fail_if}
use mofs.Errno.{einval}
use mofs.Core.{Superblock}
use mofs.Platform.{Platform}

-- The results of a read: the bytes that arrived, `*read_blk_num` and `*fraction`.
pub record Read : Type 0 where
  pub buf : List ℕ
  pub read_blk_num : ℕ
  pub fraction : ℕ

-- The results of a write: `*written_blk_num` and `*fraction`.
pub record Written : Type 0 where
  pub written_blk_num : ℕ
  pub fraction : ℕ

module _ (os : Platform) (sb : Superblock) where
  open os use {W, bytes, dev_read, dev_write, dev_lseek}

  -- block `b` as the device holds it
  abbrev pub dev_block : W → ℕ → List ℕ
  dev_block w b = slice (bytes w) (b * sb.blk_size) sb.blk_size

  unfoldable pub read_one_block : Cmd W (List ℕ)
  read_one_block = if sb.blk_size == 0 then fail einval else dev_read sb.blk_size

  unfoldable pub read_rounds : ℕ → Cmd W Read
  read_rounds zero = pure (record { buf = []; read_blk_num = 0; fraction = 0 })
  read_rounds (suc n) = do
    got ← read_one_block
    if length got == sb.blk_size
        then (do
          r ← read_rounds n
          pure (record r { buf = got ++ r.buf; read_blk_num = r.read_blk_num + 1 }))
        else pure (record { buf = got; read_blk_num = 0; fraction = length got })

  -- the seek with its alignment check, common to both directions
  unfoldable pub seek_block : ℕ → Cmd W (Unit {0})
  seek_block start_blk_num = do
    fail_if (sb.blk_size == 0) einval
    new_offset ← dev_lseek (start_blk_num * sb.blk_size)
    fail_if (not (new_offset % sb.blk_size == 0)) einval

  unfoldable pub read_continuous_blocks_raw : ℕ → ℕ → Cmd W Read
  unfolding seek_block read_rounds read_one_block
  read_continuous_blocks_raw req_blk_num start_blk_num = do
    seek_block start_blk_num
    read_rounds req_blk_num

  unfoldable pub write_one_block : List ℕ → Cmd W ℕ
  write_one_block buf = if sb.blk_size == 0 then fail einval else dev_write (take sb.blk_size buf)

  unfoldable pub write_rounds : ℕ → List ℕ → Cmd W Written
  write_rounds zero buf = pure (record { written_blk_num = 0; fraction = 0 })
  write_rounds (suc n) buf = do
    written ← write_one_block buf
    if written == sb.blk_size
        then (do
          r ← write_rounds n (drop sb.blk_size buf)
          pure (record r { written_blk_num = r.written_blk_num + 1 }))
        else pure (record { written_blk_num = 0; fraction = written })

  unfoldable pub write_continuous_blocks_raw : List ℕ → ℕ → ℕ → Cmd W Written
  unfolding seek_block write_rounds write_one_block
  write_continuous_blocks_raw buf req_blk_num start_blk_num = do
    seek_block start_blk_num
    write_rounds req_blk_num buf
