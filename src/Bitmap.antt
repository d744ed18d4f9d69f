-- ===== src/Bitmap.antt =====
-- src/core/modules/mofs_block.c and mofs_inode.c, the data bitmap and the inode bitmap. The two files
-- have the same code for both, with the inodes below 3 left out; `start`, `num` and `reserved` stand for
-- the region's first block, the number of entries and the number of the reserved ones.
pub mod Bits
pub mod Transfer
pub mod Marks
pub mod Scanning
pub mod Search
use mofs.Base.{
  ℕ, zero, suc, ◌+◌, ◌-◌, ◌*◌, ◌/◌, ◌%◌, Bool, true, false, not, ◌||◌, List, [], ◌∷◌, ◌++◌, ltb,
  leb, ◌==◌, if◌then◌else◌, length, get_or, set, add32, sub32, mul32, u32,
}
use mofs.Base.Bits.{bit_clear, set_bit, clear_bit}
use mofs.Base.Run.{Cmd, pure, ◌>>=◌, ◌>>◌, fail_if, ignore}
use mofs.Errno.{einval, eio, enospc}
use mofs.Core.{Superblock}
use mofs.Store.{Store}

-- `bitmap_buf[target_byte] |= ...` and `&= ~...`
abbrev pub toggle : List ℕ → ℕ → ℕ → Bool → List ℕ
toggle bitmap_buf target_byte target_bit set_used = set bitmap_buf target_byte (
    if set_used
    then set_bit (get_or bitmap_buf target_byte 0) target_bit
    else clear_bit (get_or bitmap_buf target_byte 0) target_bit)

-- The loop over the bits of one byte, for the `n` from `bit_idx` on; `room` is what the caller still wants.
unfoldable pub scan_bits : ℕ → ℕ → ℕ → ℕ → ℕ → ℕ → ℕ → List ℕ
scan_bits num reserved byte first zero bit_idx room = []
scan_bits num reserved byte first (suc n) bit_idx zero = []
scan_bits num reserved byte first (suc n) bit_idx (suc room) =
    let idx = u32 (first + bit_idx) in
    let skipped = scan_bits num reserved byte first n (bit_idx + 1) (suc room) in
    let rest = scan_bits num reserved byte first n (bit_idx + 1) room in
    if leb num idx
    then []
    else if ltb idx reserved
    then skipped
    else if bit_clear byte bit_idx
    then idx ∷ rest
    else skipped

-- The loop over the bytes of one bitmap block, whose first bit has the index `first`.
unfoldable pub scan_bytes : ℕ → ℕ → List ℕ → ℕ → ℕ → List ℕ
scan_bytes num reserved [] first room = []
scan_bytes num reserved (byte ∷ bitmap_buf) first room =
    let found = scan_bits num reserved byte first 8 0 room in
    found ++ scan_bytes num reserved bitmap_buf (first + 8) (room - length found)

module _ (sb : Superblock) (store : Store sb) where
  open store use {S, read_blocks, write_blocks, malloc}

  abbrev pub bits_per_bitmap : ℕ
  bits_per_bitmap = mul32 sb.blk_size 8

  -- A read of one block and its check.
  unfoldable pub read_block : ℕ → Cmd S (List ℕ)
  read_block blk = do
    r ← read_blocks 1 blk
    fail_if (not (r.read_blk_num == 1) || not (r.fraction == 0)) eio
    pure r.buf

  -- A write of one block and its check.
  unfoldable pub write_block : List ℕ → ℕ → Cmd S (Unit {0})
  write_block buf blk = do
    w ← write_blocks buf 1 blk
    fail_if (not (w.written_blk_num == 1) || not (w.fraction == 0)) eio

  -- What `set_data_bitmap_bit` and `set_inode_bitmap_bit` do after their range checks.
  unfoldable pub set_bitmap_bit : ℕ → ℕ → Bool → Cmd S (Unit {0})
  set_bitmap_bit start idx set_used = do
    mem ← malloc sb.blk_size
    bitmap_buf ← read_block (add32 start (idx / bits_per_bitmap))
    write_block (toggle bitmap_buf (idx % bits_per_bitmap / 8) (idx % bits_per_bitmap % 8) set_used)
        (add32 start (idx / bits_per_bitmap))

  -- The loop over the blocks of the bitmap.
  unfoldable pub scan_blocks : ℕ → ℕ → ℕ → ℕ → ℕ → ℕ → Cmd S (List ℕ)
  scan_blocks start num reserved zero blk_idx room = pure []
  scan_blocks start num reserved (suc n) blk_idx zero = pure []
  scan_blocks start num reserved (suc n) blk_idx (suc room) = do
    bitmap_buf ← read_block (add32 start blk_idx)
    let found = scan_bytes num reserved bitmap_buf (blk_idx * bits_per_bitmap) (suc room) in
        (do
          rest ← scan_blocks start num reserved n (blk_idx + 1) (suc room - length found)
          pure (found ++ rest))

  -- `find_free_data_block_indices` and `find_free_inode_indices`
  unfoldable pub find_free_indices : ℕ → ℕ → ℕ → ℕ → ℕ → Cmd S (List ℕ)
  find_free_indices start bitmap_blk_num num reserved required_alloc_num =
      if required_alloc_num == 0 then pure [] else (do
        mem ← malloc sb.blk_size
        allocated ← scan_blocks start num reserved bitmap_blk_num 0 required_alloc_num
        fail_if (ltb (length allocated) required_alloc_num) enospc
        pure allocated)
