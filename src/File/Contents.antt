-- ===== src/File/Contents.antt =====
-- The bytes that a read through the file layer gives: those of the file, from the offset on.
use mofs.Base.{ℕ, ◌≡◌, ap, List, length}
use mofs.Base.Run
use mofs.Core.{Superblock}
use mofs.Store.{Store}
use mofs.Caller.{Caller}
use mofs.Bitmap.Transfer.{Unseen}
use mofs.Codec.{inode_at}
use mofs.Inode.Table.{table_blk, table_offset}
use mofs.Inode.Table.{inode_in}
use mofs.File.Reads.{blocks_from, IsFile, Maps-Unseen}

module _ (sb : Superblock) (store : Store sb) where
  open store use {S, IsSound, content, content_length, malloc, malloc_lem}

  -- The bytes of all the blocks of a file.
  abbrev pub file_bytes : S → List ℕ → List ℕ
  file_bytes s ptrs = blocks_from sb store s ptrs 0 (length ptrs)

  pub inode_in-Unseen :
      {s t : S} (n : ℕ) → Unseen sb store s t → inode_in sb store t n ≡ inode_in sb store s n
  inode_in-Unseen n u =
      ap (λ x. inode_at x (table_offset sb store n)) (u.same (table_blk sb store n))

  pub IsFile-Unseen :
      {s t : S} (n : ℕ) {ptrs : List ℕ} {nodes : ℕ}
      → Unseen sb store s t
      → IsFile sb store s n ptrs nodes
      → IsFile sb store t n ptrs nodes
  IsFile-Unseen n u f = record {
    maps = Maps-Unseen sb store n u f.maps;
    numbers = f.numbers;
    few = f.few;
    in_volume = f.in_volume;
    addressable = f.addressable;
  }
