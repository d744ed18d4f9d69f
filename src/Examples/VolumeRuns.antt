-- ===== src/Examples/VolumeRuns.antt =====
-- The theorems on bitmaps, inodes and block lists at the volume with one file.
use mofs.Base.{◌≢◌, u32_mod, ◌≤◌, ◌<◌, ◌≡◌, refl, true, [], ◌∷◌, arith, length, take}
use mofs.Base.Run.{Ends, returns}
use mofs.Core.{list_ptrs_per_node}
use mofs.Codec.{InWidth}
use mofs.Bitmap.{set_bitmap_bit, find_free_indices}
use mofs.Bitmap.Transfer.{Unseen}
use mofs.Bitmap.Marks.{Marked, set_bitmap_bit-Ends}
use mofs.Bitmap.Search.{free_entries, find_free_indices-Ends}
use mofs.Inode.{read_inode, write_inode, allocate_inode}
use mofs.Inode.Table.{inode_in, Rewritten, read_inode-Ends, write_inode-Ends}
use mofs.Inode.Entries.{Allocated, SameBits, allocate_inode-Ends}
use mofs.BlockList.{no_end, resolve_file_data_block, export_data_block_list, resolve_loop}
use mofs.BlockList.Chain.{Chain, ends, node}
use mofs.BlockList.Files.{
  Maps, export_data_block_list-Ends, resolve_file_data_block-Ends, resolve_loop-Finishes,
}
use mofs.Store.{Unseen-refl}
use mofs.Examples.Blocks.{volume, in_blocks, file, one_file, one_file-IsWhole}

set_bitmap_bit_example :
    Ends
      (λ _ t. Marked volume in_blocks one_file 2 5 true t)
      (λ _ t. Unseen volume in_blocks one_file t)
      (set_bitmap_bit volume in_blocks 2 5 true one_file)
set_bitmap_bit_example =
    set_bitmap_bit-Ends volume in_blocks {s = one_file} 2 5 true (omega arith, omega arith)
      (omega arith) one_file-IsWhole

find_free_indices_example :
    Ends
      (λ l t.
        Unseen volume in_blocks one_file t
        × (l ≡ take 2 (free_entries volume in_blocks 2 20 0 one_file 1 0))
        × (2 ≤ length l))
      (λ _ t. Unseen volume in_blocks one_file t)
      (find_free_indices volume in_blocks 2 1 20 0 2 one_file)
find_free_indices_example =
    find_free_indices-Ends volume in_blocks 2 20 0 {s = one_file} 1 2 (omega arith, omega arith)
      (omega arith) (omega arith) one_file-IsWhole

allocate_inode_example :
    Ends
      (Allocated volume in_blocks one_file)
      (λ _ t. SameBits volume in_blocks one_file t)
      (allocate_inode volume in_blocks one_file)
allocate_inode_example =
    allocate_inode-Ends volume in_blocks {s = one_file}
      (record { sized = (omega arith, omega arith); blocks = omega arith; bits = omega arith })
      one_file-IsWhole

file-InWidth : InWidth file
file-InWidth = record {
  size = omega arith;
  links = omega arith;
  mode = omega arith;
  uid = omega arith;
  gid = omega arith;
  data_head = omega arith;
  nr_blocks = omega arith;
  atime = omega arith;
  mtime = omega arith;
  ctime = omega arith;
  padding = refl;
}

read_inode_example :
    Ends
      (λ i t.
        Unseen volume in_blocks one_file t × (i ≡ inode_in volume in_blocks one_file 3) × (3 < 16))
      (λ _ t. Unseen volume in_blocks one_file t)
      (read_inode volume in_blocks 3 one_file)
read_inode_example =
    read_inode-Ends volume in_blocks {s = one_file} 3 (omega arith) one_file-IsWhole

write_inode_example :
    Ends
      (λ _ t. Rewritten volume in_blocks one_file 4 file t)
      (λ _ t. Unseen volume in_blocks one_file t)
      (write_inode volume in_blocks 4 file one_file)
write_inode_example =
    write_inode-Ends volume in_blocks {s = one_file} 1 4 file (omega arith) (omega arith, refl)
      file-InWidth one_file-IsWhole

file_chain : Chain volume in_blocks one_file 10 (11 ∷ []) 1
unfolding list_ptrs_per_node
file_chain = node (λ e. omega arith) (omega arith) (omega arith) ends

file-Maps : Maps volume in_blocks one_file file (11 ∷ []) 1
file-Maps = record { chain = file_chain; count = refl }

export_data_block_list_example :
    Ends
      (λ l t. Unseen volume in_blocks one_file t × (l ≡ 11 ∷ []))
      (λ _ t. Unseen volume in_blocks one_file t)
      (export_data_block_list volume in_blocks 2 file 1 one_file)
export_data_block_list_example =
    export_data_block_list-Ends volume in_blocks {s = one_file} 2 file file-Maps (omega arith)
      one_file-IsWhole

resolve_file_data_block_example :
    Ends
      (λ p t. Unseen volume in_blocks one_file t × (0 < 1) × (p ≡ 11))
      (λ _ t. Unseen volume in_blocks one_file t)
      (resolve_file_data_block volume in_blocks 2 3 0 one_file)
resolve_file_data_block_example =
    resolve_file_data_block-Ends volume in_blocks {s = one_file} 2 3 0 (omega arith) file-Maps
      (omega arith) one_file-IsWhole

resolve_loop_example :
    Ends
      (λ _ t. Unseen volume in_blocks one_file t)
      (λ e _. (e < u32_mod) × (e ≢ no_end))
      (resolve_loop volume in_blocks 2 10 5 one_file)
resolve_loop_example =
    resolve_loop-Finishes volume in_blocks {s = one_file} 2 5 one_file (λ b s. returns tt)
      file_chain (omega arith) (Unseen-refl _ _ one_file-IsWhole)
