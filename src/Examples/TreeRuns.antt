-- ===== src/Examples/TreeRuns.antt =====
-- The theorems on files, handles, directories and paths at the volume with two directories.
use mofs.Base.{
  ℕ, ◌≤◌, ◌<◌, ◌≡◌, ◌+◌, refl, true, false, [], ◌∷◌, arith, length, some, if◌then◌else◌, ◌==◌,
}
use mofs.Base.Run.{Ends, returns}
use mofs.Base.Scan.{first_index}
use mofs.Store.{Unseen-refl}
use mofs.Bitmap.Transfer.{Unseen}
use mofs.Path.{path_to_inode_num, tokens}
use mofs.Path.Follow.{follow}
use mofs.Pool.{Opened}
use mofs.File.{read_file_data_block}
use mofs.File.Handles.{Handle, zero_handle, opened_handle, open_handle, close_core, read_core}
use mofs.File.Pooled.{Opens, Closes, open_handle-Ends, close_core-Ends}
use mofs.File.Limits.{OnlyOffset, Advanced, read_core-Ends}
use mofs.File.Reads.{Fetched, read_file_data_block-Ends}
use mofs.Dir.{find_dir_entry}
use mofs.Dir.Dotdot.{directory_is_ancestor}
use mofs.Dir.Errors.{Errors}
use mofs.Dir.Search.{Seen, listed, find_dir_entry-Ends}
use mofs.Dir.Ancestors.{Failed, Decides, Rooted, at_root, climbs, directory_is_ancestor-Ends}
use mofs.Tree.{name_calls}
use mofs.Tree.Resolved.{volume_names, path_to_inode_num-Listed}
use mofs.Examples.Blocks.{Disk}
use mofs.Examples.Forest.{
  wood, in_wood, planted, planted-IsWhole, planted-WholeReads, planted-files, planted-sizes,
  planted-Catalogue, blocks_of, name_a, root_caller,
}

read_file_data_block_example :
    Ends
      (λ r t. Unseen wood in_wood planted t × Fetched wood in_wood planted (42 ∷ []) 64 0 2 r)
      (λ _ t. Unseen wood in_wood planted t)
      (read_file_data_block wood in_wood 3 3 0 2 planted)
read_file_data_block_example =
    read_file_data_block-Ends wood in_wood {s = planted} 3 3 0 2 planted-WholeReads
      (planted-files 3 (omega arith)) (planted-sizes 3 (omega arith)) (omega arith) (omega arith)
      planted-IsWhole

-- One handle is in use, for inode 3, with the flags for reading and writing.
abbrev one_open : Opened Disk Handle
one_open = record { fs = planted; pool = λ i. if i == 0 then opened_handle 3 3 else zero_handle }

open_handle_example :
    Ends
      (Opens one_open 2 1)
      (λ _ p. (p ≡ one_open) × ((j : ℕ) → j < 64 → (one_open.pool j).used ≡ true))
      (open_handle 2 1 one_open)
open_handle_example = open_handle-Ends 2 1 one_open

close_core_example :
    Ends
      (Closes one_open 0)
      (λ _ p. (p ≡ one_open) × ((one_open.pool 0).used ≡ false))
      (close_core (some 0) one_open)
close_core_example = close_core-Ends 0 one_open

read_core_example :
    Ends
      (λ d p.
        (d.read_size ≤ 40)
        × (length d.bytes ≤ d.read_size)
        × Advanced one_open.pool 0 true (30 + d.read_size) p.pool)
      (λ _ p. OnlyOffset one_open.pool 0 p.pool)
      (read_core wood in_wood 3 root_caller 0 40 30 true one_open)
read_core_example = read_core-Ends wood in_wood 3 root_caller 0 40 30 true one_open

find_dir_entry_example :
    Ends
      (Seen wood in_wood planted (listed wood in_wood planted blocks_of 2 name_a))
      (λ _ t. Unseen wood in_wood planted t)
      (find_dir_entry wood in_wood 3 name_a 2 planted)
find_dir_entry_example =
    find_dir_entry-Ends wood in_wood {s = planted} 3 name_a 2 planted-WholeReads planted-Catalogue
      planted-IsWhole (Unseen-refl _ _ planted-IsWhole)

path_example :
    Ends
      (λ r t.
        Unseen wood in_wood planted t
        × ((i : ℕ) × (r ≡ some i)
            × (follow
                  (volume_names wood in_wood 3 root_caller planted planted-WholeReads
                    planted-Catalogue planted-IsWhole)
                  2
                  (tokens [] (47 ∷ 97 ∷ []))
                ≡ some i)))
      (λ _ t. Unseen wood in_wood planted t)
      (path_to_inode_num (name_calls wood in_wood 3 root_caller) (47 ∷ 97 ∷ []) planted)
path_example =
    path_to_inode_num-Listed wood in_wood 3 root_caller (47 ∷ 97 ∷ []) planted planted-WholeReads
      planted-Catalogue planted-IsWhole

planted-Rooted : Rooted wood in_wood 3 planted blocks_of 3 1
unfolding first_index
planted-Rooted =
    climbs {d = 3} {p = 2} (λ e. omega arith) (omega arith, omega arith) refl (λ e. omega arith)
      at_root

wood-Errors : Errors wood in_wood
wood-Errors = record { reads = λ b s. returns tt; mallocs = λ n s. returns tt }

ancestor_example :
    Ends
      (Decides wood in_wood 3 planted blocks_of 2 3)
      (Failed wood in_wood 3 planted)
      (directory_is_ancestor wood in_wood 3 2 3 planted)
ancestor_example =
    directory_is_ancestor-Ends wood in_wood 3 {s = planted} 2 planted-WholeReads wood-Errors
      planted-Catalogue planted-Rooted (omega arith) planted-IsWhole
