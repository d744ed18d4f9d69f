-- ===== src/Dir.antt =====
-- src/core/modules/mofs_dir.c, the entries of a directory: searched, added and removed. A directory is a
-- file of entries of 32 bytes, a name of 28 and the inode number; a name is the list of its characters
-- without the NUL. NULL pointers and negative inode numbers are not represented.
pub mod Dotdot
pub mod Search
pub mod Errors
pub mod Ancestors
use mofs.Base.{
  ℕ, zero, suc, ◌+◌, ◌-◌, ◌*◌, ◌/◌, ◌%◌, ◌^◌, Bool, true, false, not, ◌||◌, ◌&&◌, Option, none,
  some, List, [], ◌∷◌, ◌++◌, ltb, leb, ◌==◌, if◌then◌else◌, length, drop, replicate, bit_and, add32,
  u32,
}
use mofs.Base.Run.{Cmd, pure, fail, ◌>>=◌, ◌>>◌, fail_if, or_rollback}
use mofs.Base.Scan.{first_index}
use mofs.Errno.{einval, eio, enoent, enotdir, eexist, efbig}
use mofs.Core.{Superblock, Inode, max_file_data_blocks}
use mofs.Store.{Store, splice}
use mofs.RawIo.{Read, Written}
use mofs.Codec.{put32, get8, get32}
use mofs.Inode.{read_inode, write_inode, inode_stamp_now, time_mtime, time_ctime}
use mofs.BlockList.{allocate_data_block, free_data_block}
use mofs.Path.{ftype_dir, filename_len}
use mofs.File.{blks_of, zero_at, read_file_data_block, write_file_data_block}

-- sizeof(mofs_dirent_t)
abbrev pub dirent_size : ℕ
dirent_size = 32

-- The characters up to the NUL.
abbrev pub c_string : List ℕ → List ℕ
c_string [] = []
c_string (c ∷ cs) = if c == 0 then [] else c ∷ c_string cs

-- `mofs_strcmp(a, b) == 0`
abbrev pub same_name : List ℕ → List ℕ → Bool
same_name [] [] = true
same_name [] (d ∷ ds) = false
same_name (c ∷ cs) [] = false
same_name (c ∷ cs) (d ∷ ds) = (c == d) && same_name cs ds

-- `buf[j].name` and `buf[j].inode_num`
abbrev pub name_at : List ℕ → ℕ → List ℕ
name_at buf j = c_string (drop (j * dirent_size) buf)

abbrev pub inode_num_at : List ℕ → ℕ → ℕ
inode_num_at buf j = get32 (drop (j * dirent_size + filename_len) buf)

-- An entry over 32 bytes of zeros.
abbrev pub dirent_bytes : List ℕ → ℕ → List ℕ
dirent_bytes name inode_num = name ++ (replicate (filename_len - length name) 0 ++ put32 inode_num)

abbrev pub put_dirent : List ℕ → ℕ → List ℕ → ℕ → List ℕ
put_dirent buf j name inode_num = splice buf (j * dirent_size) (dirent_bytes name inode_num)

-- `.` and `..`
abbrev pub dot : List ℕ
dot = 46 ∷ []

abbrev pub dotdot : List ℕ
dotdot = 46 ∷ 46 ∷ []

unfoldable pub is_dot_or_dotdot_name : List ℕ → Bool
is_dot_or_dotdot_name name = same_name name dot || same_name name dotdot

-- A slot whose inode number or name is empty.
abbrev pub is_free_slot : List ℕ → ℕ → Bool
is_free_slot buf j = (inode_num_at buf j == 0) || (get8 (drop (j * dirent_size) buf) == 0)

-- A negative number as an `int`: not an inode.
abbrev pub as_int : ℕ → Option ℕ
as_int n = if ltb n (2 ^ 31) then some n else none

-- The buffer after a read that may have brought fewer bytes.
abbrev pub filled : Read → List ℕ → List ℕ
filled r buf = r.buf ++ drop (length r.buf) buf

-- The test for one block that is whole or the last part of the file.
abbrev pub one_or_part : Read → Bool
one_or_part r =
    ((r.read_blk_num == 1) && (r.fraction == 0)) || ((r.read_blk_num == 0) && not (r.fraction == 0))

module _ (sb : Superblock) (store : Store sb) (fuel : ℕ) where
  open store use {S, malloc}

  abbrev pub entries_per_blk : ℕ
  entries_per_blk = sb.blk_size / dirent_size

  -- `dirent_num`
  abbrev pub dirents_in : Read → ℕ
  dirents_in r = if not (r.fraction == 0) then r.fraction / dirent_size else entries_per_blk

  abbrev pub read_dir_block : ℕ → ℕ → Cmd S Read
  read_dir_block inode_num blk_idx = read_file_data_block sb store fuel inode_num blk_idx 1

  abbrev pub whole_write : Written → Cmd S (Unit {0})
  whole_write w = fail_if (not ((w.written_blk_num == 1) && (w.fraction == 0))) eio

  -- Writes one block of a directory, all of it.
  abbrev pub write_dir_block : ℕ → List ℕ → ℕ → Cmd S (Unit {0})
  write_dir_block inode_num buf blk_idx =
      write_file_data_block sb store fuel inode_num buf blk_idx 1 >>= whole_write

  unfoldable pub write_dot_entries : ℕ → ℕ → Cmd S (Unit {0})
  write_dot_entries child_inode_num parent_inode_num = do
    mem ← malloc sb.blk_size
    write_dir_block child_inode_num
        (put_dirent (put_dirent (replicate sb.blk_size 0) 0 dot child_inode_num) 1 dotdot
          parent_inode_num)
        0

  -- The loop over the blocks, `n` from `blk_idx` on, with the buffer as the last read left it.
  unfoldable pub empty_loop : ℕ → ℕ → ℕ → List ℕ → Cmd S Bool
  empty_loop inode_num zero blk_idx buf = pure true
  empty_loop inode_num (suc n) blk_idx buf = do
    r ← read_dir_block inode_num blk_idx
    fail_if (not (one_or_part r)) eio
    elim (first_index (dirents_in r) 0 (λ j.
        not (is_free_slot (filled r buf) j)
        && not (is_dot_or_dotdot_name (name_at (filled r buf) j)))) [
          | some j ↦ pure false
          | none ↦ empty_loop inode_num n (blk_idx + 1) (filled r buf)
        ]

  unfoldable pub is_directory_empty : ℕ → Cmd S Bool
  is_directory_empty inode_num = do
    inode ← read_inode sb store inode_num
    fail_if (bit_and inode.i_mode ftype_dir == 0) enotdir
    buf ← malloc sb.blk_size
    empty_loop inode_num (blks_of sb inode.i_size) 0 buf

  unfoldable pub find_loop : List ℕ → ℕ → ℕ → ℕ → List ℕ → Cmd S (Option ℕ)
  find_loop component parent_inode_num zero i buf = fail enoent
  find_loop component parent_inode_num (suc n) i buf = do
    r ← read_dir_block parent_inode_num i
    elim (first_index (dirents_in r) 0 (λ j. same_name (name_at (filled r buf) j) component)) [
      | some j ↦ pure (as_int (inode_num_at (filled r buf) j))
      | none ↦ find_loop component parent_inode_num n (i + 1) (filled r buf)
    ]

  -- `*child_inode_num`
  unfoldable pub find_dir_entry : List ℕ → ℕ → Cmd S (Option ℕ)
  find_dir_entry component parent_inode_num = do
    buf ← malloc sb.blk_size
    inode ← read_inode sb store parent_inode_num
    find_loop component parent_inode_num (blks_of sb inode.i_size) 0 buf

  abbrev pub is_entry : List ℕ → List ℕ → ℕ → Bool
  is_entry component buf j = not (inode_num_at buf j == 0) && same_name (name_at buf j) component

  unfoldable pub remove_loop : List ℕ → ℕ → ℕ → ℕ → List ℕ → Cmd S (Unit {0})
  remove_loop component parent_inode_num zero blk_idx buf = fail enoent
  remove_loop component parent_inode_num (suc n) blk_idx buf = do
    r ← read_dir_block parent_inode_num blk_idx
    fail_if (not (one_or_part r)) eio
    elim (first_index (dirents_in r) 0 (is_entry component (filled r buf))) [
      | some j ↦
          write_dir_block parent_inode_num (zero_at (filled r buf) (j * dirent_size) dirent_size)
            blk_idx
      | none ↦ remove_loop component parent_inode_num n (blk_idx + 1) (filled r buf)
    ]

  -- The stamp and the write of the directory's inode, as it was read at the start.
  unfoldable pub commit_dir : ℕ → Inode → Cmd S (Unit {0})
  commit_dir inode_num inode = do
    stamped ← inode_stamp_now sb store (time_mtime + time_ctime) inode
    write_inode sb store inode_num stamped

  unfoldable pub remove_dir_entry : List ℕ → ℕ → Cmd S (Unit {0})
  remove_dir_entry component parent_inode_num = do
    fail_if (length component == 0) einval
    buf ← malloc sb.blk_size
    parent_inode ← read_inode sb store parent_inode_num
    fail_if (bit_and parent_inode.i_mode ftype_dir == 0) enotdir
    remove_loop component parent_inode_num (blks_of sb parent_inode.i_size) 0 buf
    commit_dir parent_inode_num parent_inode

  abbrev pub keep_first : Option ℕ → ℕ → Option ℕ → Option ℕ
  keep_first (some i) blk_idx found = some i
  keep_first none blk_idx (some j) = some (u32 (blk_idx * entries_per_blk + j))
  keep_first none blk_idx none = none

  -- The first pass: a duplicate is refused; the result is the first reusable slot, and the buffer.
  unfoldable pub slot_loop : List ℕ → ℕ → ℕ → ℕ → List ℕ → Option ℕ → Cmd S (Option ℕ × List ℕ)
  slot_loop component parent_inode_num zero blk_idx buf reusable = pure (reusable, buf)
  slot_loop component parent_inode_num (suc n) blk_idx buf reusable = do
    r ← read_dir_block parent_inode_num blk_idx
    fail_if (not (one_or_part r)) eio
    elim (first_index (dirents_in r) 0 (λ j.
        not (is_free_slot (filled r buf) j) && same_name (name_at (filled r buf) j) component)) [
          | some j ↦ fail eexist
          | none ↦ slot_loop component parent_inode_num n (blk_idx + 1) (filled r buf) (
              keep_first reusable blk_idx
                (first_index (dirents_in r) 0 (is_free_slot (filled r buf))))
        ]

  abbrev pub target_of : Option ℕ → ℕ → ℕ
  target_of none append_entry_idx = append_entry_idx
  target_of (some i) append_entry_idx = i

  -- Only an entry at the end makes the directory longer.
  abbrev pub grown : Option ℕ → Inode → Inode
  grown (some i) inode = inode
  grown none inode = record inode { i_size = add32 inode.i_size dirent_size }

  -- The block with the slot as it is before the entry is written.
  unfoldable pub slot_block : ℕ → Bool → ℕ → List ℕ → Cmd S (List ℕ)
  slot_block parent_inode_num fresh target_blk_idx buf =
      if fresh then pure (replicate sb.blk_size 0) else (do
        r ← read_dir_block parent_inode_num target_blk_idx
        fail_if (not (one_or_part r)) eio
        pure (filled r buf))

  -- The second part of `add_dir_entry`: the slot `target` gets the entry, in a new block if need be.
  unfoldable pub place_entry : List ℕ → ℕ → ℕ → Inode → Option ℕ → ℕ → List ℕ → Cmd S (Unit {0})
  place_entry component parent_inode_num child_inode_num parent_inode reusable target buf =
      let fresh = leb (blks_of sb parent_inode.i_size) (target / entries_per_blk) in
      (do
        fail_if (fresh && leb max_file_data_blocks (blks_of sb parent_inode.i_size)) efbig
        if fresh then allocate_data_block sb store fuel parent_inode_num 1 else pure tt
        or_rollback
            (do
              block ← slot_block parent_inode_num fresh (target / entries_per_blk) buf
              write_dir_block parent_inode_num
                  (put_dirent block (target % entries_per_blk) component child_inode_num)
                  (target / entries_per_blk)
              commit_dir parent_inode_num (grown reusable parent_inode))
            (if fresh
              then free_data_block sb store fuel parent_inode_num (target / entries_per_blk) 1
              else pure tt))

  unfoldable pub add_dir_entry : List ℕ → ℕ → ℕ → Cmd S (Unit {0})
  add_dir_entry component parent_inode_num child_inode_num = do
    fail_if ((child_inode_num == 0) || leb sb.inode_num child_inode_num) einval
    fail_if ((length component == 0) || leb filename_len (length component)) einval
    mem ← malloc sb.blk_size
    parent_inode ← read_inode sb store parent_inode_num
    fail_if (bit_and parent_inode.i_mode ftype_dir == 0) enotdir
    fail_if (not (parent_inode.i_size % dirent_size == 0)) eio
    fail_if (leb (max_file_data_blocks * entries_per_blk) (parent_inode.i_size / dirent_size)) efbig
    slot ← slot_loop component parent_inode_num (blks_of sb parent_inode.i_size) 0 mem none
    place_entry component parent_inode_num child_inode_num parent_inode (slot.0)
        (target_of (slot.0) (parent_inode.i_size / dirent_size)) (slot.1)
