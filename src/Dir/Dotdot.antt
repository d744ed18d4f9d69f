-- ===== src/Dir/Dotdot.antt =====
-- src/core/modules/mofs_dir.c, the entry `..` of a directory and the way up to the root. A number of 2^31 or
-- more, negative as an `int`, is above the inode count and refused as such.
use mofs.Base.{
  ℕ, zero, suc, ◌+◌, ◌-◌, ◌*◌, ◌%◌, Bool, true, false, not, ◌&&◌, Option, none, some, List, ◌==◌,
  if◌then◌else◌,
}
use mofs.Base.Run.{Cmd, pure, fail, ◌>>=◌, ◌>>◌, fail_if}
use mofs.Base.Scan.{first_index}
use mofs.Errno.{eio}
use mofs.Core.{Superblock}
use mofs.Store.{Store, splice}
use mofs.Codec.{put32}
use mofs.Inode.{read_inode}
use mofs.Path.{root_inode_num, filename_len}
use mofs.Dir.{
  dirent_size, dotdot, inode_num_at, is_entry, filled, entries_per_blk, read_dir_block,
  write_dir_block, commit_dir,
}

-- `buf[slot].inode_num = n`
abbrev pub set_inode_num : List ℕ → ℕ → ℕ → List ℕ
set_inode_num buf slot n = splice buf (slot * dirent_size + filename_len) (put32 n)

module _ (sb : Superblock) (store : Store sb) (fuel : ℕ) where
  open store use {S, malloc}

  -- The first block of a directory, all of it.
  abbrev pub first_block : ℕ → List ℕ → Cmd S (List ℕ)
  first_block dir_inode buf = do
    r ← read_dir_block sb store fuel dir_inode 0
    fail_if (not ((r.read_blk_num == 1) && (r.fraction == 0))) eio
    pure (filled r buf)

  abbrev pub dotdot_slot : List ℕ → Option ℕ
  dotdot_slot buf =
      first_index (entries_per_blk sb store fuel) 0 (is_entry sb store fuel dotdot buf)

  unfoldable pub read_dotdot_parent : ℕ → Cmd S ℕ
  read_dotdot_parent dir_inode = do
    mem ← malloc sb.blk_size
    buf ← first_block dir_inode mem
    elim (dotdot_slot buf) [ some slot ↦ pure (inode_num_at buf slot) | none ↦ fail eio ]

  unfoldable pub rewrite_dotdot : ℕ → ℕ → Cmd S (Unit {0})
  rewrite_dotdot dir_inode new_parent = do
    mem ← malloc sb.blk_size
    buf ← first_block dir_inode mem
    elim (dotdot_slot buf) [
      | some slot ↦ write_dir_block sb store fuel dir_inode (set_inode_num buf slot new_parent) 0
      | none ↦ fail eio
    ]

  -- The loop; the first number counts what `guard` has left.
  unfoldable pub ancestor_loop : ℕ → ℕ → ℕ → Cmd S Bool
  ancestor_loop zero ancestor cursor = pure false
  ancestor_loop (suc n) ancestor cursor =
      if cursor == ancestor then pure true else if cursor == root_inode_num then pure false else (do
        parent ← read_dotdot_parent cursor
        if parent == cursor then pure false else ancestor_loop n ancestor parent)

  unfoldable pub directory_is_ancestor : ℕ → ℕ → Cmd S Bool
  directory_is_ancestor ancestor start = ancestor_loop sb.inode_num ancestor start

  -- `delta` is 1 or -1.
  unfoldable pub adjust_dir_nlink : ℕ → Bool → Cmd S (Unit {0})
  adjust_dir_nlink inode_num up = do
    inode ← read_inode sb store inode_num
    fail_if (not up && (inode.i_links == 0)) eio
    commit_dir sb store fuel inode_num
        (record inode { i_links = if up then (inode.i_links + 1) % 65536 else inode.i_links - 1 })
