-- ===== src/Tree/Listing.antt =====
-- src/core/modules/mofs_dir.c and include/mofs_dir.h: the pool of directory handles, and the reading of a
-- directory entry by entry. A handle is its index in the pool, NULL is `none`.
use mofs.Base.{
  ℕ, zero, suc, ◌+◌, ◌-◌, ◌*◌, ◌/◌, ◌%◌, Bool, true, false, not, Option, none, some, List, take,
  drop, replicate, u32,
}
use mofs.Base.Run.{Cmd, pure, fail, get, modify, ◌>>=◌, ◌>>◌, fail_if}
use mofs.Base.Scan.{first_index}
use mofs.Errno.{einval, enotdir, enfile}
use mofs.Core.{Superblock, Inode}
use mofs.Store.{Store}
use mofs.Caller.{Caller, User}
use mofs.Inode.{read_inode}
use mofs.Perm.{check_dir_read}
use mofs.Path.{path_to_inode_num}
use mofs.Pool.{Opened, on_fs, put_handle}
use mofs.File.{blks_of, valid_user}
use mofs.Dir.{dirent_size, is_free_slot, filled, entries_per_blk, dirents_in, read_dir_block}
use mofs.Tree.{is_dir, known, name_calls}

-- MOFS_DIRHANDLE_POOL_SIZE
abbrev pub dirhandle_pool_size : ℕ
dirhandle_pool_size = 64

-- `struct mofs_dirhandle`; `dirent_buf` is its 32 bytes.
pub record DirHandle : Type 0 where
  pub used : Bool
  pub inode_num : ℕ
  pub dirent_offset : ℕ
  pub dirent_buf : List ℕ

abbrev pub empty_dirent : List ℕ
empty_dirent = replicate dirent_size 0

-- a handle of the pool for a directory, before the first entry
abbrev pub new_dirhandle : Bool → ℕ → DirHandle
new_dirhandle used inode_num = record {
  used = used;
  inode_num = inode_num;
  dirent_offset = 0;
  dirent_buf = empty_dirent;
}

-- An entry that was found: its bytes and `dirent_offset` past it.
pub record Listed : Type 0 where
  pub dirent : List ℕ
  pub next_offset : ℕ

module _ {S : Type 0} where
  unfoldable pub get_free_dirhandle_index : Opened S DirHandle → Option ℕ
  get_free_dirhandle_index o = first_index dirhandle_pool_size 0 (λ i. not (o.pool i).used)

  unfoldable pub open_dirhandle : ℕ → Cmd (Opened S DirHandle) ℕ
  open_dirhandle inode_num = do
    o ← get
    elim (get_free_dirhandle_index o) [
      | none ↦ fail enfile
      | some index ↦ (do modify (put_handle index (new_dirhandle true inode_num)); pure index)
    ]

  -- `*handle` is the result: NULL.
  unfoldable pub closedir_core : Option ℕ → Cmd (Opened S DirHandle) (Option ℕ)
  closedir_core none = fail einval
  closedir_core (some i) = do
    o ← get
    fail_if (not (o.pool i).used) einval
    modify (put_handle i (new_dirhandle false 0))
    pure none

  -- The handle after a search: the entry found, or an empty one at the end.
  abbrev pub show : ℕ → Option Listed → Opened S DirHandle → Opened S DirHandle
  show i (some l) o =
      put_handle i (record (o.pool i) { dirent_buf = l.dirent; dirent_offset = l.next_offset }) o
  show i none o = put_handle i (record (o.pool i) { dirent_buf = empty_dirent }) o

module _ (sb : Superblock) (store : Store sb) (fuel : ℕ) (caller : Caller sb store) where
  open store use {S, malloc}
  open caller use {is_caller_in_group}

  -- A directory that the caller may read.
  unfoldable pub readable_dir : User → ℕ → Cmd S Inode
  readable_dir user inode_num = do
    inode ← read_inode sb store inode_num
    fail_if (not (is_dir inode)) enotdir
    check_dir_read is_caller_in_group user.uid inode
    pure inode

  unfoldable pub opendir_core : List ℕ → Cmd (Opened S DirHandle) ℕ
  opendir_core path = do
    user ← on_fs (valid_user sb store fuel caller)
    found ← on_fs (path_to_inode_num (name_calls sb store fuel caller) path)
    inode_num ← known found
    inode ← on_fs (readable_dir user inode_num)
    open_dirhandle {S = S} inode_num

  -- The loop over `n` blocks from `start_block` on, in the first one from the entry `start_idx` on.
  unfoldable pub list_loop : ℕ → ℕ → ℕ → ℕ → List ℕ → Cmd S (Option Listed)
  list_loop inode_num zero start_block start_idx buf = pure none
  list_loop inode_num (suc n) start_block start_idx buf = do
    r ← read_dir_block sb store fuel inode_num start_block
    elim (first_index (dirents_in sb store fuel r - start_idx) start_idx
        (λ j. not (is_free_slot (filled r buf) j))) [
          | some j ↦ pure (
              some (record {
                dirent = take dirent_size (drop (j * dirent_size) (filled r buf));
                next_offset = u32 (start_block * entries_per_blk sb store fuel + j + 1);
              }))
          | none ↦ list_loop inode_num n (start_block + 1) 0 (filled r buf)
        ]

  -- The search for the next entry from `dirent_offset` on.
  unfoldable pub next_entry : ℕ → ℕ → List ℕ → Inode → Cmd S (Option Listed)
  next_entry inode_num dirent_offset buf inode =
      let start_block = dirent_offset / entries_per_blk sb store fuel in
      list_loop inode_num (blks_of sb inode.i_size - start_block) start_block
        (dirent_offset % entries_per_blk sb store fuel) buf

  unfoldable pub readdir_core : ℕ → Cmd (Opened S DirHandle) (Unit {0})
  readdir_core i = do
    o ← get
    fail_if (not (o.pool i).used) einval
    buf ← on_fs (malloc sb.blk_size)
    user ← on_fs (valid_user sb store fuel caller)
    inode ← on_fs (readable_dir user (o.pool i).inode_num)
    found ← on_fs (next_entry (o.pool i).inode_num (o.pool i).dirent_offset buf inode)
    modify (show i found)
