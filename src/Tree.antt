-- ===== src/Tree.antt =====
-- src/core/modules/mofs_file.c and mofs_dir.c, the calls that take a path: files created, removed, opened and
-- described here, directories in the children. NULL pointers are not represented; an inode number of -1 is
-- `none`, which every use of it refuses.
pub mod Directories
pub mod Listing
pub mod Resolved
use mofs.Base.{
  ℕ, ◌+◌, ◌%◌, Bool, true, false, not, ◌&&◌, Option, none, some, List, bit_and, bit_or, ltb, ◌==◌,
  if◌then◌else◌, get_or,
}
use mofs.Base.Run.{Cmd, pure, fail, ◌>>=◌, ◌>>◌, fail_if, or_rollback}
use mofs.Errno.{einval, enoent, enotdir, eexist, eisdir}
use mofs.Core.{Superblock, Inode}
use mofs.Store.{Store}
use mofs.Caller.{Caller, User}
use mofs.Inode.{
  or_on, zero_inode, read_inode, write_inode, inode_stamp_now, allocate_inode, free_inode,
  time_atime, time_mtime, time_ctime,
}
use mofs.BlockList.{free_data_block}
use mofs.Perm.{check_open_permission, check_dir_write, check_dir_traverse, oflag_rdonly}
use mofs.Path.{
  NameCalls, PathInfo, ftype_dir, resolve_path, path_to_inode_num, resolve_inode, resolve_parent,
  allow_missing_leaf, check_access,
}
use mofs.Pool.{Opened, on_fs}
use mofs.File.{valid_user}
use mofs.File.Handles.{Handle, open_handle}
use mofs.Dir.{find_dir_entry, remove_dir_entry, add_dir_entry}

-- MOFS_OFLAG_CREAT, _DIRECTORY, _EXCL
abbrev pub oflag_creat : ℕ
oflag_creat = 16

abbrev pub oflag_directory : ℕ
oflag_directory = 32

abbrev pub oflag_excl : ℕ
oflag_excl = 64

-- MOFS_FTYPE_REG
abbrev pub ftype_reg : ℕ
ftype_reg = 32768

-- MOFS_INODE_TIME_ALL
abbrev pub time_all : ℕ
time_all = time_atime + time_mtime + time_ctime

-- `mofs_stat_t`
pub record Stat : Type 0 where
  pub st_ino : ℕ
  pub st_nlink : ℕ
  pub st_size : ℕ
  pub st_mode : ℕ
  pub st_uid : ℕ
  pub st_gid : ℕ
  pub st_atime_sec : ℕ
  pub st_mtime_sec : ℕ
  pub st_ctime_sec : ℕ

abbrev pub stat_of : ℕ → Inode → Stat
stat_of inode_num inode = record {
  st_ino = inode_num;
  st_nlink = inode.i_links;
  st_size = inode.i_size;
  st_mode = inode.i_mode;
  st_uid = inode.i_uid;
  st_gid = inode.i_gid;
  st_atime_sec = inode.i_atime;
  st_mtime_sec = inode.i_mtime;
  st_ctime_sec = inode.i_ctime;
}

-- A new inode, before its stamp.
abbrev pub fresh_inode : ℕ → ℕ → ℕ → User → Inode
fresh_inode links ftype mode user = record zero_inode {
  i_links = links;
  i_mode = bit_or ftype (bit_and mode 511) % 65536;
  i_uid = user.uid;
  i_gid = user.gid;
}

abbrev pub is_dir : Inode → Bool
is_dir inode = not (bit_and inode.i_mode ftype_dir == 0)

module _ {S : Type 0} where
  -- -1 is no inode: the callee's MOFS_EINVAL.
  abbrev pub known : Option ℕ → Cmd S ℕ
  known (some n) = pure n
  known none = fail einval

module _ (sb : Superblock) (store : Store sb) (fuel : ℕ) (caller : Caller sb store) where
  open store use {S, malloc}
  open caller use {get_caller_user, is_caller_in_group}

  -- The calls of the path resolution, over the volume.
  abbrev pub name_calls : NameCalls
  name_calls = record {
    S = S;
    find_dir_entry = find_dir_entry sb store fuel;
    read_inode = read_inode sb store;
    get_caller_user = get_caller_user;
    is_caller_in_group = is_caller_in_group;
    malloc = malloc;
  }

  abbrev pub resolve : List ℕ → ℕ → Cmd S PathInfo
  resolve path flags = resolve_path name_calls path flags

  -- For a leaf that has to be there, and for one that may be missing.
  abbrev pub existing_leaf : ℕ
  existing_leaf = resolve_parent + resolve_inode + check_access

  abbrev pub maybe_leaf : ℕ
  maybe_leaf = resolve_parent + resolve_inode + allow_missing_leaf + check_access

  -- The directory in which an entry is to be changed: its number, with the caller's right to write.
  unfoldable pub writable_parent : User → Option ℕ → Cmd S ℕ
  writable_parent user parent_inode_num = do
    parent ← known parent_inode_num
    parent_inode ← read_inode sb store parent
    check_dir_write is_caller_in_group user.uid parent_inode
    pure parent

  -- The new inode's stamp and write, and its entry; on an error the inode is freed again.
  unfoldable pub link_file : ℕ → Inode → List ℕ → ℕ → Cmd S (Unit {0})
  link_file inode_num inode leaf_name parent =
      or_rollback
        (do
          stamped ← inode_stamp_now sb store time_all inode
          write_inode sb store inode_num stamped
          add_dir_entry sb store fuel leaf_name parent inode_num)
        (free_inode sb store inode_num)

  -- `*inode_num`
  unfoldable pub create_core : List ℕ → ℕ → Cmd S ℕ
  create_core path mode = do
    path_info ← resolve path maybe_leaf
    fail_if path_info.leaf_found eexist
    user ← valid_user sb store fuel caller
    parent ← writable_parent user path_info.parent_inode_num
    allocated_inode_num ← allocate_inode sb store
    link_file allocated_inode_num (fresh_inode 1 ftype_reg mode user) path_info.leaf_name parent
    pure allocated_inode_num

  -- The data blocks of a removed file, if it has any, and then its inode.
  unfoldable pub release_inode : ℕ → ℕ → Cmd S (Unit {0})
  release_inode inode_num used_blk_num = do
    if ltb 0 used_blk_num then free_data_block sb store fuel inode_num 0 used_blk_num else pure tt
    free_inode sb store inode_num

  unfoldable pub unlink_core : List ℕ → Cmd S (Unit {0})
  unlink_core path = do
    path_info ← resolve path existing_leaf
    user ← valid_user sb store fuel caller
    parent ← writable_parent user path_info.parent_inode_num
    target ← known path_info.leaf_inode_num
    target_inode ← read_inode sb store target
    fail_if (is_dir target_inode) eisdir
    remove_dir_entry sb store fuel path_info.leaf_name parent
    release_inode target target_inode.i_nr_blocks

  -- The inode number that is opened: the one of the path, or that of a new file.
  unfoldable pub found_or_created : List ℕ → ℕ → ℕ → Cmd S ℕ
  found_or_created path flags mode =
      let creat = not (bit_and flags oflag_creat == 0) in
      let excl = not (bit_and flags oflag_excl == 0) in
      or_on enoent
        (do found ← path_to_inode_num name_calls path; fail_if (creat && excl) eexist; known found)
        (if creat then create_core path mode else fail enoent)

  -- The handle, by its index.
  unfoldable pub open_core : List ℕ → ℕ → ℕ → Cmd (Opened S Handle) ℕ
  open_core path flags mode = do
    user ← on_fs (valid_user sb store fuel caller)
    inode_num ← on_fs (found_or_created path flags mode)
    inode ← on_fs (read_inode sb store inode_num)
    fail_if (not (bit_and flags oflag_directory == 0) && not (is_dir inode)) enotdir
    on_fs (check_open_permission is_caller_in_group flags user.uid inode)
    open_handle {S = S} inode_num flags

  unfoldable pub stat_core : List ℕ → Cmd S Stat
  stat_core path = do
    user ← valid_user sb store fuel caller
    found ← path_to_inode_num name_calls path
    inode_num ← known found
    inode ← read_inode sb store inode_num
    if is_dir inode
        then check_dir_traverse is_caller_in_group user.uid inode
        else check_open_permission is_caller_in_group oflag_rdonly user.uid inode
    pure (stat_of inode_num inode)
