-- ===== src/Tree/Directories.antt =====
-- src/core/modules/mofs_dir.c: directories made and removed, and entries renamed.
use mofs.Base.{
  ℕ, ◌+◌, ◌-◌, ◌%◌, Bool, true, false, not, ◌&&◌, ◌||◌, Option, none, some, List, ◌==◌,
  if◌then◌else◌, length,
}
use mofs.Base.Run.{Cmd, pure, fail, ◌>>=◌, ◌>>◌, fail_if, ignore, or_rollback}
use mofs.Errno.{einval, eio, eexist, enotdir, eisdir, enotempty}
use mofs.Core.{Superblock, Inode}
use mofs.Store.{Store}
use mofs.Caller.{Caller, User}
use mofs.Inode.{
  read_inode, write_inode, inode_stamp_now, inode_stamp_persist, allocate_inode, free_inode,
  time_ctime,
}
use mofs.BlockList.{allocate_data_block, free_data_block}
use mofs.Perm.{check_dir_write}
use mofs.Path.{ftype_dir, is_absolute}
use mofs.File.{valid_user}
use mofs.Dir.{
  is_dot_or_dotdot_name, write_dot_entries, is_directory_empty, remove_dir_entry, add_dir_entry,
  commit_dir,
}
use mofs.Dir.Dotdot.{directory_is_ancestor, rewrite_dotdot, adjust_dir_nlink}
use mofs.Tree.{
  fresh_inode, is_dir, known, resolve, existing_leaf, maybe_leaf, writable_parent, release_inode,
  unlink_core, time_all,
}

-- `a == b` on numbers that may be -1
abbrev pub same_num : Option ℕ → Option ℕ → Bool
same_num none none = true
same_num none (some m) = false
same_num (some n) none = false
same_num (some n) (some m) = n == m

module _ (sb : Superblock) (store : Store sb) (fuel : ℕ) (caller : Caller sb store) where
  open store use {S}
  open caller use {is_caller_in_group}

  -- `require_parent_write`; also what `mofs_mkdir_core` does with the caller it has.
  unfoldable pub dir_to_change : User → ℕ → Cmd S (Unit {0})
  dir_to_change user parent_inode_num = do
    parent_inode ← read_inode sb store parent_inode_num
    fail_if (not (is_dir parent_inode)) enotdir
    check_dir_write is_caller_in_group user.uid parent_inode

  unfoldable pub require_parent_write : ℕ → Cmd S (Unit {0})
  require_parent_write parent_inode_num = do
    user ← valid_user sb store fuel caller
    dir_to_change user parent_inode_num

  -- The link count of a directory that gains or loses a child; only the change time is stamped.
  unfoldable pub relink_parent : ℕ → (ℕ → ℕ) → Inode → Cmd S (Unit {0})
  relink_parent parent new_links parent_inode = do
    stamped ←
        inode_stamp_now sb store time_ctime
          (record parent_inode { i_links = new_links parent_inode.i_links })
    write_inode sb store parent stamped

  unfoldable pub link_parent : ℕ → Cmd S (Unit {0})
  link_parent parent = do
    parent_inode ← read_inode sb store parent
    relink_parent parent (λ n. (n + 1) % 65536) parent_inode

  -- The new directory's block: its entries, and its size.
  unfoldable pub fill_dir : ℕ → ℕ → Cmd S (Unit {0})
  fill_dir child parent = do
    write_dot_entries sb store fuel child parent
    child_inode ← read_inode sb store child
    commit_dir sb store fuel child (record child_inode { i_size = sb.blk_size })

  -- The steps after the allocation of the inode, each with what undoes the ones before it.
  unfoldable pub build_dir : ℕ → Inode → List ℕ → ℕ → Cmd S (Unit {0})
  build_dir child inode leaf_name parent =
      or_rollback
        (do
          stamped ← inode_stamp_now sb store time_all inode
          write_inode sb store child stamped
          allocate_data_block sb store fuel child 1
          or_rollback
              (do
                fill_dir child parent
                add_dir_entry sb store fuel leaf_name parent child
                or_rollback (link_parent parent) (remove_dir_entry sb store fuel leaf_name parent))
              (free_data_block sb store fuel child 0 1))
        (free_inode sb store child)

  unfoldable pub mkdir_core : List ℕ → ℕ → Cmd S (Unit {0})
  mkdir_core path mode = do
    fail_if (not (is_absolute path)) einval
    path_info ← resolve sb store fuel caller path (maybe_leaf sb store fuel caller)
    fail_if path_info.leaf_found eexist
    user ← valid_user sb store fuel caller
    parent ← known path_info.parent_inode_num
    dir_to_change user parent
    child ← allocate_inode sb store
    build_dir child (fresh_inode 2 ftype_dir mode user) path_info.leaf_name parent

  unfoldable pub unlink_parent : ℕ → Cmd S (Unit {0})
  unlink_parent parent = do
    parent_inode ← read_inode sb store parent
    fail_if (parent_inode.i_links == 0) eio
    relink_parent parent (λ n. n - 1) parent_inode

  unfoldable pub rmdir_core : List ℕ → Cmd S (Unit {0})
  rmdir_core path = do
    fail_if (not (is_absolute path)) einval
    fail_if (length path == 1 || is_dot_or_dotdot_name path) einval
    path_info ← resolve sb store fuel caller path (existing_leaf sb store fuel caller)
    fail_if (is_dot_or_dotdot_name path_info.leaf_name) einval
    user ← valid_user sb store fuel caller
    parent ← writable_parent sb store fuel caller user path_info.parent_inode_num
    target ← known path_info.leaf_inode_num
    target_inode ← read_inode sb store target
    fail_if (not (is_dir target_inode)) enotdir
    is_empty ← is_directory_empty sb store fuel target
    fail_if (not is_empty) enotempty
    remove_dir_entry sb store fuel path_info.leaf_name parent
    release_inode sb store fuel caller target target_inode.i_nr_blocks
    unlink_parent parent

  -- What stands at the new path gives way, if it is of the same kind.
  unfoldable pub replace_target : List ℕ → Bool → ℕ → Cmd S (Unit {0})
  replace_target new_path src_is_dir dst = do
    dst_inode ← read_inode sb store dst
    if src_is_dir && is_dir dst_inode
        then rmdir_core new_path
        else if not src_is_dir && not (is_dir dst_inode)
        then unlink_core sb store fuel caller new_path
        else if src_is_dir
        then fail enotdir
        else fail eisdir

  -- A directory that moves: its `..` and the link counts of both parents.
  unfoldable pub move_links : ℕ → ℕ → ℕ → Cmd S (Unit {0})
  move_links src old_parent new_parent = do
    rewrite_dotdot sb store fuel src new_parent
    adjust_dir_nlink sb store fuel old_parent false
    or_rollback (adjust_dir_nlink sb store fuel new_parent true)
        (adjust_dir_nlink sb store fuel old_parent true)

  -- The entries after the checks.
  unfoldable pub move_entry : List ℕ → ℕ → List ℕ → ℕ → ℕ → Bool → Cmd S (Unit {0})
  move_entry old_name old_parent new_name new_parent src src_is_dir = do
    remove_dir_entry sb store fuel old_name old_parent
    or_rollback (add_dir_entry sb store fuel new_name new_parent src)
        (add_dir_entry sb store fuel old_name old_parent src)
    if src_is_dir && not (old_parent == new_parent)
        then or_rollback (move_links src old_parent new_parent) (do
          ignore (rewrite_dotdot sb store fuel src old_parent)
          ignore (remove_dir_entry sb store fuel new_name new_parent)
          add_dir_entry sb store fuel old_name old_parent src)
        else pure tt
    ignore (inode_stamp_persist sb store src time_ctime)

  -- `mofs_rename_core` once both paths are resolved to something that is to be moved.
  unfoldable pub rename_resolved :
      List ℕ → List ℕ → ℕ → List ℕ → ℕ → ℕ → Bool → Option ℕ → Cmd S (Unit {0})
  rename_resolved new_path old_name old_parent new_name new_parent src src_is_dir dst = do
    elim dst [ none ↦ pure tt | some d ↦ replace_target new_path src_is_dir d ]
    ancestor ←
        (if src_is_dir then directory_is_ancestor sb store fuel src new_parent else pure false)
    fail_if ancestor einval
    require_parent_write old_parent
    if not (old_parent == new_parent) then require_parent_write new_parent else pure tt
    move_entry old_name old_parent new_name new_parent src src_is_dir

  unfoldable pub rename_core : List ℕ → List ℕ → Cmd S (Unit {0})
  rename_core old_path new_path = do
    fail_if (not (is_absolute old_path) || not (is_absolute new_path)) einval
    old_info ← resolve sb store fuel caller old_path (existing_leaf sb store fuel caller)
    fail_if (not old_info.leaf_found || is_dot_or_dotdot_name old_info.leaf_name) einval
    new_info ← resolve sb store fuel caller new_path (maybe_leaf sb store fuel caller)
    fail_if (is_dot_or_dotdot_name new_info.leaf_name) einval
    src ← known old_info.leaf_inode_num
    src_inode ← read_inode sb store src
    old_parent ← known old_info.parent_inode_num
    new_parent ← known new_info.parent_inode_num
    if new_info.leaf_found && same_num new_info.leaf_inode_num (some src)
        then pure tt
        else rename_resolved new_path old_info.leaf_name old_parent new_info.leaf_name new_parent
            src (is_dir src_inode) new_info.leaf_inode_num
