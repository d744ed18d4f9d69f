-- ===== src/Posix/Volume.antt =====
-- src/posix/posix.c: the calls that change sizes and names, and the flush. A length is not negative, and a
-- path that leads to no inode number leaves the one that the core refuses.
use mofs.Base.{ℕ, not, Option, none, some, List, ◌==◌, bit_and}
use mofs.Base.Run.{Cmd, fail, ◌>>=◌, ◌>>◌, fail_if}
use mofs.Errno.{einval, ebadf}
use mofs.Core.{Superblock}
use mofs.Store.{Store}
use mofs.Caller.{Caller}
use mofs.Perm.{oflag_wronly}
use mofs.Path.{path_to_inode_num}
use mofs.File.{truncate_core}
use mofs.Tree.{name_calls, known, unlink_core}
use mofs.Tree.Directories.{mkdir_core, rmdir_core, rename_core}
use mofs.Posix.{Process, Answer, finish, on_volume}

module _ (sb : Superblock) (store : Store sb) (fuel : ℕ) (caller : Caller sb store) where
  open store use {S}

  unfoldable pub truncate : List ℕ → ℕ → Process S → Answer S (Unit {0})
  truncate path length p = finish (
      on_volume
        (do
          inode_num ← path_to_inode_num (name_calls sb store fuel caller) path
          n ← known inode_num
          truncate_core sb store fuel caller n length)
        p)

  unfoldable pub ftruncate : Option ℕ → ℕ → Process S → Answer S (Unit {0})
  ftruncate none length p = finish (fail ebadf p)
  ftruncate (some i) length p = finish (
      (do
        fail_if (not (p.files i).used) ebadf
        fail_if (bit_and (p.files i).open_flags oflag_wronly == 0) ebadf
        on_volume (truncate_core sb store fuel caller (p.files i).inode_num length))
        p)

  unfoldable pub unlink : List ℕ → Process S → Answer S (Unit {0})
  unlink path p = finish (on_volume (unlink_core sb store fuel caller path) p)

  unfoldable pub mkdir : List ℕ → ℕ → Process S → Answer S (Unit {0})
  mkdir path mode p = finish (on_volume (mkdir_core sb store fuel caller path mode) p)

  unfoldable pub rmdir : List ℕ → Process S → Answer S (Unit {0})
  rmdir path p = finish (on_volume (rmdir_core sb store fuel caller path) p)

  unfoldable pub rename : List ℕ → List ℕ → Process S → Answer S (Unit {0})
  rename old_path new_path p =
      finish (on_volume (rename_core sb store fuel caller old_path new_path) p)

  -- `flush` is the flush of the cache behind the volume, `mofs_bcache_flush`.
  module _ (flush : Cmd S (Unit {0})) where
    unfoldable pub fsync : Option ℕ → Process S → Answer S (Unit {0})
    fsync none p = finish (fail einval p)
    fsync (some i) p = finish ((do fail_if (not (p.files i).used) ebadf; on_volume flush) p)
