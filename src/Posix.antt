-- ===== src/Posix.antt =====
-- src/posix/posix.c: the calls of the library. Each runs a core call under the core lock, keeps its error in
-- `mofs_errno` and returns a value of its own for it, -1 or NULL. The sizes that are returned are taken to
-- fit an `int`.
pub mod Volume
pub mod Seek
use mofs.Base.{
  ℕ, suc, ◌+◌, ◌-◌, Bool, true, false, not, ◌||◌, ◌&&◌, Option, none, some, List, take, ltb, ◌==◌,
  if◌then◌else◌, length, update, bit_and,
}
use mofs.Base.Run.{Run, ok, err, Cmd, pure, fail, ◌>>=◌, ◌>>◌, fail_if, get, modify}
use mofs.Errno.{einval, ebadf}
use mofs.Core.{Superblock}
use mofs.Store.{Store}
use mofs.Caller.{Caller}
use mofs.Inode.{read_inode}
use mofs.Perm.{oflag_wronly}
use mofs.Path.{path_to_inode_num}
use mofs.Pool.{Opened}
use mofs.File.{truncate_core}
use mofs.File.Handles.{Handle, Data, close_core, read_core, write_core}
use mofs.Dir.{as_int, inode_num_at, c_string, name_at}
use mofs.Tree.{Stat, name_calls, unlink_core, open_core, stat_core}
use mofs.Tree.Directories.{mkdir_core, rmdir_core, rename_core}
use mofs.Tree.Listing.{DirHandle, opendir_core, closedir_core, readdir_core}

-- The process: the volume, both pools of handles and `mofs_errno`.
pub record Process (S : Type 0) : Type 0 where
  pub fs : S
  pub files : ℕ → Handle
  pub dirs : ℕ → DirHandle
  pub errno : ℕ

-- What a call returns; `failed` is -1 or NULL.
pub data Returned (A : Type 0) : Type 0 where
  value : A → Returned A
  failed : Returned A

pub record Answer (S A : Type 0) : Type 0 where
  pub result : Returned A
  pub after : Process S

-- `mofs_off_t`, which has a sign
pub data Offset : Type 0 where
  pos : ℕ → Offset
  negsuc : ℕ → Offset

pub data Whence : Type 0 where
  seek_set : Whence
  seek_cur : Whence
  seek_end : Whence
  unknown : Whence

-- MOFS_UINT32_MAX
abbrev pub uint32_max : ℕ
uint32_max = 4294967295

module _ {S : Type 0} where
  abbrev pub posix_set_errno : ℕ → Process S → Process S
  posix_set_errno e p = record p { errno = e }

  -- the end of a call: 0 with its results, or the error in `mofs_errno`
  abbrev pub finish : {A : Type 0} → Run (Process S) A → Answer S A
  finish (ok a p) = record { result = value a; after = p }
  finish (err e p) = record { result = failed; after = posix_set_errno e p }

  abbrev pub volume_run : {A : Type 0} → Process S → Run S A → Run (Process S) A
  volume_run p (ok a s) = ok a (record p { fs = s })
  volume_run p (err e s) = err e (record p { fs = s })

  -- A core call on the volume alone, on the file handles, and on the directory handles.
  abbrev pub on_volume : {A : Type 0} → Cmd S A → Cmd (Process S) A
  on_volume m = λ p. volume_run p (m p.fs)

  abbrev pub files_run : {A : Type 0} → Process S → Run (Opened S Handle) A → Run (Process S) A
  files_run p (ok a o) = ok a (record p { fs = o.fs; files = o.pool })
  files_run p (err e o) = err e (record p { fs = o.fs; files = o.pool })

  abbrev pub on_files : {A : Type 0} → Cmd (Opened S Handle) A → Cmd (Process S) A
  on_files m = λ p. files_run p (m (record { fs = p.fs; pool = p.files }))

  abbrev pub dirs_run : {A : Type 0} → Process S → Run (Opened S DirHandle) A → Run (Process S) A
  dirs_run p (ok a o) = ok a (record p { fs = o.fs; dirs = o.pool })
  dirs_run p (err e o) = err e (record p { fs = o.fs; dirs = o.pool })

  abbrev pub on_dirs : {A : Type 0} → Cmd (Opened S DirHandle) A → Cmd (Process S) A
  on_dirs m = λ p. dirs_run p (m (record { fs = p.fs; pool = p.dirs }))

-- The new offset of a seek from `base`; `negsuc n` is `-(n + 1)`, and INT64_MIN is `-(2 ^ 63)`.
unfoldable pub seek_to : ℕ → Offset → Option ℕ
seek_to base (pos n) =
    if ltb uint32_max n || ltb (uint32_max - n) base then none else some (base + n)
seek_to base (negsuc n) =
    if n + 1 == 9223372036854775808 || ltb base (n + 1) then none else some (base - (n + 1))

module _ (sb : Superblock) (store : Store sb) (fuel : ℕ) (caller : Caller sb store) where
  open store use {S}

  unfoldable pub stat : List ℕ → Process S → Answer S Stat
  stat path p = finish (on_volume (stat_core sb store fuel caller path) p)

  unfoldable pub opendir : List ℕ → Process S → Answer S ℕ
  opendir path p = finish (on_dirs (opendir_core sb store fuel caller path) p)

  unfoldable pub closedir : Option ℕ → Process S → Answer S (Option ℕ)
  closedir handle p = finish (on_dirs (closedir_core handle) p)

  -- The entry in the handle after a call that returned 0; an empty one is the end of the directory, NULL.
  unfoldable pub entry_of : ℕ → Process S → Returned (List ℕ)
  entry_of i p =
      let buf = (p.dirs i).dirent_buf in
      if not (inode_num_at buf 0 == 0) && not (length (name_at buf 0) == 0)
      then value buf
      else failed

  abbrev pub finish_readdir : ℕ → Run (Process S) (Unit {0}) → Answer S (List ℕ)
  finish_readdir i (ok _ p) = record { result = entry_of i p; after = p }
  finish_readdir i (err e p) = record { result = failed; after = posix_set_errno e p }

  unfoldable pub readdir : ℕ → Process S → Answer S (List ℕ)
  readdir i p = finish_readdir i (on_dirs (readdir_core sb store fuel caller i) p)

  unfoldable pub open_file : List ℕ → ℕ → ℕ → Process S → Answer S ℕ
  open_file path flags mode p = finish (on_files (open_core sb store fuel caller path flags mode) p)

  abbrev pub finish_close : Run (Process S) (Option ℕ) → Answer S ℕ
  finish_close (ok _ p) = record { result = value 0; after = p }
  finish_close (err e p) = record { result = value e; after = posix_set_errno e p }

  -- On an error this call returns the error itself, where the others return -1.
  unfoldable pub close : Option ℕ → Process S → Answer S ℕ
  close handle p = finish_close (on_files (close_core handle) p)

  unfoldable pub pread : Option ℕ → ℕ → ℕ → Process S → Answer S Data
  pread none size offset p = finish (fail einval p)
  pread (some i) size offset p = finish (
      (do
        fail_if (ltb uint32_max offset) einval
        on_files (read_core sb store fuel caller i size offset true))
        p)

  unfoldable pub read : Option ℕ → ℕ → Process S → Answer S Data
  read none size p = finish (fail einval p)
  read (some i) size p = pread (some i) size (p.files i).file_offset p

  unfoldable pub pwrite : Option ℕ → List ℕ → ℕ → Process S → Answer S ℕ
  pwrite none buf offset p = finish (fail einval p)
  pwrite (some i) buf offset p = finish (
      (do
        fail_if (ltb uint32_max offset) einval
        on_files (write_core sb store fuel caller i buf offset true))
        p)

  unfoldable pub write : Option ℕ → List ℕ → Process S → Answer S ℕ
  write none buf p = finish (fail einval p)
  write (some i) buf p = pwrite (some i) buf (p.files i).file_offset p

module _ {S : Type 0} where
  -- The end of `mofs_lseek`: the offset is stored, or the seek is refused.
  unfoldable pub seek_store : ℕ → Option ℕ → Cmd (Process S) ℕ
  seek_store i none = fail einval
  seek_store i (some new_pos) = do
    modify
        (λ p. record p { files = update p.files i (record (p.files i) { file_offset = new_pos }) })
    pure new_pos

module _ (sb : Superblock) (store : Store sb) where
  open store use {S}

  -- `base` of a seek
  unfoldable pub seek_base : Handle → Whence → Cmd (Process S) ℕ
  seek_base handle seek_set = pure 0
  seek_base handle seek_cur = pure handle.file_offset
  seek_base handle seek_end = do
    inode ← on_volume (read_inode sb store handle.inode_num)
    pure inode.i_size
  seek_base handle unknown = fail einval

  unfoldable pub seek_core : ℕ → Offset → Whence → Cmd (Process S) ℕ
  seek_core i offset from = do
    p ← get
    fail_if (not (p.files i).used) ebadf
    base ← seek_base (p.files i) from
    seek_store i (seek_to base offset)

  unfoldable pub lseek : Option ℕ → Offset → Whence → Process S → Answer S ℕ
  lseek none offset from p = finish (fail einval p)
  lseek (some i) offset from p = finish (seek_core i offset from p)
