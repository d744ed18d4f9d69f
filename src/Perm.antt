-- ===== src/Perm.antt =====
-- src/core/modules/mofs_perm.c: access to an inode by the caller's user and group. The group test of the
-- platform, `mofs_is_caller_in_group`, is a parameter; a user context is its uid, all that is read of it.
pub mod Verdict
use mofs.Base.{
  ℕ, Bool, true, false, not, ◌&&◌, ◌||◌, Option, none, some, bit_and, ◌==◌, if◌then◌else◌,
}
use mofs.Base.Run.{Cmd, pure, ◌>>=◌, ◌>>◌, fail, fail_if}
use mofs.Errno.{einval, eacces}
use mofs.Core.{Inode}

-- MOFS_OFLAG_*
abbrev pub oflag_rdonly : ℕ
oflag_rdonly = 1

abbrev pub oflag_wronly : ℕ
oflag_wronly = 2

abbrev pub oflag_rdwr : ℕ
oflag_rdwr = 3

abbrev pub oflag_exec : ℕ
oflag_exec = 4

abbrev pub oflag_search : ℕ
oflag_search = 8

abbrev pub oflag_accmode : ℕ
oflag_accmode = 15

-- `is_read`, `is_write` and `is_execute`
pub record Masks : Type 0 where
  pub is_read : ℕ
  pub is_write : ℕ
  pub is_execute : ℕ

-- MOFS_S_I* of the owner, of the group, of others
abbrev pub masks_for : ℕ → Bool → Inode → Masks
masks_for uid is_member inode =
    if uid == inode.i_uid
    then record { is_read = 256; is_write = 128; is_execute = 64 }
    else if is_member
    then record { is_read = 32; is_write = 16; is_execute = 8 }
    else record { is_read = 4; is_write = 2; is_execute = 1 }

-- Whether all bits of `flag` are set.
abbrev pub has_flag : ℕ → ℕ → Bool
has_flag flags flag = bit_and flags flag == flag

-- The chain of tests on `open_perm_flags`: true where it sets MOFS_EACCES.
abbrev pub denied : ℕ → ℕ → Masks → Bool
denied open_perm_flags mode m =
    if open_perm_flags == oflag_rdonly
    then bit_and mode m.is_read == 0
    else if open_perm_flags == oflag_wronly
    then bit_and mode m.is_write == 0
    else if open_perm_flags == oflag_rdwr
    then (bit_and mode m.is_read == 0) || (bit_and mode m.is_write == 0)
    else if open_perm_flags == oflag_exec
    then bit_and mode m.is_execute == 0
    else if open_perm_flags == oflag_search
    then bit_and mode m.is_execute == 0
    else false

module _ {S : Type 0} (is_caller_in_group : ℕ → Cmd S Bool) where
  -- `open_perm_flags` once `is_determined`, else `none`: what the test of one flag makes of it.
  abbrev pub claim : Bool → ℕ → Option ℕ → Cmd S (Option ℕ)
  claim false flag found = pure found
  claim true flag none = pure (some flag)
  claim true flag (some other) = fail einval

  -- The test of MOFS_OFLAG_WRONLY, which goes together with MOFS_OFLAG_RDONLY.
  abbrev pub claim_write : Bool → Option ℕ → Cmd S (Option ℕ)
  claim_write false found = pure found
  claim_write true none = pure (some oflag_wronly)
  claim_write true (some other) =
      if other == oflag_rdonly then pure (some oflag_rdwr) else fail einval

  abbrev pub check_mode : ℕ → Inode → Option ℕ → Cmd S (Unit {0})
  check_mode uid inode none = pure tt
  check_mode uid inode (some open_perm_flags) = do
    is_member ← is_caller_in_group inode.i_gid
    fail_if (denied open_perm_flags inode.i_mode (masks_for uid is_member inode)) eacces

  unfoldable pub check_open_permission : ℕ → ℕ → Inode → Cmd S (Unit {0})
  check_open_permission flags uid inode = do
    fail_if (bit_and flags oflag_accmode == 0) einval
    exec ← claim (has_flag flags oflag_exec) oflag_exec none
    search ← claim (has_flag flags oflag_search) oflag_search exec
    read ← claim (has_flag flags oflag_rdonly) oflag_rdonly search
    found ← claim_write (has_flag flags oflag_wronly) read
    check_mode uid inode found

  unfoldable pub check_dir_traverse : ℕ → Inode → Cmd S (Unit {0})
  check_dir_traverse uid dir_inode = check_open_permission oflag_search uid dir_inode

  unfoldable pub check_dir_read : ℕ → Inode → Cmd S (Unit {0})
  check_dir_read uid dir_inode = check_open_permission oflag_rdonly uid dir_inode

  unfoldable pub check_dir_write : ℕ → Inode → Cmd S (Unit {0})
  check_dir_write uid dir_inode = do
    check_open_permission oflag_wronly uid dir_inode
    check_dir_traverse uid dir_inode
