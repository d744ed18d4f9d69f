-- ===== src/Errno.antt =====
-- The error numbers of include/mofs_errno.h that the modelled code returns.
use mofs.Base.{ℕ}

abbrev pub eperm : ℕ
eperm = 1

abbrev pub enoent : ℕ
enoent = 2

abbrev pub eio : ℕ
eio = 5

abbrev pub eacces : ℕ
eacces = 13

abbrev pub enotdir : ℕ
enotdir = 20

abbrev pub einval : ℕ
einval = 22

abbrev pub enospc : ℕ
enospc = 28

abbrev pub enametoolong : ℕ
enametoolong = 36

abbrev pub ebadf : ℕ
ebadf = 9

abbrev pub eexist : ℕ
eexist = 17

abbrev pub eisdir : ℕ
eisdir = 21

abbrev pub enfile : ℕ
enfile = 23

abbrev pub efbig : ℕ
efbig = 27

abbrev pub enotempty : ℕ
enotempty = 39
