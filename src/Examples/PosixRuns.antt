-- ===== src/Examples/PosixRuns.antt =====
-- The theorem on seeks, at the volume with two directories and one file handle.
use mofs.Base.{arith, false, some, if◌then◌else◌, ◌==◌}
use mofs.File.Handles.{zero_handle, opened_handle}
use mofs.Tree.Listing.{new_dirhandle}
use mofs.Posix.{Process, pos, seek_end, lseek}
use mofs.Posix.Seek.{Sought, lseek-Sought}
use mofs.Examples.Blocks.{Disk}
use mofs.Examples.Forest.{wood, in_wood, planted, planted-IsWhole}

abbrev process : Process Disk
process = record {
  fs = planted;
  files = λ i. if i == 0 then opened_handle 3 1 else zero_handle;
  dirs = λ i. new_dirhandle false 0;
  errno = 0;
}

lseek_example :
    Sought wood in_wood process 0
      (pos 5)
      seek_end
      (lseek wood in_wood (some 0) (pos 5) seek_end process)
lseek_example = lseek-Sought wood in_wood process 0 (pos 5) seek_end (omega arith) planted-IsWhole
