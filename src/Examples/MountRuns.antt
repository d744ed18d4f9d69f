-- ===== src/Examples/MountRuns.antt =====
-- Format and mount on a device in memory of 1 MB.
use mofs.Base.{ℕ, ◌≡◌, refl, true, false, [], ◌∷◌, arith}
use mofs.Base.Run.{Ends, ok, returns}
use mofs.Core.{validate_logical_blk_size}
use mofs.Device.{Device}
use mofs.Buffer.{zero_entry}
use mofs.File.Handles.{zero_handle}
use mofs.Format.{layout, superblock_of, superblock_bytes}
use mofs.Format.Regions.{Regions, layout-Regions}
use mofs.Tree.Listing.{new_dirhandle}
use mofs.Mount.{Volume, check_superblock, superblock_of_bytes, init_core}
use mofs.Mount.Ready.{Mounted, check_superblock-format, init_core-Ends}
use mofs.Examples.Memory.{Memory, in_memory, small}

-- 1 MB
abbrev megabyte : ℕ
megabyte = 1048576

abbrev in_memory_device : Device in_memory
in_memory_device = record {
  dev_open = λ path flags. ok tt;
  dev_close = ok tt;
  dev_get_size = ok megabyte;
  sync_init = ok tt;
  sync_fini = λ w. w;
  open_lem = λ path flags w. returns (λ a. refl);
  close_lem = λ w. returns (λ a. refl);
  size_lem = λ w. returns (omega arith, λ a. refl);
}

layout_example : Regions 1048576 (superblock_of 512 (layout 1048576 512))
layout_example = layout-Regions 1048576 512 (omega arith) (omega arith) refl refl

abbrev blank : Memory
blank = record { bytes = λ a. 0; pos = 0 }

valid_512 : validate_logical_blk_size 512 ≡ 0
unfolding validate_logical_blk_size
valid_512 = refl

check_superblock_example :
    check_superblock in_memory in_memory_device
      (superblock_of_bytes (superblock_bytes (superblock_of 512 (layout megabyte 512))))
      blank
    ≡ ok tt blank
check_superblock_example =
    check_superblock-format in_memory in_memory_device megabyte 512 blank blank refl valid_512 refl
      refl

abbrev not_mounted : Volume Memory
not_mounted = record {
  init = false;
  dev_path = [];
  sp_blk = small;
  files = λ i. zero_handle;
  dirs = λ i. new_dirhandle false 0;
  cache = record { pool = λ i. zero_entry; ready = false; tick = 0; mutex = false; world = blank };
}

init_core_example :
    Ends
      (λ _ u. Mounted in_memory in_memory_device u × (u.dev_path ≡ 47 ∷ []))
      (λ _ u. (u.init ≡ false) × (u.dev_path ≡ []))
      (init_core in_memory in_memory_device (47 ∷ []) true 5 7 not_mounted)
init_core_example = init_core-Ends in_memory in_memory_device (47 ∷ []) true 5 7 not_mounted
