-- ===== src/Device.antt =====
-- The rest of src/port/include that format and mount call: the opening, the size and the closing of a device
-- of mofs_devio.h, and the core lock of mofs_port_sync.h. The laws state what those headers document.
use mofs.Base.{ℕ, List, ◌<◌, u64_mod}
use mofs.Base.Run.{Cmd, Ends}
use mofs.Platform.{Platform, SameBytes}

pub record Device (os : Platform) : Type 0 where
  pub dev_open : List ℕ → ℕ → Cmd os.W (Unit {0})
  pub dev_close : Cmd os.W (Unit {0})
  pub dev_get_size : Cmd os.W ℕ
  pub sync_init : Cmd os.W (Unit {0})
  -- nothing is returned
  pub sync_fini : os.W → os.W
  pub open_lem :
      (path : List ℕ) (flags : ℕ) (w : os.W)
      → Ends (λ _ v. SameBytes os.bytes w v) (λ _ v. SameBytes os.bytes w v) (dev_open path flags w)
  pub close_lem :
      (w : os.W)
      → Ends (λ _ v. SameBytes os.bytes w v) (λ _ v. SameBytes os.bytes w v) (dev_close w)
  pub size_lem :
      (w : os.W)
      → Ends
          (λ size v. (size < u64_mod) × SameBytes os.bytes w v)
          (λ _ v. SameBytes os.bytes w v)
          (dev_get_size w)
