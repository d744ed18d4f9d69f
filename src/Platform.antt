-- ===== src/Platform.antt =====
-- What the file system relies on and does not implement: the byte-addressed device of
-- src/port/include/mofs_devio.h, the allocator, the clock and the mutex of the port headers.
-- The laws state what those headers document.
use mofs.Base.{ℕ, ◌+◌, ◌≤◌, ◌<◌, ◌≡◌, ◌⊎◌, List, length, take, slice}
use mofs.Base.Run.{Cmd, Ends}

module _ {W : Type 0} (bytes : W → ℕ → ℕ) where
  -- The device holds the same bytes.
  abbrev pub SameBytes : W → W → Type 0
  SameBytes w v = (a : ℕ) → bytes v a ≡ bytes w a

  -- At most the `n` bytes from `o` on differ.
  abbrev pub SameOutside : ℕ → ℕ → W → W → Type 0
  SameOutside o n w v = (a : ℕ) → (a < o) ⊎ (o + n ≤ a) → bytes v a ≡ bytes w a

-- A `W` is the state of the device, the heap and the clock together.
pub record Platform : Type 1 where
  pub W : Type 0
  -- what a read of the device would find at each offset
  pub bytes : W → ℕ → ℕ
  -- the handle's current offset
  pub pos : W → ℕ
  -- `dev_lseek(fd, o, MOFS_SEEK_SET, &new_offset)`
  pub dev_lseek : ℕ → Cmd W ℕ
  -- `dev_read(fd, buf, count, &read_size)`: the bytes that arrive in `buf`
  pub dev_read : ℕ → Cmd W (List ℕ)
  -- `dev_write(fd, buf, count, &written)`
  pub dev_write : List ℕ → Cmd W ℕ
  pub dev_fsync : Cmd W (Unit {0})
  -- `mofs_malloc(n)`: `n` bytes of any content, or the value of `get_errno()`
  pub malloc : ℕ → Cmd W (List ℕ)
  pub mutex_init : Cmd W (Unit {0})
  pub mofs_now : Cmd W ℕ
  pub lseek_lem :
      (o : ℕ) (w : W)
      → Ends
          (λ n v. (n ≡ o) × (pos v ≡ o) × SameBytes bytes w v)
          (λ e v. SameBytes bytes w v)
          (dev_lseek o w)
  pub read_lem :
      (count : ℕ) (w : W)
      → Ends
          (λ got v.
            (length got ≤ count)
            × (got ≡ slice (bytes w) (pos w) (length got))
            × (pos v ≡ pos w + length got)
            × SameBytes bytes w v)
          (λ e v. SameBytes bytes w v)
          (dev_read count w)
  pub write_lem :
      (sent : List ℕ) (w : W)
      → Ends
          (λ n v.
            (n ≤ length sent)
            × (slice (bytes v) (pos w) n ≡ take n sent)
            × (pos v ≡ pos w + n)
            × SameOutside bytes (pos w) n w v)
          (λ e v. SameOutside bytes (pos w) (length sent) w v)
          (dev_write sent w)
  pub fsync_lem :
      (w : W) → Ends (λ _ v. SameBytes bytes w v) (λ e v. SameBytes bytes w v) (dev_fsync w)
  pub malloc_lem :
      (n : ℕ) (w : W)
      → Ends
          (λ mem v. (length mem ≡ n) × SameBytes bytes w v)
          (λ e v. SameBytes bytes w v)
          (malloc n w)
  pub mutex_lem :
      (w : W) → Ends (λ _ v. SameBytes bytes w v) (λ e v. SameBytes bytes w v) (mutex_init w)
  pub now_lem :
      (w : W) → Ends (λ t v. SameBytes bytes w v) (λ e v. SameBytes bytes w v) (mofs_now w)
