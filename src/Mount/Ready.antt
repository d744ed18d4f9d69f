-- ===== src/Mount/Ready.antt =====
-- What a mount leaves, and that it takes a volume that was just formatted.
use mofs.Base.{
  ℕ, ◌+◌, ◌-◌, ◌/◌, ◌≤◌, ◌≡◌, refl, sym, ◌∙◌, ap, subst, Bool, true, false, not, List, [], ◌++◌,
  arith, ltb, ◌==◌, ==→eq, ==-refl, Bool-cases, inl, inr, length, u32_mod, u32, ◌||◌,
}
use mofs.Base.Run.{
  Run, ok, err, Cmd, Ends, returns, fails, and_then, pure, modify, ◌>>=◌, ◌>>◌, fail_if,
}
use mofs.Base.Run
use mofs.Errno.{einval}
use mofs.Core.{Superblock, validate_logical_blk_size, blk_size_min, blk_size_max}
use mofs.Platform.{Platform}
use mofs.Device.{Device}
use mofs.Codec.{put32, get32}
use mofs.Buffer.{Cache, lift, lift_run, bcache_init}
use mofs.Format.{
  open_flag_rdwr, magic_num, layout, superblock_of, superblock_bytes, too_small, too_large,
}
use mofs.Mount.{
  Volume, superblock_of_bytes, superblock_size, cache_run, not_ready, with_superblock,
  check_superblock, read_superblock, own_root, start, undo_start, init_core,
}

get32-put32 : (v : ℕ) (rest : List ℕ) → get32 (put32 v ++ rest) ≡ u32 v
get32-put32 v rest = omega arith

-- Each field in 32 bits.
abbrev cut : Superblock → Superblock
cut sb = record {
  magic = u32 sb.magic;
  hole_blk_num = u32 sb.hole_blk_num;
  inode_num = u32 sb.inode_num;
  data_blk_num = u32 sb.data_blk_num;
  inode_bitmap_start = u32 sb.inode_bitmap_start;
  data_bitmap_start = u32 sb.data_bitmap_start;
  inode_table_start = u32 sb.inode_table_start;
  data_region_start = u32 sb.data_region_start;
  blk_size = u32 sb.blk_size;
}

superblock_of_bytes-bytes : (sb : Superblock) → superblock_of_bytes (superblock_bytes sb) ≡ cut sb
superblock_of_bytes-bytes sb = λ k. record {
  magic = get32-put32 sb.magic [] k;
  hole_blk_num = get32-put32 sb.hole_blk_num [] k;
  inode_num = get32-put32 sb.inode_num [] k;
  data_blk_num = get32-put32 sb.data_blk_num [] k;
  inode_bitmap_start = get32-put32 sb.inode_bitmap_start [] k;
  data_bitmap_start = get32-put32 sb.data_bitmap_start [] k;
  inode_table_start = get32-put32 sb.inode_table_start [] k;
  data_region_start = get32-put32 sb.data_region_start [] k;
  blk_size = get32-put32 sb.blk_size [] k;
}

not-false : (b : Bool) → not b ≡ false → b ≡ true
not-false true e = refl
not-false false e = sym e

valid_size : (b : ℕ) → validate_logical_blk_size b ≡ 0 → (512 ≤ b) × (b ≤ 65536)
unfolding validate_logical_blk_size
valid_size b h = elim (Bool-cases (ltb b blk_size_min || ltb blk_size_max b)) [
  | inl t ↦ absurd (refused (sym (rw t refl) ∙ h))
  | inr n ↦ in_range b n
]
  where
    refused : einval ≡ 0 → ⊥
    refused e = omega arith

    in_range :
        (x : ℕ) → (ltb x blk_size_min || ltb blk_size_max x) ≡ false → (512 ≤ x) × (x ≤ 65536)
    in_range x h = (ground arith, ground arith)

module _ (os : Platform) (device : Device os) where
  open os use {W}
  open device use {dev_get_size}

  accepted :
      (sb : Superblock) (dev_size : ℕ) (w v : W)
      → sb.magic ≡ magic_num
      → validate_logical_blk_size sb.blk_size ≡ 0
      → dev_get_size w ≡ ok dev_size v
      → dev_size / sb.blk_size ≡ sb.hole_blk_num
      → check_superblock os device sb w ≡ ok tt v
  unfolding check_superblock
  accepted sb dev_size w v magic valid size holes =
      rw (magic, valid, size, holes, ==-refl sb.hole_blk_num) refl

  -- The checks of a mount accept the superblock that a format writes for a device of this size, as it is read
  -- back from its bytes.
  pub check_superblock-format :
      (dev_size blk_bytes : ℕ) (w v : W)
      → dev_get_size w ≡ ok dev_size v
      → validate_logical_blk_size blk_bytes ≡ 0
      → too_small (layout dev_size blk_bytes) ≡ false
      → too_large (layout dev_size blk_bytes) ≡ false
      → check_superblock os device
          (superblock_of_bytes
            (superblock_bytes (superblock_of blk_bytes (layout dev_size blk_bytes))))
          w
        ≡ ok tt v
  unfolding superblock_of
  check_superblock-format dev_size blk_bytes w v size valid enough fits =
      ap (λ x. check_superblock os device x w)
        (superblock_of_bytes-bytes (superblock_of blk_bytes (layout dev_size blk_bytes)))
      ∙ accepted (cut (superblock_of blk_bytes (layout dev_size blk_bytes))) dev_size w v refl
          (ap validate_logical_blk_size same_blk ∙ valid) size
          (ap (λ x. dev_size / x) same_blk ∙ sym same_holes)
    where
      same_blk : u32 blk_bytes ≡ blk_bytes
      same_blk = omega (arith, (valid_size blk_bytes valid).1)

      same_holes : u32 (u32 (dev_size / blk_bytes)) ≡ dev_size / blk_bytes
      same_holes = small _ fits
        where
          small : (x : ℕ) → ltb (u32_mod - 1) x ≡ false → u32 (u32 x) ≡ x
          small x h = ground arith

  -- Everything but the cache and the platform below it.
  record SameShell (v u : Volume W) : Type 0 where
    init : u.init ≡ v.init
    dev_path : u.dev_path ≡ v.dev_path
    sp_blk : u.sp_blk ≡ v.sp_blk
    files : u.files ≡ v.files
    dirs : u.dirs ≡ v.dirs

  on_cache-Ends :
      {A : Type 0} {P : A → Type 0} (v : Volume W) {r : Run (Cache W) A}
      → Ends (λ a _. P a) (λ _ _. Unit {0}) r
      → Ends (λ a u. P a × SameShell v u) (λ _ _. Unit {0}) (cache_run v r)
  on_cache-Ends v (returns p) =
      returns (p, record { init = refl; dev_path = refl; sp_blk = refl; files = refl; dirs = refl })
  on_cache-Ends v (fails p) = fails tt

  lift-value :
      {A : Type 0} {P : A → Type 0} (c : Cache W) {r : Run W A}
      → Ends (λ a _. P a) (λ _ _. Unit {0}) r
      → Ends (λ a _. P a) (λ _ _. Unit {0}) (lift_run c r)
  lift-value c (returns p) = returns p
  lift-value c (fails p) = fails tt

  -- A superblock that a mount may use: the magic number, the block size, and as many blocks as the device has
  -- by the size that it reported.
  pub record Valid (sb : Superblock) : Type 0 where
    pub magic : sb.magic ≡ magic_num
    pub blk_size : validate_logical_blk_size sb.blk_size ≡ 0
    pub blocks :
        (size : ℕ) × ((w : W) × ((x : W) × (dev_get_size w ≡ ok size x)))
        × (size / sb.blk_size ≡ sb.hole_blk_num)

  checked : (b : Bool) (w : W) → Ends (λ _ _. b ≡ false) (λ _ _. Unit {0}) (fail_if b einval w)
  checked true w = fails tt
  checked false w = returns refl

  check_superblock-Valid :
      (sb : Superblock) (w : W)
      → Ends (λ _ _. Valid sb) (λ _ _. Unit {0}) (check_superblock os device sb w)
  unfolding check_superblock
  check_superblock-Valid sb w =
      Run.guard (not (sb.magic == magic_num)) _ _ w (λ _. tt)
        (λ m.
          Run.guard (not (validate_logical_blk_size sb.blk_size == 0)) _ _ w (λ _. tt)
            (λ b.
              Run.next (Run.exactly (dev_get_size w))
                (λ size x got.
                  Run.mono (checked (not (size / sb.blk_size == sb.hole_blk_num)) x)
                    (λ _ _ h. record {
                      magic = ==→eq _ _ (not-false _ m);
                      blk_size = ==→eq _ _ (not-false _ b);
                      blocks = (size, (w, (x, got)), ==→eq _ _ (not-false _ h));
                    })
                    (λ _ _ z. z))
                (λ _ _ _. tt)))

  read_superblock-Valid :
      (w : W) → Ends (λ sb _. Valid sb) (λ _ _. Unit {0}) (read_superblock os device w)
  unfolding read_superblock
  read_superblock-Valid w =
      Run.next (Run.anything (os.dev_lseek 0 w))
        (λ _ x _.
          Run.next (Run.anything (os.dev_read superblock_size x))
            (λ got y _.
              Run.guard (not (length got == superblock_size)) _ _ y (λ _. tt)
                (λ _.
                  Run.next (check_superblock-Valid (superblock_of_bytes got) y) (λ _ z h. returns h)
                    (λ _ _ h. h)))
            (λ _ _ h. h))
        (λ _ _ h. h)

  -- The volume is mounted: its superblock has passed the checks, and no handle is in use.
  pub record Mounted (v : Volume W) : Type 0 where
    pub init : v.init ≡ true
    pub valid : Valid v.sp_blk
    pub files : (i : ℕ) → (v.files i).used ≡ false
    pub dirs : (i : ℕ) → (v.dirs i).used ≡ false

  -- Fields that a change of the platform's state or of `ctx.init` leaves.
  started :
      (sb : Superblock) (v : Volume W)
      → Valid sb
      → (u : Volume W) → SameShell (with_superblock sb v) u
      → (x : Volume W) → SameShell (record u { init = true }) x
      → Mounted x × (x.dev_path ≡ v.dev_path)
  started sb v valid u h x k = (
    record {
      init = k.init;
      valid = subst Valid (sym (k.sp_blk ∙ h.sp_blk)) valid;
      files = λ i. ap (λ f. (f i).used) (k.files ∙ h.files);
      dirs = λ i. ap (λ f. (f i).used) (k.dirs ∙ h.dirs);
    },
    k.dev_path ∙ h.dev_path,
  )

  SameShell-refl : (v : Volume W) → SameShell v v
  SameShell-refl v = record {
    init = refl;
    dev_path = refl;
    sp_blk = refl;
    files = refl;
    dirs = refl;
  }

  SameShell-trans : {v u x : Volume W} → SameShell v u → SameShell u x → SameShell v x
  SameShell-trans h k = record {
    init = k.init ∙ h.init;
    dev_path = k.dev_path ∙ h.dev_path;
    sp_blk = k.sp_blk ∙ h.sp_blk;
    files = k.files ∙ h.files;
    dirs = k.dirs ∙ h.dirs;
  }

  start-Ends :
      (owner : Bool) (uid gid : ℕ) (v : Volume W)
      → Ends
          (λ _ u. Mounted u × (u.dev_path ≡ v.dev_path))
          (λ _ _. Unit {0})
          (start os device owner uid gid v)
  unfolding start
  start-Ends owner uid gid v =
      Run.next (on_cache-Ends v (lift-value v.cache (read_superblock-Valid v.cache.world)))
        (λ sb u g.
          Run.next (on_cache-Ends (with_superblock sb u) (Run.anything (bcache_init os sb u.cache)))
            (λ _ x h.
              Run.next (on_cache-Ends x (Run.anything (lift device.sync_init x.cache)))
                (λ _ y k.
                  Run.mono
                    (Run.branch owner _ _ (record y { init = true })
                      (λ _.
                        on_cache-Ends (record y { init = true })
                          (Run.anything (own_root os device sb uid gid y.cache)))
                      (λ _. returns (tt, SameShell-refl _)))
                    (λ _ z l. path_of u g.1 (started sb u g.0 y (SameShell-trans h.1 k.1) z l.1))
                    (λ _ _ _. tt))
                (λ _ _ _. tt))
            (λ _ _ _. tt))
        (λ _ _ _. tt)
    where
      path_of :
          (u : Volume W)
          → SameShell v u
          → {x : Volume W} → Mounted x × (x.dev_path ≡ u.dev_path)
          → Mounted x × (x.dev_path ≡ v.dev_path)
      path_of u h p = (p.0, p.1 ∙ h.dev_path)

  -- A mount that returns 0 leaves a mounted volume with the path, and one that fails leaves none: not
  -- mounted, with no path.
  pub init_core-Ends :
      (path : List ℕ) (owner : Bool) (uid gid : ℕ) (v : Volume W)
      → Ends
          (λ _ u. Mounted u × (u.dev_path ≡ path))
          (λ _ u. (u.init ≡ false) × (u.dev_path ≡ []))
          (init_core os device path owner uid gid v)
  unfolding init_core
  init_core-Ends path owner uid gid v =
      Run.rolled_back (modify not_ready)
        (Run.next (on_cache-Ends v (Run.anything (lift (os.malloc (length path + 1)) v.cache)))
          (λ _ u g.
            Run.next
              (on_cache-Ends (record u { dev_path = path })
                (Run.anything (lift (device.dev_open path open_flag_rdwr) u.cache)))
              (λ _ x h.
                Run.rolled_back (undo_start os device)
                  (Run.mono (start-Ends owner uid gid x) (λ _ y p. (p.0, p.1 ∙ h.1.dev_path))
                    (λ _ _ z. z))
                  (λ y _. Run.anything (undo_start os device y)) (λ _ z. z))
              (λ _ _ z. z))
          (λ _ _ z. z))
        (λ u _. returns (refl, refl)) (λ _ z. z)
