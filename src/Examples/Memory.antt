-- ===== src/Examples/Memory.antt =====
-- A platform in memory: a device with a byte at every offset, where nothing fails.
use mofs.Base.{
  ℕ, zero, suc, ◌+◌, ◌≤◌, ◌<◌, ◌≡◌, refl, ◌∙◌, ap, inl, inr, ◌⊎◌, List, [], ◌∷◌, arith, length,
  replicate, slice, length-slice, slice_ext, update, update-ne, take-length, update_self, sym,
}
use mathlib.Core.Path.{ap₂}
use mofs.Base.Run.{ok, returns}
use mofs.Core.{Superblock}
use mofs.Platform.{Platform}

pub record Memory : Type 0 where
  pub bytes : ℕ → ℕ
  pub pos : ℕ

abbrev pub stored : List ℕ → ℕ → (ℕ → ℕ) → ℕ → ℕ
stored [] o f = f
stored (x ∷ xs) o f = update (stored xs (o + 1) f) o x

pub slice-stored : (xs : List ℕ) (o : ℕ) (f : ℕ → ℕ) → slice (stored xs o f) o (length xs) ≡ xs
slice-stored [] o f = refl
slice-stored (x ∷ xs) o f = ap₂ ◌∷◌ (update_self (stored xs (o + 1) f) o x) (
    slice_ext (stored (x ∷ xs) o f) (stored xs (o + 1) f) (o + 1) (length xs)
      (λ a p q. update-ne (stored xs (o + 1) f) o x a (λ e. omega arith))
    ∙ slice-stored xs (o + 1) f)

pub stored_outside :
    (xs : List ℕ) (o : ℕ) (f : ℕ → ℕ) (a : ℕ)
    → (a < o) ⊎ (o + length xs ≤ a)
    → stored xs o f a ≡ f a
stored_outside [] o f a h = refl
stored_outside (x ∷ xs) o f a h =
    update-ne (stored xs (o + 1) f) o x a (λ e. apart e h) ∙ stored_outside xs (o + 1) f a (later h)
  where
    apart : o ≡ a → (a < o) ⊎ (o + suc (length xs) ≤ a) → ⊥
    apart e (inl p) = omega arith
    apart e (inr p) = omega arith

    later : (a < o) ⊎ (o + suc (length xs) ≤ a) → (a < o + 1) ⊎ (o + 1 + length xs ≤ a)
    later (inl p) = inl (omega arith)
    later (inr p) = inr (omega arith)

pub length-replicate : (n : ℕ) (a : ℕ) → length (replicate n a) ≡ n
length-replicate zero a = refl
length-replicate (suc n) a = ap suc (length-replicate n a)

abbrev pub in_memory : Platform
in_memory = record {
  W = Memory;
  bytes = λ w. w.bytes;
  pos = λ w. w.pos;
  dev_lseek = λ o w. ok o (record w { pos = o });
  dev_read = λ count w. ok (slice w.bytes w.pos count) (record w { pos = w.pos + count });
  dev_write = λ sent w.
      ok (length sent) (record { bytes = stored sent w.pos w.bytes; pos = w.pos + length sent });
  dev_fsync = ok tt;
  malloc = λ n. ok (replicate n 0);
  mutex_init = ok tt;
  mofs_now = ok 1700000000;
  lseek_lem = λ o w. returns (refl, refl, λ a. refl);
  read_lem = λ count w. returns (
    omega (arith, length-slice w.bytes w.pos count),
    ap (slice w.bytes w.pos) (sym (length-slice w.bytes w.pos count)),
    omega (arith, length-slice w.bytes w.pos count),
    λ a. refl,
  );
  write_lem = λ sent w. returns (
    omega arith,
    slice-stored sent w.pos w.bytes ∙ sym (take-length sent),
    refl,
    λ a h. stored_outside sent w.pos w.bytes a h,
  );
  fsync_lem = λ w. returns (λ a. refl);
  malloc_lem = λ n w. returns (length-replicate n 0, λ a. refl);
  mutex_lem = λ w. returns (λ a. refl);
  now_lem = λ w. returns (λ a. refl);
}

-- A volume with blocks of four bytes.
abbrev pub small : Superblock
small = record {
  magic = 1397116749;
  hole_blk_num = 64;
  inode_num = 16;
  data_blk_num = 20;
  inode_bitmap_start = 1;
  data_bitmap_start = 2;
  inode_table_start = 3;
  data_region_start = 40;
  blk_size = 4;
}
