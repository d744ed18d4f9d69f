-- ===== src/Format/Regions.antt =====
-- The regions of a new volume: they follow each other without overlap, hold what the superblock says, and
-- lie on the device.
use native.Mathlib.Nat.{
  lt_of_mul-lt-mul_right, div-mul-le_self, lt-div-mul-add, mul_assoc, mul_comm, add-mul,
  le-mul_of_pos_right, mul-le-mul_left,
}
use mofs.Base.{
  ℕ, ◌+◌, ◌-◌, ◌*◌, ◌/◌, ◌≤◌, ◌<◌, ◌≡◌, refl, ◌∙◌, ap, subst, false, arith, ltb, leb, u32_mod,
  u64_mod, mul32, u32, add32,
}
use mofs.Core.{Superblock}
use mofs.Format.{
  Layout, layout, superblock_of, ceil_div, add64, mul64, meta_reserved, too_small, too_large,
}

-- Enough groups of `c` for `a` things, and not one more.
record Covers (a c n : ℕ) : Type 0 where
  up : a ≤ n * c
  tight : n * c < a + c

ceil_div-Covers : (a c : ℕ) → 0 < c → a + c < u64_mod → Covers a c (ceil_div a c)
ceil_div-Covers a c p h = rw (no_wrap a c p h) (record {
  up = omega (arith, lt-div-mul-add {a = a + (c - 1)} p);
  tight = omega (arith, div-mul-le_self (a + (c - 1)) c);
})
  where
    no_wrap : (x y : ℕ) → 0 < y → x + y < u64_mod → add64 x (y - 1) ≡ x + (y - 1)
    no_wrap x y p h = omega arith

-- What the superblock of a new volume of `dev_size` bytes promises.
pub record Regions (dev_size : ℕ) (sb : Superblock) : Type 0 where
  pub first : sb.inode_bitmap_start ≡ 1
  pub bitmaps : sb.inode_bitmap_start ≤ sb.data_bitmap_start
  pub table : sb.data_bitmap_start ≤ sb.inode_table_start
  pub region : sb.inode_table_start ≤ sb.data_region_start
  pub inode_bits : sb.inode_num ≤ (sb.data_bitmap_start - sb.inode_bitmap_start) * (sb.blk_size * 8)
  pub data_bits :
      sb.data_blk_num ≤ (sb.inode_table_start - sb.data_bitmap_start) * (sb.blk_size * 8)
  pub inodes : sb.inode_num * 64 ≤ (sb.data_region_start - sb.inode_table_start) * sb.blk_size
  pub whole : sb.data_region_start + sb.data_blk_num ≡ sb.hole_blk_num
  pub some_data : 0 < sb.data_blk_num
  pub on_device : sb.hole_blk_num * sb.blk_size ≤ dev_size

-- The numbers of a layout that passes the checks, none of them cut or wrapped.
record Sound (dev_size b : ℕ) (l : Layout) : Type 0 where
  holes : l.hole_blk_num * b ≤ dev_size
  few : l.hole_blk_num < u32_mod
  inode_bits : l.inode_num ≤ l.inode_bitmap_blk_num * (b * 8)
  data_bits : l.hole_blk_num ≤ l.data_bitmap_blk_num * (b * 8)
  table : l.inode_num * 64 ≤ l.inode_table_blk_num * b
  reserved :
      1 + l.inode_bitmap_blk_num + l.data_bitmap_blk_num + l.inode_table_blk_num ≡ meta_reserved l
  below : meta_reserved l < l.hole_blk_num
  inode_few : l.inode_num < u32_mod

Regions-of_Sound :
    (dev_size b : ℕ) (l : Layout) → Sound dev_size b l → Regions dev_size (superblock_of b l)
unfolding superblock_of
Regions-of_Sound dev_size b l z = record {
  first = refl;
  bitmaps = omega (arith, bitmap);
  table = omega (arith, bitmap, table);
  region = omega (arith, table, region);
  inode_bits =
      subst (λ x. u32 l.inode_num ≤ x * (b * 8)) bitmap_len
        (omega (arith, z.inode_bits, z.inode_few));
  data_bits =
      subst (λ x. u32 (l.hole_blk_num - meta_reserved l) ≤ x * (b * 8)) data_len
        (omega (arith, z.data_bits, z.few));
  inodes =
      subst (λ x. u32 l.inode_num * 64 ≤ x * b) table_len (omega (arith, z.table, z.inode_few));
  whole = omega (arith, region, z.reserved, z.below, z.few);
  some_data = omega (arith, z.below, z.few);
  on_device = subst (λ x. x * b ≤ dev_size) holes_len z.holes;
}
  where
    bitmap : add32 1 (u32 l.inode_bitmap_blk_num) ≡ 1 + l.inode_bitmap_blk_num
    bitmap = omega (arith, z.reserved, z.below, z.few)

    table :
        add32 (add32 1 (u32 l.inode_bitmap_blk_num)) (u32 l.data_bitmap_blk_num)
        ≡ 1 + l.inode_bitmap_blk_num + l.data_bitmap_blk_num
    table = omega (arith, bitmap, z.reserved, z.below, z.few)

    region :
        add32
          (add32 (add32 1 (u32 l.inode_bitmap_blk_num)) (u32 l.data_bitmap_blk_num))
          (u32 l.inode_table_blk_num)
        ≡ 1 + l.inode_bitmap_blk_num + l.data_bitmap_blk_num + l.inode_table_blk_num
    region = omega (arith, table, z.reserved, z.below, z.few)

    bitmap_len : l.inode_bitmap_blk_num ≡ add32 1 (u32 l.inode_bitmap_blk_num) - 1
    bitmap_len = omega (arith, bitmap)

    data_len :
        l.data_bitmap_blk_num
        ≡ add32 (add32 1 (u32 l.inode_bitmap_blk_num)) (u32 l.data_bitmap_blk_num)
          - add32 1 (u32 l.inode_bitmap_blk_num)
    data_len = omega (arith, bitmap, table)

    table_len :
        l.inode_table_blk_num
        ≡ add32
            (add32 (add32 1 (u32 l.inode_bitmap_blk_num)) (u32 l.data_bitmap_blk_num))
            (u32 l.inode_table_blk_num)
          - add32 (add32 1 (u32 l.inode_bitmap_blk_num)) (u32 l.data_bitmap_blk_num)
    table_len = omega (arith, table, region)

    holes_len : l.hole_blk_num ≡ u32 l.hole_blk_num
    holes_len = omega (arith, z.few)

-- The inodes are at most one for each four blocks, and one more.
inode_count : (dev b h n : ℕ) → 0 < b → dev < h * b + b → n * (b * 4) < dev + b * 4 → n * 4 < h + 5
inode_count dev b h n p d e = lt_of_mul-lt-mul_right b (omega (arith, regroup, add-mul h 5 b))
  where
    regroup : n * 4 * b ≡ n * (b * 4)
    regroup = mul_assoc n 4 b ∙ ap (λ x. n * x) (mul_comm 4 b)

layout-Sound :
    (dev b : ℕ)
    → 0 < b
    → b ≤ 65536
    → too_small (layout dev b) ≡ false
    → too_large (layout dev b) ≡ false
    → Sound dev b (layout dev b)
layout-Sound dev b p small enough fits = record {
  holes = div-mul-le_self dev b;
  few = few;
  inode_bits = inode_bits.up;
  data_bits = data_bits.up;
  table = omega (arith, inode_table.up, no_wrap);
  reserved = sums;
  below = not_leb _ _ enough;
  inode_few = omega (arith, inode_num, few);
}
  where
    few : dev / b < u32_mod
    few = not_above _ fits
      where
        not_above : (x : ℕ) → ltb (u32_mod - 1) x ≡ false → x < u32_mod
        not_above x h = ground arith

    not_leb : (x y : ℕ) → leb x y ≡ false → y < x
    not_leb x y h = ground arith

    dev_bound : dev < 281474976710656 + 65536
    dev_bound = omega (arith, lt-div-mul-add {a = dev} p, mul-le-mul_left (dev / b) small, few)

    inodes : Covers dev (mul32 b 4) (ceil_div dev (mul32 b 4))
    inodes = ceil_div-Covers dev (mul32 b 4) (omega arith) (omega (arith, dev_bound))

    per_inode : mul32 b 4 ≡ b * 4
    per_inode = omega arith

    inode_num : ceil_div dev (mul32 b 4) * 4 < dev / b + 5
    inode_num =
        inode_count dev b (dev / b) (ceil_div dev (mul32 b 4)) p (lt-div-mul-add {a = dev} p)
          (subst (λ x. ceil_div dev (mul32 b 4) * x < dev + x) per_inode inodes.tight)

    no_wrap : mul64 (ceil_div dev (mul32 b 4)) 64 ≡ ceil_div dev (mul32 b 4) * 64
    no_wrap = omega (arith, inode_num, few)

    inode_bits :
        Covers (ceil_div dev (mul32 b 4)) (b * 8) (ceil_div (ceil_div dev (mul32 b 4)) (b * 8))
    inode_bits = ceil_div-Covers _ (b * 8) (omega arith) (omega (arith, inode_num, few))

    data_bits : Covers (dev / b) (b * 8) (ceil_div (dev / b) (b * 8))
    data_bits = ceil_div-Covers _ (b * 8) (omega arith) (omega (arith, few))

    inode_table :
        Covers
          (mul64 (ceil_div dev (mul32 b 4)) 64)
          b
          (ceil_div (mul64 (ceil_div dev (mul32 b 4)) 64) b)
    inode_table = ceil_div-Covers _ b p (omega (arith, no_wrap, inode_num, few))

    sums :
        1
          + ceil_div (ceil_div dev (mul32 b 4)) (b * 8)
          + ceil_div (dev / b) (b * 8)
          + ceil_div (mul64 (ceil_div dev (mul32 b 4)) 64) b
        ≡ meta_reserved (layout dev b)
    sums = omega (
      arith,
      no_wrap,
      inode_num,
      few,
      inode_bits.tight,
      data_bits.tight,
      inode_table.tight,
      le-mul_of_pos_right (ceil_div (ceil_div dev (mul32 b 4)) (b * 8)) (positive b p),
      le-mul_of_pos_right (ceil_div (dev / b) (b * 8)) (positive b p),
      le-mul_of_pos_right (ceil_div (mul64 (ceil_div dev (mul32 b 4)) 64) b) p,
    )
      where
        positive : (n : ℕ) → 0 < n → 0 < n * 8
        positive n h = omega arith

-- A layout that passes the checks of the format gives regions that follow each other, bitmaps and an inode
-- table with room for all they count, and a data region that ends with the volume, on the device.
pub layout-Regions :
    (dev_size blk_bytes : ℕ)
    → 0 < blk_bytes
    → blk_bytes ≤ 65536
    → too_small (layout dev_size blk_bytes) ≡ false
    → too_large (layout dev_size blk_bytes) ≡ false
    → Regions dev_size (superblock_of blk_bytes (layout dev_size blk_bytes))
layout-Regions dev_size blk_bytes p small enough fits =
    Regions-of_Sound dev_size blk_bytes _ (layout-Sound dev_size blk_bytes p small enough fits)
