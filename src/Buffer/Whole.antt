-- ===== src/Buffer/Whole.antt =====
-- The cache over a device that cuts no read short before the end of the volume: a block of the volume is never
-- read in part.
use native.Mathlib.Nat.{mul-le-mul_right, suc-mul}
use mofs.Base.{
  ℕ, ◌+◌, ◌*◌, ◌%◌, ◌≤◌, ◌<◌, ◌≡◌, refl, Bool, true, false, not, Option, none, some, ◌==◌, ==-refl,
  arith, add32, u32_mod, length, if◌then◌else◌, Bool-cases, inl, inr, ◌++◌, [],
}
use mofs.Base.Run.{
  Run, ok, err, Cmd, Ends, returns, fails, and_then, pure, fail_if, ◌>>=◌, ◌>>◌, both,
}
use mofs.Base.Run
use mofs.Errno.{einval}
use mofs.Core.{Superblock}
use mofs.Platform.{Platform}
use mofs.RawIo.{Read, seek_block, read_rounds, read_one_block, read_continuous_blocks_raw}
use mofs.Buffer.{
  Cache, lift_run, bcache_find, bcache_get_victim, read_into, load_tail, load_block, read_block,
  read_loop, bcache_read_blocks,
}
use mofs.Buffer.View.{Inv}
use mofs.Buffer.Implements.{cache_store}
use mofs.File.Reads.{WholeReads}

module _ (os : Platform) (sb : Superblock) where
  open os use {W, pos, dev_read, dev_lseek, lseek_lem}

  -- A read that ends before the end of the volume's last block is not cut short.
  abbrev pub FullReads : Type 0
  FullReads =
      (count : ℕ) (w : W)
      → pos w + count ≤ sb.hole_blk_num * sb.blk_size
      → Ends (λ got _. length got ≡ count) (λ _ _. Unit {0}) (dev_read count w)

  abbrev Uncut : {S : Type 0} → Run S Read → Type 0
  Uncut r = Ends (λ x _. x.fraction ≡ 0) (λ _ _. Unit {0}) r

  raw-Uncut :
      (b : ℕ) (w : W)
      → FullReads
      → b < sb.hole_blk_num
      → Uncut (read_continuous_blocks_raw os sb 1 b w)
  unfolding read_continuous_blocks_raw seek_block read_rounds read_one_block
  raw-Uncut b w full inside =
      Run.next at_block
        (λ _ v p.
          Run.next
            (Run.branch (sb.blk_size == 0) _ _ v (λ _. fails tt)
              (λ _. full sb.blk_size v (room v p)))
            (λ got u len. rw (len, ==-refl sb.blk_size) (returns refl)) (λ _ _ _. tt))
        (λ _ _ _. tt)
    where
      at_block : Ends (λ _ v. pos v ≡ b * sb.blk_size) (λ _ _. Unit {0}) (seek_block os sb b w)
      at_block =
          Run.guard (sb.blk_size == 0) _ _ w (λ _. tt)
            (λ _.
              Run.next (lseek_lem (b * sb.blk_size) w)
                (λ o v h. still (not (o % sb.blk_size == 0)) v (h.1)) (λ _ _ _. tt))
        where
          still :
              (c : Bool) (v : W)
              → pos v ≡ b * sb.blk_size
              → Ends (λ _ u. pos u ≡ b * sb.blk_size) (λ _ _. Unit {0}) (fail_if c einval v)
          still true v h = fails tt
          still false v h = returns h

      room : (v : W) → pos v ≡ b * sb.blk_size → pos v + sb.blk_size ≤ sb.hole_blk_num * sb.blk_size
      room v p = omega (arith, p, suc-mul b sb.blk_size, mul-le-mul_right sb.blk_size inside)

  lift-Uncut : (c : Cache W) {r : Run W Read} → Uncut r → Uncut (lift_run c r)
  lift-Uncut c (returns p) = returns p
  lift-Uncut c (fails p) = fails p

  load_tail-Uncut :
      (idx b : ℕ) (r : Read) (c : Cache W) → r.fraction ≡ 0 → Uncut (load_tail os sb idx b r c)
  unfolding load_tail
  load_tail-Uncut idx b r c e =
      rw (e) (Run.guard (not (r.read_blk_num == 1)) _ _ c (λ _. tt) (λ _. returns refl))

  load_block-Uncut :
      (b : ℕ) (c : Cache W) → FullReads → b < sb.hole_blk_num → Uncut (load_block os sb b c)
  unfolding load_block read_into
  load_block-Uncut b c full inside =
      Run.next (Run.anything (bcache_get_victim os sb c))
        (λ idx d _.
          Run.next
            (Run.next (lift-Uncut d (raw-Uncut b d.world full inside)) (λ r e z. returns z)
              (λ _ _ z. z))
            (λ r e z. load_tail-Uncut idx b r e z) (λ _ _ z. z))
        (λ _ _ _. tt)

  read_block-Uncut :
      (b : ℕ) (c : Cache W) → FullReads → b < sb.hole_blk_num → Uncut (read_block os sb b c)
  unfolding read_block
  read_block-Uncut b c full inside = found (bcache_find b c) _ (λ i. returns refl)
    where
      found :
          (o : Option ℕ) (hit : ℕ → Cmd (Cache W) Read)
          → ((i : ℕ) → Uncut (hit i c))
          → Uncut (
              (elim o as (λ _. Cmd (Cache W) Read) [
                | some idx ↦ hit idx
                | none ↦ load_block os sb b
              ])
                c)
      found (some i) hit h = h i
      found none hit h = load_block-Uncut b c full inside

  pub bcache_read_blocks-Uncut :
      (b : ℕ) (c : Cache W)
      → FullReads
      → sb.hole_blk_num < u32_mod
      → b < sb.hole_blk_num
      → Inv os sb c
      → Ends (λ r _. r.fraction ≡ 0) (λ _ _. Unit {0}) (bcache_read_blocks os sb 1 b c)
  unfolding bcache_read_blocks read_loop
  bcache_read_blocks-Uncut b c full word inside sound = elim (Bool-cases (sb.blk_size == 0)) [
    | inl z ↦ rw z (fails tt)
    | inr nz ↦
        rw (nz, cut b (omega (arith, word, inside)))
          (simp sound.is_ready
            (Run.next (read_block-Uncut b c full inside) (λ q d h. one_round q d h) (λ _ _ h. h)))
  ]
    where
      cut : (b : ℕ) → b < u32_mod → add32 b 0 ≡ b
      cut b h = omega arith

      one_round :
          (q : Read) (d : Cache W)
          → q.fraction ≡ 0
          → Uncut (
              (if not (q.fraction == 0)
                  then pure q
                  else pure (record { buf = q.buf ++ []; read_blk_num = 1; fraction = 0 }))
                d)
      one_round q d f = rw f (returns refl)

  -- The cache as a store of blocks, over such a device.
  pub cache_store-WholeReads :
      FullReads → sb.hole_blk_num < u32_mod → WholeReads sb (cache_store os sb)
  cache_store-WholeReads full word b c inside sound =
      bcache_read_blocks-Uncut b c full word inside sound
