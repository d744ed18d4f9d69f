-- ===== src/SplitBuffer/Routes.antt =====
-- What a transfer of blocks on one side leaves alone: the pool of the other side.
use mofs.Base.{
  ℕ, zero, suc, ◌+◌, ◌≤◌, ◌<◌, ◌≡◌, refl, ◌∙◌, Bool, true, false, not, List, ◌==◌, add32, arith,
  subst,
}
use mofs.Base.Run.{Run, ok, err, Cmd, Ends, returns, fails, pure, ◌>>=◌, ◌>>◌, fail_if, and_then}
use mofs.Base.Run
use mofs.Errno.{einval}
use mofs.Core.{Superblock}
use mofs.Platform.{Platform}
use mofs.RawIo.{read_continuous_blocks_raw, write_continuous_blocks_raw}
use mofs.SplitPool.{Half, split_read_block, split_write_block}
use mofs.SplitPool.Owned.{After, test, then_do}
use mofs.SplitBuffer.{
  SplitCache, is_metadata_block, select, one_side, half, routed, in_split, pool_num_of,
  split_read_loop, split_read_blocks, split_write_loop, split_write_blocks,
}

module _ (os : Platform) (sb : Superblock) where
  open os use {W}

  -- The pool of the other side than `m` and its tick counter are as they were.
  pub record Spares (m : Bool) (c d : SplitCache W) : Type 0 where
    pub same_pool : (half (one_side (not m)) d).pool ≡ (half (one_side (not m)) c).pool
    pub same_tick : (half (one_side (not m)) d).tick ≡ (half (one_side (not m)) c).tick

  Spares-refl : {m : Bool} {c : SplitCache W} → Spares m c c
  Spares-refl = record { same_pool = refl; same_tick = refl }

  Spares-trans : {m : Bool} {c d e : SplitCache W} → Spares m c d → Spares m d e → Spares m c e
  Spares-trans k l = record {
    same_pool = l.same_pool ∙ k.same_pool;
    same_tick = l.same_tick ∙ k.same_tick;
  }

  routed-Spares :
      {A : Type 0} (m : Bool) (r : Run (Half W) A) (c : SplitCache W)
      → After (Spares m c) (routed (one_side m) c r)
  routed-Spares true (ok a h) c = returns (record { same_pool = refl; same_tick = refl })
  routed-Spares true (err e h) c = fails (record { same_pool = refl; same_tick = refl })
  routed-Spares false (ok a h) c = returns (record { same_pool = refl; same_tick = refl })
  routed-Spares false (err e h) c = fails (record { same_pool = refl; same_tick = refl })

  in_split-Spares :
      {A : Type 0} (m : Bool) (r : Run W A) (c : SplitCache W) → After (Spares m c) (in_split c r)
  in_split-Spares true (ok a w) c = returns (record { same_pool = refl; same_tick = refl })
  in_split-Spares true (err e w) c = fails (record { same_pool = refl; same_tick = refl })
  in_split-Spares false (ok a w) c = returns (record { same_pool = refl; same_tick = refl })
  in_split-Spares false (err e w) c = fails (record { same_pool = refl; same_tick = refl })

  on_side :
      {A : Type 0} (b m : Bool) (r : Run (Half W) A) (c : SplitCache W)
      → b ≡ m
      → After (Spares m c) (routed (one_side b) c r)
  on_side b m r c q =
      subst (λ x. After (Spares x c) (routed (one_side b) c r)) q (routed-Spares b r c)

  further :
      {A : Type 0} {m : Bool} {c d : SplitCache W} {r : Run (SplitCache W) A}
      → Spares m c d
      → After (Spares m d) r
      → After (Spares m c) r
  further s h = Run.mono h (λ _ _ k. Spares-trans s k) (λ _ _ k. Spares-trans s k)

  -- The block lies before the start of the data region, or from there on.
  abbrev pub OnSide : Bool → ℕ → Type 0
  OnSide true b = b < sb.data_region_start
  OnSide false b = sb.data_region_start ≤ b

  side_of : (m : Bool) (b : ℕ) → OnSide m b → is_metadata_block sb b ≡ m
  unfolding is_metadata_block
  side_of true b h = ground arith
  side_of false b h = ground arith

  -- The blocks from the `i`-th on, `n` of them, are on one side.
  abbrev pub OneSide : Bool → ℕ → ℕ → ℕ → Type 0
  OneSide m start i n = (j : ℕ) → i ≤ j → j < i + n → OnSide m (add32 start j)

  read_loop-Spares :
      (m : Bool) (n i start : ℕ) (c : SplitCache W)
      → OneSide m start i n
      → After (Spares m c) (split_read_loop os sb n i start c)
  unfolding split_read_loop select
  read_loop-Spares m zero i start c side = returns Spares-refl
  read_loop-Spares m (suc n) i start c side =
      then_do
        (on_side (is_metadata_block sb (add32 start i)) m
          (split_read_block os sb (add32 start i)
            (pool_num_of (is_metadata_block sb (add32 start i)))
            (half (one_side (is_metadata_block sb (add32 start i))) c))
          c (side_of m _ (side i (omega arith) (omega arith))))
        (λ one t s. test (not (one.fraction == 0)) _ _ t (returns s) (
          then_do
            (further s
              (read_loop-Spares m n (i + 1) start t (λ j a b. side j (omega arith) (omega arith))))
            (λ r u k. returns k)))

  write_loop-Spares :
      (m : Bool) (n i start : ℕ) (buf : List ℕ) (c : SplitCache W)
      → OneSide m start i n
      → After (Spares m c) (split_write_loop os sb n i start buf c)
  unfolding split_write_loop select
  write_loop-Spares m zero i start buf c side = returns Spares-refl
  write_loop-Spares m (suc n) i start buf c side =
      then_do
        (on_side (is_metadata_block sb (add32 start i)) m
          (split_write_block os sb (add32 start i) buf
            (pool_num_of (is_metadata_block sb (add32 start i)))
            (half (one_side (is_metadata_block sb (add32 start i))) c))
          c (side_of m _ (side i (omega arith) (omega arith))))
        (λ _ t s.
          then_do
            (further s (
              write_loop-Spares m n (i + 1) start _ t
                (λ j a b. side j (omega arith) (omega arith))))
            (λ r u k. returns k))

  split_read_blocks-Spares :
      (m : Bool) (n start : ℕ) (c : SplitCache W)
      → OneSide m start 0 n
      → Ends (λ _ d. Spares m c d) (λ _ d. Spares m c d) (split_read_blocks os sb n start c)
  unfolding split_read_blocks
  split_read_blocks-Spares m n start c side =
      Run.guard (sb.blk_size == 0) einval _ c (λ _. Spares-refl)
        (λ _.
          test (not c.ready) _ _ c
            (in_split-Spares m (read_continuous_blocks_raw os sb n start c.world) c)
            (read_loop-Spares m n 0 start c side))

  split_write_blocks-Spares :
      (m : Bool) (buf : List ℕ) (n start : ℕ) (c : SplitCache W)
      → OneSide m start 0 n
      → Ends (λ _ d. Spares m c d) (λ _ d. Spares m c d) (split_write_blocks os sb buf n start c)
  unfolding split_write_blocks
  split_write_blocks-Spares m buf n start c side =
      Run.guard (sb.blk_size == 0) einval _ c (λ _. Spares-refl)
        (λ _.
          test (not c.ready) _ _ c
            (in_split-Spares m (write_continuous_blocks_raw os sb buf n start c.world) c)
            (write_loop-Spares m n 0 start buf c side))

  -- A read and a write of blocks that lie all before the start of the data region, or all from there on, leave
  -- the pool of the other side and its tick counter as they were, whatever they return.
  pub transfers-Spares :
      (m : Bool) (buf : List ℕ) (n start : ℕ) (c : SplitCache W)
      → OneSide m start 0 n
      → Ends (λ _ d. Spares m c d) (λ _ d. Spares m c d) (split_read_blocks os sb n start c)
        × Ends (λ _ d. Spares m c d) (λ _ d. Spares m c d) (split_write_blocks os sb buf n start c)
  transfers-Spares m buf n start c side =
      (split_read_blocks-Spares m n start c side, split_write_blocks-Spares m buf n start c side)
