-- ===== src/SplitBuffer/Parted.antt =====
-- The two pools are apart: whatever calls are made, metadata blocks are cached in one of them and the
-- other blocks in the other, so that no block has two cached copies.
use mofs.Base.{
  ℕ, zero, suc, ◌+◌, ◌≡◌, refl, sym, ◌∙◌, ap, subst, Bool, true, false, not, ◌||◌, List, ◌==◌, ltb,
  length, add32,
}
use mofs.Base.Run.{
  Run, ok, err, Cmd, Ends, returns, fails, pure, ◌>>=◌, ◌>>◌, fail_if, modify, or_rollback,
  and_then, cleanup_of,
}
use mofs.Base.Run
use mofs.Errno.{einval}
use mofs.Core.{Superblock}
use mofs.Platform.{Platform}
use mofs.SplitPool.{Half, pool_free}
use mofs.SplitPool.Owned.{
  After, test, then_do, Owned, free-Owned, pool_flush_all-Owned, split_read_block-Owned,
  split_write_block-Owned, split_patch-Owned, pool_drop-Owned, pool_alloc-Owned,
}
use mofs.SplitBuffer.{
  SplitCache, is_metadata_block, select, one_side, half, routed, in_split, split_read_loop,
  split_read_blocks, split_write_loop, split_write_blocks, split_modify_block, split_flush,
  split_invalidate, split_init_mutex, split_init_pools, split_init, split_fini,
}

module _ (os : Platform) (sb : Superblock) where
  open os use {W, dev_fsync, mutex_init}

  -- The blocks of one side.
  abbrev Side : Bool → ℕ → Type 0
  Side m b = is_metadata_block sb b ≡ m

  -- Each pool holds blocks of its own side only.
  pub record Parted (c : SplitCache W) : Type 0 where
    pub meta : Owned (Side true) (half (one_side true) c)
    pub rest : Owned (Side false) (half (one_side false) c)

  route-Parted :
      {A : Type 0} (m : Bool) (r : Run (Half W) A) {c : SplitCache W}
      → Parted c
      → After (Owned (Side m)) r
      → After Parted (routed (one_side m) c r)
  route-Parted true (ok a h) p (returns o) = returns (record { meta = o; rest = p.rest })
  route-Parted true (err e h) p (fails o) = fails (record { meta = o; rest = p.rest })
  route-Parted false (ok a h) p (returns o) = returns (record { meta = p.meta; rest = o })
  route-Parted false (err e h) p (fails o) = fails (record { meta = p.meta; rest = o })

  own : (m : Bool) {c : SplitCache W} → Parted c → Owned (Side m) (half (one_side m) c)
  own true p = p.meta
  own false p = p.rest

  -- A change to nothing but the rest of the state.
  elsewhere :
      {c d : SplitCache W}
      → d.meta_pool ≡ c.meta_pool
      → d.data_pool ≡ c.data_pool
      → Parted c
      → Parted d
  elsewhere q r p = record {
    meta = λ i v.
        subst (λ f. Side true (f i).blk_num) (sym q) (p.meta i (sym (ap (λ f. (f i).valid) q) ∙ v));
    rest = λ i v.
        subst (λ f. Side false (f i).blk_num) (sym r)
          (p.rest i (sym (ap (λ f. (f i).valid) r) ∙ v));
  }

  lift-Parted :
      {A : Type 0} (r : Run W A) {c : SplitCache W} → Parted c → After Parted (in_split c r)
  lift-Parted (ok a w) p = returns (elsewhere refl refl p)
  lift-Parted (err e w) p = fails (elsewhere refl refl p)

  read_loop-Parted :
      (n i start : ℕ) (c : SplitCache W)
      → Parted c
      → After Parted (split_read_loop os sb n i start c)
  unfolding split_read_loop select
  read_loop-Parted zero i start c p = returns p
  read_loop-Parted (suc n) i start c p =
      then_do
        (route-Parted (is_metadata_block sb (add32 start i)) _ p (
          split_read_block-Owned os sb (Side (is_metadata_block sb (add32 start i))) (add32 start i)
            _ _ refl (own _ p)))
        (λ one t q.
          test (not (one.fraction == 0)) _ _ t (returns q)
            (then_do (read_loop-Parted n (i + 1) start t q) (λ r u o. returns o)))

  pub read_blocks-Parted :
      (n start : ℕ) (c : SplitCache W) → Parted c → After Parted (split_read_blocks os sb n start c)
  unfolding split_read_blocks
  read_blocks-Parted n start c p =
      Run.guard (sb.blk_size == 0) einval _ c (λ _. p)
        (λ _. test (not c.ready) _ _ c (lift-Parted _ p) (read_loop-Parted n 0 start c p))

  write_loop-Parted :
      (n i start : ℕ) (buf : List ℕ) (c : SplitCache W)
      → Parted c
      → After Parted (split_write_loop os sb n i start buf c)
  unfolding split_write_loop select
  write_loop-Parted zero i start buf c p = returns p
  write_loop-Parted (suc n) i start buf c p =
      then_do
        (route-Parted (is_metadata_block sb (add32 start i)) _ p (
          split_write_block-Owned os sb (Side (is_metadata_block sb (add32 start i)))
            (add32 start i) buf _ _ refl (own _ p)))
        (λ _ t q. then_do (write_loop-Parted n (i + 1) start _ t q) (λ r u o. returns o))

  pub write_blocks-Parted :
      (buf : List ℕ) (n start : ℕ) (c : SplitCache W)
      → Parted c
      → After Parted (split_write_blocks os sb buf n start c)
  unfolding split_write_blocks
  write_blocks-Parted buf n start c p =
      Run.guard (sb.blk_size == 0) einval _ c (λ _. p)
        (λ _. test (not c.ready) _ _ c (lift-Parted _ p) (write_loop-Parted n 0 start buf c p))

  pub modify_block-Parted :
      (blk byte_off : ℕ) (patch : List ℕ) (c : SplitCache W)
      → Parted c
      → After Parted (split_modify_block os sb blk byte_off patch c)
  unfolding split_modify_block select
  modify_block-Parted blk byte_off patch c p =
      Run.guard (length patch == 0 || sb.blk_size == 0) einval _ c (λ _. p)
        (λ _.
          Run.guard (not c.ready) einval _ c (λ _. p)
            (λ _.
              Run.guard
                (ltb sb.blk_size byte_off
                  || (ltb sb.blk_size (length patch)
                      || ltb sb.blk_size (add32 byte_off (length patch))))
                einval _ c (λ _. p)
                (λ _. route-Parted (is_metadata_block sb blk) _ p (
                  split_patch-Owned os sb (Side (is_metadata_block sb blk)) blk byte_off patch _ _
                    refl (own _ p)))))

  pub flush-Parted : (c : SplitCache W) → Parted c → After Parted (split_flush os sb c)
  unfolding split_flush
  flush-Parted c p = test (not c.ready) _ _ c (returns p) (
      then_do (route-Parted true _ p (pool_flush_all-Owned os sb (Side true) _ 0 _ p.meta))
        (λ _ t q.
          then_do (route-Parted false _ q (pool_flush_all-Owned os sb (Side false) _ 0 _ q.rest))
            (λ _ u o. lift-Parted _ o)))

  pub invalidate-Parted :
      (blk : ℕ) (c : SplitCache W) → Parted c → After Parted (split_invalidate os sb blk c)
  unfolding split_invalidate
  invalidate-Parted blk c p =
      test (not c.ready) _ _ c (returns p)
        (route-Parted false _ p (pool_drop-Owned os sb (Side false) blk _ _ p.rest))

  undone-Parted :
      {A : Type 0} {r : Run (SplitCache W) A} {undo : Cmd (SplitCache W) (Unit {0})}
      → After Parted r
      → ((c : SplitCache W) → Parted c → After Parted (undo c))
      → After Parted (cleanup_of r undo)
  undone-Parted {undo} h k = Run.rolled_back undo h k (λ c p. p)

  init_pools-Parted : (c : SplitCache W) → Parted c → After Parted (split_init_pools os sb c)
  unfolding split_init_pools
  init_pools-Parted c p =
      then_do (route-Parted true _ p (pool_alloc-Owned os sb (Side true) _ _)) (λ _ t q.
        then_do
          (undone-Parted (route-Parted false _ q (pool_alloc-Owned os sb (Side false) _ _))
            (λ d o. route-Parted true _ o (returns (free-Owned (Side true) _))))
          (λ _ u o. returns (elsewhere refl refl o)))

  pub init-Parted : (c : SplitCache W) → Parted c → After Parted (split_init os sb c)
  unfolding split_init split_init_mutex
  init-Parted c p =
      Run.guard (sb.blk_size == 0) einval _ c (λ _. p)
        (λ _.
          then_do
            (test c.mutex _ _ c (returns p) (
              then_do (lift-Parted (mutex_init c.world) p)
                (λ _ t q. returns (elsewhere refl refl q))))
            (λ _ t q. test t.ready _ _ t (returns q) (init_pools-Parted t q)))

  pub fini-Parted : (c : SplitCache W) → Parted c → After Parted (split_fini os sb c)
  unfolding split_fini pool_free
  fini-Parted c p = test (not c.mutex) _ _ c (returns p) (
      returns (record {
        meta = free-Owned (Side true) (half (one_side true) c);
        rest = free-Owned (Side false) (half (one_side false) c);
      }))
