-- ===== src/SplitBuffer/Calls.antt =====
-- Sequences of calls of the cache in two pools, in any order and with any outcome.
use mofs.Base.{never, ℕ, ◌≡◌, ◌≢◌, sym, ◌∙◌, ap, true, false, List}
use mofs.Base.Run.{Run, ok, err, returns, fails}
use mofs.Core.{Superblock}
use mofs.Platform.{Platform}
use mofs.SplitPool.Owned.{After}
use mofs.SplitBuffer.{
  SplitCache, is_metadata_block, split_read_blocks, split_write_blocks, split_modify_block,
  split_flush, split_invalidate, split_init, split_fini,
}
use mofs.SplitBuffer.Parted.{
  Parted, read_blocks-Parted, write_blocks-Parted, modify_block-Parted, flush-Parted,
  invalidate-Parted, init-Parted, fini-Parted,
}

-- the state that a call leaves
abbrev pub left : {S A : Type 0} → Run S A → S
left (ok a s) = s
left (err e s) = s

left-After : {S A : Type 0} {Q : S → Type 0} (r : Run S A) → After Q r → Q (left r)
left-After (ok a s) (returns q) = q
left-After (err e s) (fails q) = q

module _ (os : Platform) (sb : Superblock) where
  open os use {W}

  -- One call.
  pub data Call (c : SplitCache W) : SplitCache W → Type 0 where
    init : Call c (left (split_init os sb c))
    fini : Call c (left (split_fini os sb c))
    read : (n start : ℕ) → Call c (left (split_read_blocks os sb n start c))
    write : (buf : List ℕ) (n start : ℕ) → Call c (left (split_write_blocks os sb buf n start c))
    patched :
        (blk byte_off : ℕ) (patch : List ℕ)
        → Call c (left (split_modify_block os sb blk byte_off patch c))
    flushed : Call c (left (split_flush os sb c))
    invalidated : (blk : ℕ) → Call c (left (split_invalidate os sb blk c))

  -- Calls one after the other, the last one outermost.
  pub data Calls (c : SplitCache W) : SplitCache W → Type 0 where
    none_yet : Calls c c
    after : {d e : SplitCache W} → Calls c d → Call d e → Calls c e

  Call-Parted : {c d : SplitCache W} → Call c d → Parted os sb c → Parted os sb d
  Call-Parted {c} init p = left-After _ (init-Parted os sb c p)
  Call-Parted {c} fini p = left-After _ (fini-Parted os sb c p)
  Call-Parted {c} (read n start) p = left-After _ (read_blocks-Parted os sb n start c p)
  Call-Parted {c} (write buf n start) p = left-After _ (write_blocks-Parted os sb buf n start c p)
  Call-Parted {c} (patched blk off patch) p =
      left-After _ (modify_block-Parted os sb blk off patch c p)
  Call-Parted {c} flushed p = left-After _ (flush-Parted os sb c p)
  Call-Parted {c} (invalidated blk) p = left-After _ (invalidate-Parted os sb blk c p)

  Calls-Parted : {c d : SplitCache W} → Calls c d → Parted os sb c → Parted os sb d
  Calls-Parted none_yet p = p
  Calls-Parted (after cs one) p = Call-Parted one (Calls-Parted cs p)

  -- Both pools are empty, as the static variables are at first.
  pub record Idle (c : SplitCache W) : Type 0 where
    pub no_meta : (i : ℕ) → (c.meta_pool i).valid ≡ false
    pub no_data : (i : ℕ) → (c.data_pool i).valid ≡ false

  Idle-Parted : {c : SplitCache W} → Idle c → Parted os sb c
  Idle-Parted e = record {
    meta = λ i v. absurd (never (sym (e.no_meta i) ∙ v));
    rest = λ i v. absurd (never (sym (e.no_data i) ∙ v));
  }

  -- From empty pools, after any calls with any outcomes, a block that the metadata pool holds lies before the
  -- data region, one that the data pool holds does not, and so they are never the same block.
  pub Calls-Apart :
      {c d : SplitCache W} (i j : ℕ)
      → Idle c
      → Calls c d
      → (d.meta_pool i).valid ≡ true
      → (d.data_pool j).valid ≡ true
      → (is_metadata_block sb (d.meta_pool i).blk_num ≡ true)
        × (is_metadata_block sb (d.data_pool j).blk_num ≡ false)
        × ((d.meta_pool i).blk_num ≢ (d.data_pool j).blk_num)
  Calls-Apart {c} {d} i j e cs v w = (
    p.meta i v,
    p.rest j w,
    λ q. never (sym (p.rest j w) ∙ sym (ap (is_metadata_block sb) q) ∙ p.meta i v),
  )
    where
      p : Parted os sb d
      p = Calls-Parted cs (Idle-Parted e)
