-- ===== src/SplitPool/Owned.antt =====
-- What the steps on one pool keep: the blocks that it holds are all metadata, or none of them is.
use mofs.Base.{
  never, ℕ, zero, suc, ◌+◌, ◌≡◌, Bool, true, false, not, ◌&&◌, ◌||◌, Option, none, some, List, ◌==◌,
  update, update_cases, if◌then◌else◌, ltb, [],
}
use mofs.Base.Run.{
  Run, ok, err, Cmd, Ends, returns, fails, pure, ◌>>=◌, ◌>>◌, fail_if, modify, or_rollback,
  and_then, cleanup_of,
}
use mofs.Base.Run
use mofs.Errno.{eio}
use mofs.Core.{Superblock}
use mofs.Platform.{Platform}
use mofs.RawIo.{read_continuous_blocks_raw, write_continuous_blocks_raw}
use mofs.Buffer.{Entry}
use mofs.SplitPool.{
  Half, in_half, pool_touch, pool_find, pool_victim, pool_flush_entry, pool_evict, pool_get_victim,
  pool_read_into, pool_load_block, pool_flush_all, pool_alloc_loop, pool_alloc, pool_free,
  split_load_tail, split_read_block, split_store, split_write_block, split_slot, split_patch,
  pool_drop,
}

-- The state after a call, whether it returns 0 or an error.
abbrev pub After : {S A : Type 0} → (S → Type 0) → Run S A → Type 0
After Q r = Ends (λ _ s. Q s) (λ _ s. Q s) r

module _ {S A : Type 0} {Q : S → Type 0} where
  pub test :
      (b : Bool) (m n : Cmd S A) (s : S)
      → After Q (m s)
      → After Q (n s)
      → After Q ((if b then m else n) s)
  test b m n s h k = Run.branch b m n s (λ _. h) (λ _. k)

  pub found :
      (r : Option ℕ) (k : ℕ → Cmd S A) (m : Cmd S A) (s : S)
      → ((i : ℕ) → After Q (k i s))
      → After Q (m s)
      → After Q ((elim r as (λ _. Cmd S A) [ some i ↦ k i | none ↦ m ]) s)
  found (some i) k m s h g = h i
  found none k m s h g = g

  pub then_do :
      {B : Type 0} {r : Run S A} {k : A → Cmd S B}
      → After Q r
      → ((a : A) (s : S) → Q s → After Q (k a s))
      → After Q (and_then r k)
  then_do h k = Run.bind h k

module _ {W : Type 0} (Of : ℕ → Type 0) where
  -- every block that the pool holds is one of these
  abbrev pub Owned : Half W → Type 0
  Owned h = (i : ℕ) → (h.pool i).valid ≡ true → Of (h.pool i).blk_num

  pub put-Owned :
      (h : Half W) (idx : ℕ) (e : Entry)
      → Owned h
      → (e.valid ≡ true → Of e.blk_num)
      → Owned (record h { pool = update h.pool idx e })
  put-Owned h idx e o new i =
      update_cases h.pool idx e (λ x. x.valid ≡ true → Of x.blk_num) i (λ _. new) (λ _. o i)

  pub touch-Owned : (h : Half W) (idx : ℕ) → Owned h → Owned (pool_touch idx h)
  unfolding pool_touch
  touch-Owned h idx o i =
      update_cases h.pool idx _ (λ e. e.valid ≡ true → Of e.blk_num) i (λ _. o idx) (λ _. o i)

  pub free-Owned : (h : Half W) → Owned (pool_free h)
  unfolding pool_free
  free-Owned h i v = absurd (never v)

  -- A call of the platform, and what follows it.
  lift_do :
      {A B : Type 0} (r : Run W A) (h : Half W) (k : A → Cmd (Half W) B)
      → Owned h
      → ((a : A) (t : Half W) → Owned t → After Owned (k a t))
      → After Owned (and_then (in_half h r) k)
  lift_do (ok a w) h k o next = next a _ o
  lift_do (err e w) h k o next = fails o

module _ (os : Platform) (sb : Superblock) (Of : ℕ → Type 0) where
  open os use {W, malloc}

  pool_flush_entry-Owned :
      (idx : ℕ) (h : Half W) → Owned Of h → After (Owned Of) (pool_flush_entry os sb idx h)
  unfolding pool_flush_entry
  pool_flush_entry-Owned idx h o =
      lift_do Of
        (write_continuous_blocks_raw os sb (h.pool idx).block 1 (h.pool idx).blk_num h.world) h _ o
        (λ r t p.
          Run.guard (not (r.written_blk_num == 1) || not (r.fraction == 0)) eio _ t (λ _. p)
            (λ _. returns (put-Owned Of t idx _ p (p idx))))

  pool_evict-Owned : (idx : ℕ) (h : Half W) → Owned Of h → After (Owned Of) (pool_evict os sb idx h)
  unfolding pool_evict
  pool_evict-Owned idx h o =
      then_do
        (test ((h.pool idx).valid && (h.pool idx).dirty) (pool_flush_entry os sb idx) (pure tt) h
          (pool_flush_entry-Owned idx h o) (returns o))
        (λ _ t p. returns (put-Owned Of t idx _ p (λ q. absurd (never q))))

  pub pool_get_victim-Owned :
      (n : ℕ) (h : Half W) → Owned Of h → After (Owned Of) (pool_get_victim os sb n h)
  unfolding pool_get_victim
  pool_get_victim-Owned n h o =
      found (pool_victim n h.pool) _ _ h (λ idx. pool_evict-Owned idx h o) (fails o)

  pool_read_into-Owned :
      (idx blk : ℕ) (h : Half W) → Owned Of h → After (Owned Of) (pool_read_into os sb idx blk h)
  unfolding pool_read_into
  pool_read_into-Owned idx blk h o =
      lift_do Of (read_continuous_blocks_raw os sb 1 blk h.world) h _ o
        (λ r t p. returns (put-Owned Of t idx _ p (p idx)))

  pool_load_block-Owned :
      (n blk : ℕ) (h : Half W)
      → Of blk
      → Owned Of h
      → After (Owned Of) (pool_load_block os sb n blk h)
  unfolding pool_load_block
  pool_load_block-Owned n blk h mine o = then_do (pool_get_victim-Owned n h o) (λ idx t p.
      then_do (pool_read_into-Owned idx blk t p) (λ r u q.
        Run.guard (not (r.read_blk_num == 1) || not (r.fraction == 0)) eio _ u (λ _. q)
          (λ _. returns (put-Owned Of u idx _ q (λ _. mine)))))

  pub pool_flush_all-Owned :
      (n i : ℕ) (h : Half W) → Owned Of h → After (Owned Of) (pool_flush_all os sb n i h)
  unfolding pool_flush_all
  pool_flush_all-Owned zero i h o = returns o
  pool_flush_all-Owned (suc n) i h o =
      then_do
        (test ((h.pool i).valid && (h.pool i).dirty) (pool_flush_entry os sb i) (pure tt) h
          (pool_flush_entry-Owned i h o) (returns o))
        (λ _ t p. pool_flush_all-Owned n (i + 1) t p)

  pub split_read_block-Owned :
      (blk n : ℕ) (h : Half W)
      → Of blk
      → Owned Of h
      → After (Owned Of) (split_read_block os sb blk n h)
  unfolding split_read_block split_load_tail
  split_read_block-Owned blk n h mine o =
      found (pool_find n blk h.pool) _ _ h (λ idx. returns (touch-Owned Of h idx o))
        (then_do (pool_get_victim-Owned n h o) (λ idx t p.
          then_do (pool_read_into-Owned idx blk t p) (λ r u q.
            test (not (r.fraction == 0)) _ _ u (returns q) (
              Run.guard (not (r.read_blk_num == 1)) eio _ u (λ _. q)
                (λ _. returns (touch-Owned Of _ idx (put-Owned Of u idx _ q (λ _. mine))))))))

  split_store-Owned :
      (idx : ℕ) (own : Entry → Entry) (buf : List ℕ) (h : Half W)
      → Owned Of h
      → ((own (h.pool idx)).valid ≡ true → Of (own (h.pool idx)).blk_num)
      → After (Owned Of) (split_store os sb idx own buf h)
  unfolding split_store
  split_store-Owned idx own buf h o new =
      returns (touch-Owned Of _ idx (put-Owned Of h idx _ o new))

  pub split_write_block-Owned :
      (blk : ℕ) (buf : List ℕ) (n : ℕ) (h : Half W)
      → Of blk
      → Owned Of h
      → After (Owned Of) (split_write_block os sb blk buf n h)
  unfolding split_write_block
  split_write_block-Owned blk buf n h mine o =
      found (pool_find n blk h.pool) _ _ h (λ idx. split_store-Owned idx _ buf h o (o idx))
        (then_do (pool_get_victim-Owned n h o)
          (λ idx t p. split_store-Owned idx _ buf t p (λ _. mine)))

  pub split_patch-Owned :
      (blk byte_off : ℕ) (patch : List ℕ) (n : ℕ) (h : Half W)
      → Of blk
      → Owned Of h
      → After (Owned Of) (split_patch os sb blk byte_off patch n h)
  unfolding split_patch split_slot
  split_patch-Owned blk byte_off patch n h mine o =
      then_do
        (found (pool_find n blk h.pool) _ _ h (λ idx. returns o)
          (pool_load_block-Owned n blk h mine o))
        (λ idx t p. returns (touch-Owned Of _ idx (put-Owned Of t idx _ p (p idx))))

  pub pool_drop-Owned :
      (blk n : ℕ) (h : Half W) → Owned Of h → After (Owned Of) (pool_drop os sb blk n h)
  unfolding pool_drop
  pool_drop-Owned blk n h o =
      found (pool_find n blk h.pool) _ _ h
        (λ idx. returns (put-Owned Of h idx _ o (λ q. absurd (never q)))) (returns o)

  kept_after :
      {A B : Type 0} (r : Run W A) (h : Half W) (undo : Half W → Half W) (k : A → Cmd (Half W) B)
      → Owned Of h
      → ((w : W) → Owned Of (undo (record h { world = w })))
      → ((a : A) (t : Half W) → Owned Of t → After (Owned Of) (k a t))
      → After (Owned Of) (and_then (cleanup_of (in_half h r) (modify undo)) k)
  kept_after (ok a w) h undo k o u next = next a _ o
  kept_after (err e w) h undo k o u next = fails (u w)

  cleared :
      (b : Bool) (e : Entry)
      → (e.valid ≡ true → Of e.blk_num)
      → (if b then record e { block = [] } else e).valid ≡ true
      → Of (if b then record e { block = [] } else e).blk_num
  cleared true e h = h
  cleared false e h = h

  pool_alloc_loop-Owned :
      (n i : ℕ) (h : Half W) → Owned Of h → After (Owned Of) (pool_alloc_loop os sb n i h)
  unfolding pool_alloc_loop
  pool_alloc_loop-Owned zero i h o = returns o
  pool_alloc_loop-Owned (suc n) i h o =
      kept_after (malloc sb.blk_size h.world) h _ _ o (λ w j. cleared (ltb j i) (h.pool j) (o j))
        (λ mem t p.
          pool_alloc_loop-Owned n (i + 1) _ (put-Owned Of t i _ p (λ q. absurd (never q))))

  pub pool_alloc-Owned : (n : ℕ) (h : Half W) → After (Owned Of) (pool_alloc os sb n h)
  unfolding pool_alloc
  pool_alloc-Owned n h = pool_alloc_loop-Owned n 0 _ (λ i q. absurd (never q))
