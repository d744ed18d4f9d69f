-- ===== src/Store.antt =====
-- The blocks of the volume as mofs_block.c and mofs_inode.c use them: what those files ask of
-- read_continuous_blocks, write_continuous_blocks and the mofs_bcache_* calls, one block at a time.
-- `Buffer.Implements` shows that the write-back cache over the device is such a store.
use mofs.Base.{ℕ, ◌+◌, ◌≤◌, ◌<◌, ◌≡◌, ◌≢◌, ◌∙◌, refl, List, length, u32_mod, take, drop, ◌++◌}
use mofs.Base.Run.{Cmd, Ends}
use mofs.Core.{Superblock}
use mofs.RawIo.{Read, Written}

-- `memcpy(block + byte_off, patch, patch_len)`
abbrev pub splice : List ℕ → ℕ → List ℕ → List ℕ
splice block byte_off patch = take byte_off block ++ (patch ++ drop (byte_off + length patch) block)

module _ {S : Type 0} (IsSound : S → Type 0) (content : S → ℕ → List ℕ) where
  -- The state stays sound and every block reads the same.
  pub record Unseen (s t : S) : Type 0 where
    pub sound : IsSound t
    pub same : (b : ℕ) → content t b ≡ content s b

  -- Block `b` reads as `block` and every other block as before.
  pub record Puts (s : S) (b : ℕ) (block : List ℕ) (t : S) : Type 0 where
    pub sound : IsSound t
    pub here : content t b ≡ block
    pub others : (a : ℕ) → b ≢ a → content t a ≡ content s a

  -- The outcomes of a read of one block: the block, or a short read.
  pub data GotView (s : S) (b : ℕ) (r : Read) : Type 0 where
    whole : r.read_blk_num ≡ 1 → r.fraction ≡ 0 → r.buf ≡ content s b → GotView s b r
    short : r.read_blk_num ≡ 0 → r.fraction ≢ 0 → GotView s b r

  pub Unseen-refl : {s : S} → IsSound s → Unseen s s
  Unseen-refl sound = record { sound = sound; same = λ b. refl }

  pub Unseen-trans : {s t u : S} → Unseen s t → Unseen t u → Unseen s u
  Unseen-trans k l = record { sound = l.sound; same = λ b. l.same b ∙ k.same b }

  pub Unseen-Puts :
      {s t u : S} {b : ℕ} {block : List ℕ} → Unseen s t → Puts t b block u → Puts s b block u
  Unseen-Puts k p = record {
    sound = p.sound;
    here = p.here;
    others = λ a ne. p.others a ne ∙ k.same a;
  }

  pub Puts-Unseen :
      {s t u : S} {b : ℕ} {block : List ℕ} → Puts s b block t → Unseen t u → Puts s b block u
  Puts-Unseen {b} p k = record {
    sound = k.sound;
    here = k.same b ∙ p.here;
    others = λ a ne. k.same a ∙ p.others a ne;
  }

-- The calls on blocks, over a state `S`; with the volume mounted and the cache ready the state is
-- sound. An error may leave anything done but what the laws exclude.
pub record Store (sb : Superblock) : Type 1 where
  pub S : Type 0
  pub IsSound : S → Type 0
  pub content : S → ℕ → List ℕ
  -- `read_continuous_blocks(fd, buf, req, start, ...)`
  pub read_blocks : ℕ → ℕ → Cmd S Read
  -- `write_continuous_blocks(fd, buf, req, start, ...)`
  pub write_blocks : List ℕ → ℕ → ℕ → Cmd S Written
  pub modify_block : ℕ → ℕ → List ℕ → Cmd S (Unit {0})
  pub invalidate : ℕ → Cmd S (Unit {0})
  pub malloc : ℕ → Cmd S (List ℕ)
  pub mofs_now : Cmd S ℕ
  pub content_length : (s : S) (b : ℕ) → IsSound s → length (content s b) ≡ sb.blk_size
  pub read_lem :
      (b : ℕ) (s : S)
      → b < u32_mod
      → IsSound s
      → Ends
          (λ r t. Unseen IsSound content s t × GotView IsSound content s b r)
          (λ _ t. Unseen IsSound content s t)
          (read_blocks 1 b s)
  pub write_lem :
      (buf : List ℕ) (b : ℕ) (s : S)
      → b < u32_mod
      → length buf ≡ sb.blk_size
      → IsSound s
      → Ends
          (λ r t. (r.written_blk_num ≡ 1) × (r.fraction ≡ 0) × Puts IsSound content s b buf t)
          (λ _ t. Unseen IsSound content s t)
          (write_blocks buf 1 b s)
  pub modify_lem :
      (b off : ℕ) (patch : List ℕ) (s : S)
      → b < u32_mod
      → off + length patch ≤ sb.blk_size
      → IsSound s
      → Ends
          (λ _ t. Puts IsSound content s b (splice (content s b) off patch) t)
          (λ _ t. Unseen IsSound content s t)
          (modify_block b off patch s)
  pub invalidate_lem :
      (b : ℕ) (s : S)
      → IsSound s
      → Ends
          (λ _ t. Puts IsSound content s b (content t b) t)
          (λ _ t. Unseen IsSound content s t)
          (invalidate b s)
  pub malloc_lem :
      (n : ℕ) (s : S)
      → IsSound s
      → Ends
          (λ mem t. (length mem ≡ n) × Unseen IsSound content s t)
          (λ _ t. Unseen IsSound content s t)
          (malloc n s)
  pub now_lem :
      (s : S)
      → IsSound s
      → Ends (λ _ t. Unseen IsSound content s t) (λ _ t. Unseen IsSound content s t) (mofs_now s)
