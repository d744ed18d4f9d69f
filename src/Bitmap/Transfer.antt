-- ===== src/Bitmap/Transfer.antt =====
-- The checked reads and writes of one block, over any store.
use mofs.Base.{ℕ, ◌<◌, ◌≡◌, ◌||◌, not, List, ◌==◌, length, u32_mod}
use mofs.Base.Run.{Ends, returns, fails, ◌>>=◌, ◌>>◌, pure, fail_if}
use mofs.Base.Run
use mofs.Errno.{eio}
use mofs.Core.{Superblock}
use mofs.Store
use mofs.Store.{Store}
use mofs.RawIo.{Read, Written}
use mofs.Bitmap.{read_block, write_block}

module _ (sb : Superblock) (store : Store sb) where
  open store use {S, IsSound, content, read_lem, write_lem}

  abbrev pub Unseen : S → S → Type 0
  Unseen = Store.Unseen IsSound content

  abbrev pub Puts : S → ℕ → List ℕ → S → Type 0
  Puts = Store.Puts IsSound content

  pub read_block-Ends :
      {s : S} (b : ℕ)
      → b < u32_mod
      → IsSound s
      → Ends
          (λ buf t. Unseen s t × (buf ≡ content s b))
          (λ _ t. Unseen s t)
          (read_block sb store b s)
  unfolding read_block
  read_block-Ends {s} b lt sound =
      Run.next (read_lem b s lt sound) (λ r t h. checked r t h.0 h.1) (λ _ t h. h)
    where
      checked :
          (r : Read) (t : S)
          → Unseen s t
          → Store.GotView IsSound content s b r
          → Ends
              (λ buf t. Unseen s t × (buf ≡ content s b))
              (λ _ t. Unseen s t)
              ((fail_if (not (r.read_blk_num == 1) || not (r.fraction == 0)) eio >> pure r.buf) t)
      checked r t u (Store.GotView.whole n f e) = rw (n, f) (returns (u, e))
      checked r t u (Store.GotView.short n f) = rw n (fails u)

  pub write_block-Ends :
      {s : S} (buf : List ℕ) (b : ℕ)
      → b < u32_mod
      → length buf ≡ sb.blk_size
      → IsSound s
      → Ends (λ _ t. Puts s b buf t) (λ _ t. Unseen s t) (write_block sb store buf b s)
  unfolding write_block
  write_block-Ends {s} buf b lt len sound =
      Run.next (write_lem buf b s lt len sound) (λ w t h. checked w t h.0 h.1 h.2) (λ _ t h. h)
    where
      checked :
          (w : Written) (t : S)
          → w.written_blk_num ≡ 1
          → w.fraction ≡ 0
          → Puts s b buf t
          → Ends
              (λ _ t. Puts s b buf t)
              (λ _ t. Unseen s t)
              (fail_if (not (w.written_blk_num == 1) || not (w.fraction == 0)) eio t)
      checked w t n f p = rw (n, f) (returns p)
