-- ===== src/RawIo/Laws.antt =====
-- What a transfer of one block does to the device, errors and short transfers included.
use mathlib.Core.List.{append-nil, ◌++◌, []}
use mathlib.Core.Path.{subst₂}
use native.Mathlib.Decide.{dec_lt}
use mofs.Base.{
  ℕ, ◌+◌, ◌*◌, ◌%◌, ◌≤◌, ◌<◌, ◌≡◌, ◌≢◌, ◌⊎◌, inl, inr, refl, ◌∙◌, subst, List, arith, ◌==◌,
  Bool-cases, ==→eq, length, take, slice, slice_ext, take-length, length-slice, ap,
}
use mofs.Base.Run.{Ends, returns, fails}
use mofs.Base.Run
use mofs.Core.{Superblock}
use mofs.Platform.{Platform, SameBytes, SameOutside}
use mofs.RawIo.{
  Read, Written, dev_block, seek_block, read_continuous_blocks_raw, write_continuous_blocks_raw,
}

mul_mono : (x y n : ℕ) → x ≤ y → x * n ≤ y * n
mul_mono x y n h = grind arith

-- The ranges of two blocks do not meet.
blocks_apart : (b c n a : ℕ) → b ≢ c → c * n ≤ a → a < c * n + n → (a < b * n) ⊎ (b * n + n ≤ a)
blocks_apart b c n a ne h k = elim (dec_lt b c) [
  | yes p ↦ inr (omega (arith, mul_mono (b + 1) c n (omega arith)))
  | no q ↦ inl (omega (arith, mul_mono (c + 1) b n (omega arith)))
]

pub take-block :
    (sb : Superblock) (buf : List ℕ) → length buf ≡ sb.blk_size → take sb.blk_size buf ≡ buf
take-block sb buf len = rw (← len) (take-length buf)

module _ (os : Platform) (sb : Superblock) where
  open os use {W, bytes, pos}

  abbrev pub Same : W → W → Type 0
  Same = SameBytes bytes

  pub Same-trans : {w v u : W} → Same w v → Same v u → Same w u
  Same-trans f g a = g a ∙ f a

  -- Equal bytes give equal blocks.
  pub dev_block-Same : {w v : W} (b : ℕ) → Same w v → dev_block os sb v b ≡ dev_block os sb w b
  dev_block-Same {w} {v} b same =
      slice_ext (bytes v) (bytes w) (b * sb.blk_size) sb.blk_size (λ a p q. same a)

  seek_block-Ends :
      (b : ℕ) (w : W)
      → Ends (λ _ v. (pos v ≡ b * sb.blk_size) × Same w v) (λ _ v. Same w v) (seek_block os sb b w)
  unfolding seek_block
  seek_block-Ends b w = elim (Bool-cases (sb.blk_size == 0)) [
    | inl z ↦ rw z (fails (λ a. refl))
    | inr nz ↦ rw nz (
        Run.next (os.lseek_lem (b * sb.blk_size) w)
          (λ n v h. elim (Bool-cases (n % sb.blk_size == 0)) [
            | inl t ↦ rw t (returns (h.1, h.2))
            | inr f ↦ rw f (fails h.2)
          ])
          (λ e v h. h))
  ]

  -- A read of one block leaves the device alone, and either gets the block or counts none.
  pub data GotBlock (w : W) (b : ℕ) (r : Read) : Type 0 where
    whole : r.read_blk_num ≡ 1 → r.fraction ≡ 0 → r.buf ≡ dev_block os sb w b → GotBlock w b r
    short : r.read_blk_num ≡ 0 → length r.buf ≤ sb.blk_size → GotBlock w b r

  abbrev pub ReadOne : W → ℕ → Read → W → Type 0
  ReadOne w b r v = Same w v × GotBlock w b r

  pub length-dev_block : (w : W) (b : ℕ) → length (dev_block os sb w b) ≡ sb.blk_size
  length-dev_block w b = length-slice (bytes w) (b * sb.blk_size) sb.blk_size

  pub GotBlock-room : {w : W} {b : ℕ} {r : Read} → GotBlock w b r → length r.buf ≤ sb.blk_size
  GotBlock-room {w} {b} (whole _ _ e) = omega (arith, ap length e, length-dev_block w b)
  GotBlock-room (short _ le) = le

  full_block :
      (b : ℕ) {w v : W} (got : List ℕ)
      → pos v ≡ b * sb.blk_size
      → Same w v
      → got ≡ slice (bytes v) (pos v) (length got)
      → length got ≡ sb.blk_size
      → got ++ [] ≡ dev_block os sb w b
  full_block b {w} {v} got at same e n = append-nil got ∙ e ∙ at_block ∙ dev_block-Same b same
    where
      at_block : slice (bytes v) (pos v) (length got) ≡ dev_block os sb v b
      at_block = rw (n, at)

  pub ReadOne-Ends :
      (b : ℕ) (w : W)
      → Ends (ReadOne w b) (λ _ v. Same w v) (read_continuous_blocks_raw os sb 1 b w)
  unfolding read_continuous_blocks_raw
  ReadOne-Ends b w =
      Run.next (seek_block-Ends b w)
        (λ _ v at. elim (Bool-cases (sb.blk_size == 0)) [
          | inl z ↦ rw z (fails at.1)
          | inr nz ↦ rw nz (
              Run.next (os.read_lem sb.blk_size v)
                (λ got u r. elim (Bool-cases (length got == sb.blk_size)) [
                  | inl t ↦ rw t (
                      returns (
                        Same-trans at.1 r.3,
                        whole refl refl (full_block b got at.0 at.1 r.1 (==→eq _ _ t)),
                      ))
                  | inr f ↦ rw f (returns (Same-trans at.1 r.3, short refl r.0))
                ])
                (λ e u h. Same-trans at.1 h))
        ])
        (λ e v h. h)

  -- At most block `b` of the device differs.
  abbrev pub SameBut : ℕ → W → W → Type 0
  SameBut b w v = (c : ℕ) → b ≢ c → dev_block os sb v c ≡ dev_block os sb w c

  SameBut-of_outside :
      (b n : ℕ) {w v u : W}
      → n ≤ sb.blk_size
      → Same w v
      → SameOutside bytes (b * sb.blk_size) n v u
      → SameBut b w u
  SameBut-of_outside b n {w} {v} {u} le same out c ne =
      slice_ext (bytes u) (bytes v) (c * sb.blk_size) sb.blk_size
        (λ a p q. out a (shrink a (blocks_apart b c sb.blk_size a ne p q)))
      ∙ dev_block-Same c same
    where
      shrink :
          (a : ℕ)
          → (a < b * sb.blk_size) ⊎ (b * sb.blk_size + sb.blk_size ≤ a)
          → (a < b * sb.blk_size) ⊎ (b * sb.blk_size + n ≤ a)
      shrink a (inl h) = inl h
      shrink a (inr h) = inr (omega arith)

  write_at :
      (buf : List ℕ) (b : ℕ) (v : W)
      → length buf ≡ sb.blk_size
      → pos v ≡ b * sb.blk_size
      → Ends
          (λ n u.
            (n ≤ sb.blk_size)
            × (n ≡ sb.blk_size → dev_block os sb u b ≡ buf)
            × SameOutside bytes (b * sb.blk_size) n v u)
          (λ e u. SameOutside bytes (b * sb.blk_size) sb.blk_size v u)
          (os.dev_write (take sb.blk_size buf) v)
  write_at buf b v len at = rw (take-block sb buf len) (
      Run.mono (os.write_lem buf v)
        (λ n u h.
          (omega (arith, h.0), landed n u h.1, subst (λ o. SameOutside bytes o n v u) at h.3))
        (λ e u h. subst₂ (λ o n. SameOutside bytes o n v u) at len h))
    where
      landed :
          (n : ℕ) (u : W)
          → slice (bytes u) (pos v) n ≡ take n buf
          → n ≡ sb.blk_size
          → dev_block os sb u b ≡ buf
      landed n u h e =
          subst₂ (λ o k. slice (bytes u) o k ≡ take k buf) at e h ∙ take-block sb buf len

  -- A write of one block changes no other block; if it counts the block, the block is there.
  abbrev pub WroteOne : List ℕ → ℕ → W → Written → W → Type 0
  WroteOne buf b w r v =
      SameBut b w v
      × ((r.written_blk_num ≡ 1) × (r.fraction ≡ 0) × (dev_block os sb v b ≡ buf)
          ⊎ (r.written_blk_num ≡ 0))

  pub write_one-Ends :
      (buf : List ℕ) (b : ℕ) (w : W)
      → length buf ≡ sb.blk_size
      → Ends (WroteOne buf b w) (λ _ v. SameBut b w v) (write_continuous_blocks_raw os sb buf 1 b w)
  unfolding write_continuous_blocks_raw
  write_one-Ends buf b w len =
      Run.next (seek_block-Ends b w)
        (λ _ v at. elim (Bool-cases (sb.blk_size == 0)) [
          | inl z ↦ rw z (fails (λ c ne. dev_block-Same c at.1))
          | inr nz ↦ rw nz (
              Run.next (write_at buf b v len at.0)
                (λ n u h. elim (Bool-cases (n == sb.blk_size)) [
                  | inl t ↦ rw t (
                      returns
                        (SameBut-of_outside b n h.0 at.1 h.2, inl (refl, refl, h.1 (==→eq _ _ t))))
                  | inr f ↦ rw f (returns (SameBut-of_outside b n h.0 at.1 h.2, inr refl))
                ])
                (λ e u h. SameBut-of_outside b sb.blk_size (omega arith) at.1 h))
        ])
        (λ e v h c ne. dev_block-Same c h)
