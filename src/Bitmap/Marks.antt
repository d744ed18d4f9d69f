-- ===== src/Bitmap/Marks.antt =====
-- Setting and clearing one entry of a bitmap.
use native.Mathlib.Decide.{ℕ_discrete}
use native.Mathlib.Nat.{div-add-mod, mod-lt}
use mofs.Base.{
  ℕ, ◌+◌, ◌*◌, ◌/◌, ◌%◌, ◌≤◌, ◌<◌, ◌≡◌, ◌≢◌, sym, ◌∙◌, ap, subst, Bool, List, arith, length,
  u32_mod, add32, length-set,
}
use mofs.Base.Run.{Ends, returns, fails}
use mofs.Base.Run
use mofs.Core.{Superblock}
use mofs.Store.{Store, Unseen-trans, Unseen-Puts}
use mofs.Bitmap.{bits_per_bitmap, toggle, set_bitmap_bit}
use mofs.Bitmap.Bits.{mark, block_bit, toggle_here, toggle_other}
use mofs.Bitmap.Transfer.{Unseen, Puts, read_block-Ends, write_block-Ends}

-- The block size is one that a volume can have, as far as the arithmetic needs it.
abbrev pub IsSized : Superblock → Type 0
IsSized sb = (0 < sb.blk_size) × (sb.blk_size ≤ 65536)

module _ (sb : Superblock) (store : Store sb) where
  open store use {S, IsSound, content, content_length, malloc_lem}

  -- the block of the bitmap at `start` that has the bit with index `idx`
  abbrev pub bitmap_block : ℕ → ℕ → ℕ
  bitmap_block start idx = start + idx / bits_per_bitmap sb store

  -- the bit with index `idx` of the bitmap at `start`, as 0 or 1
  abbrev pub entry_bit : S → ℕ → ℕ → ℕ
  entry_bit s start idx =
      block_bit (content s (bitmap_block start idx)) (idx % bits_per_bitmap sb store)

  -- Entry `idx` is marked, the other entries and the blocks outside the bitmap's block are as before.
  pub record Marked (s : S) (start idx : ℕ) (used : Bool) (t : S) : Type 0 where
    pub sound : IsSound t
    pub here : entry_bit t start idx ≡ mark used
    pub rest : (j : ℕ) → idx ≢ j → entry_bit t start j ≡ entry_bit s start j
    pub others : (b : ℕ) → bitmap_block start idx ≢ b → content t b ≡ content s b

  pub bits_fact : IsSized sb → bits_per_bitmap sb store ≡ sb.blk_size * 8
  bits_fact sized = omega (arith, sized.0, sized.1)

  in_block : (i : ℕ) → IsSized sb → i % bits_per_bitmap sb store / 8 < sb.blk_size
  in_block i sized = rw (bits_fact sized) (omega (arith, mod-lt i (positive sized.0)))
    where
      positive : 0 < sb.blk_size → 0 < sb.blk_size * 8
      positive p = omega arith

  -- An index is known by its block and its place in it.
  same_place : (m i j : ℕ) → i / m ≡ j / m → i % m ≡ j % m → i ≡ j
  same_place m i j d r =
      sym (div-add-mod i m)
      ∙ ap (λ x. m * x + i % m) d
      ∙ ap (λ x. m * (j / m) + x) r
      ∙ div-add-mod j m

  Marked-of_Puts :
      {s t : S} (start idx : ℕ) (used : Bool)
      → IsSized sb
      → IsSound s
      → Puts sb store s
          (bitmap_block start idx)
          (toggle
            (content s (bitmap_block start idx))
            (idx % bits_per_bitmap sb store / 8)
            (idx % bits_per_bitmap sb store % 8)
            used)
          t
      → Marked s start idx used t
  Marked-of_Puts {s} {t} start idx used sized sound p = record {
    sound = p.sound;
    here = ap (λ x. block_bit x place) p.here ∙ toggle_here block place used room;
    rest = λ j ne. elim (ℕ_discrete (bitmap_block start idx) (bitmap_block start j)) [
      | no apart ↦ ap (λ x. block_bit x (j % bits_per_bitmap sb store)) (p.others _ apart)
      | yes e ↦
          ap (λ x. block_bit (content t x) (j % bits_per_bitmap sb store)) (sym e)
          ∙ ap (λ x. block_bit x (j % bits_per_bitmap sb store)) p.here
          ∙ toggle_other block place (j % bits_per_bitmap sb store) used room
              (λ r. ne (same_place (bits_per_bitmap sb store) idx j (same_div j e) r))
          ∙ ap (λ x. block_bit (content s x) (j % bits_per_bitmap sb store)) e
    ];
    others = p.others;
  }
    where
      block : List ℕ
      block = content s (bitmap_block start idx)

      place : ℕ
      place = idx % bits_per_bitmap sb store

      same_div :
          (j : ℕ)
          → bitmap_block start idx ≡ bitmap_block start j
          → idx / bits_per_bitmap sb store ≡ j / bits_per_bitmap sb store
      same_div j e = omega arith

      room : place / 8 < length block
      room = subst (λ n. place / 8 < n) (sym (content_length s _ sound)) (in_block idx sized)

  -- Marking an entry, or an error with every block as before.
  pub set_bitmap_bit-Ends :
      {s : S} (start idx : ℕ) (used : Bool)
      → IsSized sb
      → bitmap_block start idx < u32_mod
      → IsSound s
      → Ends
          (λ _ t. Marked s start idx used t)
          (λ _ t. Unseen sb store s t)
          (set_bitmap_bit sb store start idx used s)
  unfolding set_bitmap_bit
  set_bitmap_bit-Ends {s} start idx used sized lt sound = rw (wrapped _ _ lt) (
      Run.next (malloc_lem sb.blk_size s sound)
        (λ mem t h.
          Run.next (read_block-Ends sb store (bitmap_block start idx) lt h.1.sound)
            (λ buf u g.
              Run.mono
                (write_block-Ends sb store _ (bitmap_block start idx) lt
                  (length-set buf _ _ ∙ ap length g.1 ∙ content_length t _ h.1.sound) g.0.sound)
                (λ _ v p. Marked-of_Puts start idx used sized sound (
                  subst (λ x. Puts sb store s (bitmap_block start idx) (toggled x) v)
                    (g.1 ∙ h.1.same _) (Unseen-Puts _ _ (Unseen-trans _ _ h.1 g.0) p)))
                (λ _ v w. Unseen-trans _ _ (Unseen-trans _ _ h.1 g.0) w))
            (λ _ u g. Unseen-trans _ _ h.1 g))
        (λ _ t h. h))
    where
      wrapped : (a b : ℕ) → a + b < u32_mod → add32 a b ≡ a + b
      wrapped a b p = omega arith

      toggled : List ℕ → List ℕ
      toggled x =
          toggle x (idx % bits_per_bitmap sb store / 8) (idx % bits_per_bitmap sb store % 8) used
