-- ===== src/Inode/Entries.antt =====
-- Taking an inode number out of the inode bitmap.
use native.Mathlib.Nat.{div-lt_iff_lt-mul}
use mofs.Base.{
  ℕ, ◌+◌, ◌*◌, ◌/◌, ◌%◌, ◌≤◌, ◌<◌, ◌≡◌, sym, ◌∙◌, ap, subst, Bool, true, false, ◌&&◌, ◌||◌, not,
  List, [], ◌∷◌, arith, ltb, leb, ◌==◌, length, take, get_or, u32_mod,
}
use native.Mathlib.Decide.{ℕ_discrete}
use mofs.Base.Run.{Run, Ends, returns, fails, ◌>>=◌, pure, or_rollback}
use mofs.Base.Run
use mofs.Core.{Superblock}
use mofs.Store.{Store, Unseen-refl, Unseen-trans}
use mofs.Bitmap.{bits_per_bitmap}
use mofs.Bitmap.Bits.{block_bit}
use mofs.Bitmap.Transfer.{Unseen}
use mofs.Bitmap.Marks.{IsSized, entry_bit, bitmap_block, Marked, bits_fact, set_bitmap_bit-Ends}
use mofs.Bitmap.Scanning.{is_free, first_free}
use mofs.Bitmap.Search.{free_entries, find_free_indices-Ends}
use mofs.Inode.{
  set_inode_bitmap_bit, update_inode_bitmap_bits, find_free_inode_indices, inode_bitmap_blks,
  allocate_inode,
}

-- The inode bitmap lies within the 32-bit block numbers, and its bits within the 32-bit indices.
pub record BitmapFits (sb : Superblock) : Type 0 where
  pub sized : IsSized sb
  pub blocks : sb.inode_bitmap_start + inode_bitmap_blks sb ≤ u32_mod
  pub bits : inode_bitmap_blks sb * (sb.blk_size * 8) ≤ u32_mod

module _ (sb : Superblock) (store : Store sb) where
  open store use {S, IsSound, content}

  abbrev pub inode_bit : S → ℕ → ℕ
  inode_bit s j = entry_bit sb store s sb.inode_bitmap_start j

  -- the inode numbers that can be given away, in order
  abbrev pub free_inodes : S → List ℕ
  free_inodes s =
      free_entries sb store sb.inode_bitmap_start sb.inode_num 3 s (inode_bitmap_blks sb) 0

  -- Every entry of the inode bitmap is as before.
  abbrev pub SameBits : S → S → Type 0
  SameBits s t = IsSound t × ((j : ℕ) → inode_bit t j ≡ inode_bit s j)

  SameBits-of_Unseen : {s t : S} → Unseen sb store s t → SameBits s t
  SameBits-of_Unseen u =
      (u.sound, λ j. ap (λ x. block_bit x (j % bits_per_bitmap sb store)) (u.same _))

  set_inode_bitmap_bit-Ends :
      {s : S} (idx : ℕ) (used : Bool)
      → IsSized sb
      → bitmap_block sb store sb.inode_bitmap_start idx < u32_mod
      → IsSound s
      → Ends
          (λ _ t. Marked sb store s sb.inode_bitmap_start idx used t)
          (λ _ t. Unseen sb store s t)
          (set_inode_bitmap_bit sb store idx used s)
  unfolding set_inode_bitmap_bit
  set_inode_bitmap_bit-Ends {s} idx used sized lt sound =
      Run.guard (ltb idx 3 || leb sb.inode_num idx) _ _ s (λ _. Unseen-refl _ _ sound)
        (λ _. set_bitmap_bit-Ends sb store sb.inode_bitmap_start idx used sized lt sound)

  -- Clearing an entry that is clear changes no entry.
  unmark_clear :
      {s t : S} (idx : ℕ)
      → inode_bit s idx ≡ 0
      → Marked sb store s sb.inode_bitmap_start idx false t
      → SameBits s t
  unmark_clear idx z m = (
    m.sound,
    λ j. elim (ℕ_discrete idx j) [ yes e ↦ rw (← e) (m.here ∙ sym z) | no ne ↦ m.rest j ne ],
  )

  undo-SameBits :
      {s t : S} (idx : ℕ)
      → IsSized sb
      → bitmap_block sb store sb.inode_bitmap_start idx < u32_mod
      → inode_bit s idx ≡ 0
      → Unseen sb store s t
      → Ends
          (λ _ u. SameBits s u)
          (λ _ u. SameBits s u)
          (update_inode_bitmap_bits sb store (idx ∷ []) false t)
  unfolding update_inode_bitmap_bits
  undo-SameBits {s} {t} idx sized lt z k =
      Run.next
        (Run.ignored (set_inode_bitmap_bit-Ends idx false sized lt k.sound)
          (λ _ u m. joined u (unmark_clear idx (before.1 idx ∙ z) m))
          (λ _ u v. joined u (SameBits-of_Unseen v)))
        (λ _ u h. returns h) (λ _ u h. h)
    where
      before : SameBits s t
      before = SameBits-of_Unseen k

      joined : (u : S) → SameBits t u → SameBits s u
      joined u h = (h.0, λ j. h.1 j ∙ before.1 j)

  -- The number given out is the lowest free one, and becomes used; no other entry changes.
  pub record Allocated (s : S) (idx : ℕ) (t : S) : Type 0 where
    pub lowest : take 1 (free_inodes s) ≡ idx ∷ []
    pub not_reserved : 3 ≤ idx
    pub in_table : idx < sb.inode_num
    pub was_free : inode_bit s idx ≡ 0
    pub marked : Marked sb store s sb.inode_bitmap_start idx true t

  free_facts :
      (num reserved bit_value idx : ℕ)
      → (ltb idx num && (not (ltb idx reserved) && (bit_value == 0))) ≡ true
      → (idx < num) × (reserved ≤ idx) × (bit_value ≡ 0)
  free_facts num reserved bit_value idx h = ground arith

  in_bitmap :
      (idx : ℕ)
      → BitmapFits sb
      → idx < 0 + inode_bitmap_blks sb * bits_per_bitmap sb store
      → bitmap_block sb store sb.inode_bitmap_start idx < u32_mod
  in_bitmap idx fits h =
      let below : idx / bits_per_bitmap sb store < inode_bitmap_blks sb =
        (div-lt_iff_lt-mul {k = bits_per_bitmap sb store} {x = idx} {y = inode_bitmap_blks sb}
            positive).1
          (omega arith) in
      omega (arith, fits.blocks)
    where
      positive : 0 < bits_per_bitmap sb store
      positive = omega (arith, bits_fact sb store fits.sized, fits.sized.0)

  Marked-of_Unseen :
      {s t u : S} (idx : ℕ)
      → Unseen sb store s t
      → Marked sb store t sb.inode_bitmap_start idx true u
      → Marked sb store s sb.inode_bitmap_start idx true u
  Marked-of_Unseen idx k m = record {
    sound = m.sound;
    here = m.here;
    rest = λ j ne. m.rest j ne ∙ (SameBits-of_Unseen k).1 j;
    others = λ b ne. m.others b ne ∙ k.same b;
  }

  one_long :
      (l : List ℕ) (xs : List ℕ) → l ≡ take 1 xs → 1 ≤ length l → take 1 xs ≡ get_or l 0 0 ∷ []
  one_long l [] e h = absurd (omega (arith, ap length e))
  one_long l (x ∷ xs) e h = ap (λ y. y ∷ []) (sym (ap (λ z. get_or z 0 0) e))

  -- An inode number is given out as free and comes back used, the lowest there is; when the call fails
  -- at any point, every entry of the bitmap is as before.
  pub allocate_inode-Ends :
      {s : S}
      → BitmapFits sb
      → IsSound s
      → Ends (Allocated s) (λ _ t. SameBits s t) (allocate_inode sb store s)
  unfolding allocate_inode find_free_inode_indices
  allocate_inode-Ends {s} fits sound =
      Run.next
        (find_free_indices-Ends sb store sb.inode_bitmap_start sb.inode_num 3 (inode_bitmap_blks sb)
          1 fits.sized fits.blocks (rw (bits_fact sb store fits.sized) fits.bits) sound)
        (λ l t g. mark_first l t g.0 g.1 g.2) (λ _ t u. SameBits-of_Unseen u)
    where
      mark_first :
          (l : List ℕ) (t : S)
          → Unseen sb store s t
          → l ≡ take 1 (free_inodes s)
          → 1 ≤ length l
          → Ends
              (Allocated s)
              (λ _ u. SameBits s u)
              ((or_rollback
                    (set_inode_bitmap_bit sb store (get_or l 0 0) true)
                    (update_inode_bitmap_bits sb store l false)
                  >>= (λ _. pure (get_or l 0 0)))
                t)
      mark_first l t u e enough =
          Run.next
            (Run.rolled_back (update_inode_bitmap_bits sb store l false)
              (set_inode_bitmap_bit-Ends idx true fits.sized near u.sound)
              (λ v w.
                subst
                  (λ x.
                    Ends (λ _ y. SameBits s y) (λ _ y. SameBits s y)
                      (update_inode_bitmap_bits sb store x false v))
                  (sym (e ∙ only))
                  (undo-SameBits idx fits.sized near facts.2 (Unseen-trans _ _ u w)))
              (λ v h. h))
            (λ _ v m. returns (record {
              lowest = only;
              not_reserved = facts.1;
              in_table = facts.0;
              was_free = facts.2;
              marked = Marked-of_Unseen idx u m;
            }))
            (λ _ v h. h)
        where
          idx : ℕ
          idx = get_or l 0 0

          only : take 1 (free_inodes s) ≡ idx ∷ []
          only = one_long l (free_inodes s) e enough

          chosen :
              (is_free sb.inode_num 3 (inode_bit s) idx ≡ true)
              × (idx
                  < 0 * bits_per_bitmap sb store + inode_bitmap_blks sb * bits_per_bitmap sb store)
          chosen =
              first_free (is_free sb.inode_num 3 (inode_bit s))
                (inode_bitmap_blks sb * bits_per_bitmap sb store) (0 * bits_per_bitmap sb store) l e
                enough

          facts : (idx < sb.inode_num) × (3 ≤ idx) × (inode_bit s idx ≡ 0)
          facts = free_facts sb.inode_num 3 (inode_bit s idx) idx chosen.0

          zero_times : (m n : ℕ) → 0 * m + n ≡ 0 + n
          zero_times m n = omega arith

          near : bitmap_block sb store sb.inode_bitmap_start idx < u32_mod
          near = in_bitmap idx fits (subst (λ x. idx < x) (zero_times _ _) chosen.1)
